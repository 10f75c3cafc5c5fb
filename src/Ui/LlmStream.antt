-- ===== src/Ui/LlmStream.antt =====
-- `sendStreamingChatRequest` of frontend/astiango-hub-ui/src/services/llm/index.ts: the events of a
-- reply that comes in pieces, and the callbacks that they lead to.
pub mod Messages
pub mod Laws
mod Tests
use astiango_hub.Common.{
  ℕ, zero, suc, ◌+◌, Option, none, some, List, [], ◌∷◌, ◌++◌, codes, next, length, Text, or_empty,
  newline, split, take, drop, if◌then◌else◌,
}
use astiango_hub.Ui.Menu.{starts_with}
use astiango_hub.Ui.Chat.{is_some_text}
use astiango_hub.Ui.Chat.Stream.{Read, piece, done, failed, Thrown, error}

abbrev pub delimiter : Text
delimiter = newline ∷ newline ∷ []

-- `buffer.indexOf('\n\n')`; `none` stands for -1.
unfoldable pub index_of : Text → Option ℕ
unfolding starts_with
index_of [] = none
index_of (x ∷ s) = if starts_with (x ∷ s) delimiter then some 0 else next (index_of s)

abbrev pub prepend : Text → Option (List Text × Text) → Option (List Text × Text)
prepend message none = none
prepend message (some (messages, rest)) = some (message ∷ messages, rest)

abbrev pub take_first :
    Option ℕ → Text → (Text → Option (List Text × Text)) → Option (List Text × Text)
take_first none buffer go = some ([], buffer)
take_first (some i) buffer go = prepend (take i buffer) (go (drop (i + 2) buffer))

-- The loop that takes the messages off the buffer, with fuel: `none` means that it ran out.
unfoldable pub take_messages : ℕ → Text → Option (List Text × Text)
unfolding index_of take drop
take_messages zero buffer = none
take_messages (suc fuel) buffer = take_first (index_of buffer) buffer (take_messages fuel)

-- The calls of the callbacks, for chunks of the type `C`.
pub data Callback (C : Type 0) : Type 0 where
  on_chunk : C → Callback C
  on_error : Thrown → Callback C
  on_complete : Callback C

-- `parse` is `JSON.parse`, `none` where it throws.
module _ {C : Type 0} (parse : Text → Option C) where
  abbrev parsed_chunk : Option C → List (Callback C)
  parsed_chunk none = []
  parsed_chunk (some chunk) = on_chunk chunk ∷ []

  unfoldable pub line_callbacks : Text → List (Callback C)
  unfolding starts_with drop
  line_callbacks line =
      if starts_with line (codes "data: ")
      then parsed_chunk (parse (drop 6 line))
      else if starts_with line (codes "event: error")
      then on_error (error (codes "Stream error from server")) ∷ []
      else []

  abbrev pub lines_callbacks : List Text → List (Callback C)
  lines_callbacks [] = []
  lines_callbacks (line ∷ lines) = line_callbacks line ++ lines_callbacks lines

  -- The callbacks of the messages, in their order.
  unfoldable pub callbacks : List Text → List (Callback C)
  unfolding line_callbacks split
  callbacks [] = []
  callbacks (message ∷ messages) = lines_callbacks (split newline message) ++ callbacks messages

  abbrev pub add_callbacks :
      Option (List Text × Text) → (Text → List (Callback C)) → List (Callback C)
  add_callbacks none rest = []
  add_callbacks (some (messages, buffer)) rest = callbacks messages ++ rest buffer

  -- `processStream`, from the reads that the body gives; what is left in the buffer at the end is
  -- dropped. The fuel is one more than the length of the buffer.
  unfoldable pub process_stream : List Read → Text → List (Callback C)
  unfolding take_messages callbacks
  process_stream [] buffer = []
  process_stream (done ∷ reads) buffer = on_complete ∷ []
  process_stream (failed e ∷ reads) buffer = on_error e ∷ []
  process_stream (piece t ∷ reads) buffer =
      add_callbacks (take_messages (suc (length (buffer ++ t))) (buffer ++ t))
        (λ rest. process_stream reads rest)

-- What `fetch` does.
pub data Fetched : Type 0 where
  streaming : List Read → Fetched
  refused : Text → Fetched
  unreachable : Thrown → Fetched

abbrev pub authorization : Option Text → List (Text × Text)
authorization token =
    if is_some_text token then (codes "Authorization", or_empty token) ∷ [] else []

module _ {C : Type 0} (parse : Text → Option C) where
  abbrev replied : Fetched → List (Callback C)
  replied (streaming reads) = process_stream parse reads []
  replied (refused message) = on_error (error message) ∷ []
  replied (unreachable e) = on_error e ∷ []

  -- `fetch` is given the headers; `token` is that of `localStorage`.
  unfoldable pub send_streaming_chat_request :
      (List (Text × Text) → Fetched) → Option Text → List (Callback C)
  unfolding process_stream
  send_streaming_chat_request fetch token =
      replied (fetch ((codes "Content-Type", codes "application/json") ∷ authorization token))
