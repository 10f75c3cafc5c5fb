-- ===== src/Ui/Chat/Stream.antt =====
-- `processStreamData` of frontend/astiango-hub-ui/src/components/core/ai/useAssistantConsole.ts: the
-- lines of the reply, which comes in pieces.
use astiango_hub.Common.{
  ℕ, false, Option, none, some, List, [], ◌∷◌, ◌++◌, codes, Text, newline, split, pop, drop, trim,
  find, modify_at, eq_text, if◌then◌else◌,
}
use astiango_hub.Ui.Menu.{starts_with}
use astiango_hub.Ui.Chat.{ChatbotStreamMessage, ChatMessage, Console, is_true}
use astiango_hub.Ui.Chat.Chunks.{handle_stream_chunk}

-- What is thrown: the DOMException of an abort, an `Error` with its message, or another value.
pub data Thrown : Type 0 where
  aborted : Thrown
  error : Text → Thrown
  alien : Thrown

-- A result of `reader.read()`, with the text that the decoder makes of a piece.
pub data Read : Type 0 where
  piece : Text → Read
  done : Read
  failed : Thrown → Read

-- How a line, or the stream, leaves the loop.
pub data Progress (A : Type 0) : Type 0 where
  going : A → Progress A
  finished : Console → Progress A
  rejected : Thrown → Console → Progress A

abbrev pub and_then : {A B : Type 0} → Progress A → (A → Progress B) → Progress B
and_then (going a) f = f a
and_then (finished s) f = finished s
and_then (rejected e s) f = rejected e s

-- What happens while the stream is read: a read, or what other code does between two reads.
pub data StreamEvent : Type 0 where
  received : Read → StreamEvent
  meanwhile : (Console → Console) → StreamEvent

abbrev pub data_prefix : Text
data_prefix = codes "data:"

abbrev pub error_prefix : Text
error_prefix = codes "event: error"

abbrev stopped : ChatMessage → ChatMessage
stopped m = record m { is_streaming = some false }

-- `if (chatHistory[i]) chatHistory[i].isStreaming = false`
unfoldable pub stop_message : ℕ → Console → Console
stop_message i s = record s { chat_history = modify_at i stopped s.chat_history }

-- The text of an event, after its prefix.
abbrev pub event_data : Text → Text
event_data line = trim (drop 5 line)

-- `parse` is `JSON.parse`, `none` where it throws, and `extract` is `extractErrorMessage`.
module _ (parse : Text → Option ChatbotStreamMessage) (extract : Text → Text) (i : ℕ) where
  -- A chunk that throws is reported only, and its `is_done` is not read.
  unfoldable pub process_chunk : ChatbotStreamMessage → Console → Progress Console
  unfolding handle_stream_chunk stop_message
  process_chunk chunk s =
      let (threw, s') = handle_stream_chunk chunk i s in
      if threw
      then going s'
      else if is_true chunk.is_done
      then finished (stop_message i s')
      else going s'

  abbrev parsed_chunk : Option ChatbotStreamMessage → Console → Progress Console
  parsed_chunk none s = going s
  parsed_chunk (some chunk) s = process_chunk chunk s

  unfoldable pub process_data : Text → Console → Progress Console
  unfolding process_chunk
  process_data payload s = if eq_text payload [] then going s else parsed_chunk (parse payload) s

  abbrev report_error : Option Text → Console → Progress Console
  report_error none s = going s
  report_error (some line) s = rejected (error (extract (event_data line))) s

  -- One line; `lines` are all the lines of the piece.
  unfoldable pub process_line : List Text → Text → Console → Progress Console
  unfolding process_data
  process_line lines line s =
      if starts_with line data_prefix
      then process_data (event_data line) s
      else if starts_with line error_prefix
      then report_error (find (λ l. starts_with l data_prefix) lines) s
      else going s

  unfoldable pub process_lines : List Text → List Text → Console → Progress Console
  unfolding process_line
  process_lines lines [] s = going s
  process_lines lines (line ∷ rest) s =
      and_then (process_line lines line s) (λ s'. process_lines lines rest s')

  -- A piece, after the text that was left of the pieces before it.
  unfoldable pub process_piece : Text → Text → Console → Progress (Text × Console)
  unfolding process_lines
  process_piece t buffer s =
      let (lines, rest) = pop (split newline (buffer ++ t)) in
      and_then (process_lines lines lines s) (λ s'. going (rest, s'))

  unfoldable pub process_read : Read → Text → Console → Progress (Text × Console)
  unfolding process_piece stop_message
  process_read (piece t) buffer s = process_piece t buffer s
  process_read done buffer s = finished (stop_message i s)
  process_read (failed e) buffer s = rejected e s

  unfoldable pub process_stream_data : List StreamEvent → Text → Console → Progress (Text × Console)
  unfolding process_read
  process_stream_data [] buffer s = going (buffer, s)
  process_stream_data (meanwhile f ∷ events) buffer s = process_stream_data events buffer (f s)
  process_stream_data (received r ∷ events) buffer s =
      and_then (process_read r buffer s) (λ next. process_stream_data events next.0 next.1)
