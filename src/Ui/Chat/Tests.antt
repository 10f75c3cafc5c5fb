-- ===== src/Ui/Chat/Tests.antt =====
-- The conversation with the assistant at concrete messages.
use mathlib.Core.List.{flatten, foldl}
use astiango_hub.Common.{
  ℕ, ◌≡◌, refl, inl, inr, true, false, Option, none, some, [], ◌∷◌, ◌++◌, codes, Text, newline,
  eq_text, find, pop, split, modify_at, get_elem?, drop, trim, if◌then◌else◌,
}
use astiango_hub.Ui.Menu.{starts_with}
use astiango_hub.Ui.Chat.{ChunkType, ChatbotStreamMessage, ChatMessage, Console}
use astiango_hub.Ui.Chat.Chunks.{contents_of, update_message, handle_stream_chunk}
use astiango_hub.Ui.Chat.Stream.{
  rejected, error, aborted, Read, piece, done, received, and_then, error_prefix, process_data,
  process_lines, process_stream_data,
}
use astiango_hub.Ui.Chat.Pieces.{pieces, process_stream_data-pieces}
use astiango_hub.Ui.Chat.Contents.{shown, update_message-said}
use astiango_hub.Ui.Chat.Errors.{error_event_lem}
use astiango_hub.Ui.Chat.Messages.{
  user_message, response_message, begin_message, end_message, cancel_message, streaming, ended,
  send_message,
}
use astiango_hub.Ui.Chat.Endings.{send_message-idle}
use astiango_hub.Ui.Chat.Cancel.{cancel_message_lem}

abbrev chunk : Text → Option Text → ChatbotStreamMessage
chunk text key = record {
  conversation_id = none;
  conversation_title = none;
  message_id = none;
  key = key;
  parameters = none;
  content = some text;
  chunk_type = ChunkType.text;
  action_id = none;
  action = none;
  action_target = none;
  action_status = none;
  is_done = none;
  is_initial = none;
  error = none;
  hidden = none;
  is_text_done = none;
  usage = none;
}

-- A parser that takes the text of an event for that of a chunk, and "end" for the last one.
abbrev parse : Text → Option ChatbotStreamMessage
parse t =
    if eq_text t (codes "end")
    then some (record (chunk [] (some (codes "k"))) { is_done = some true })
    else some (chunk t (some (codes "k")))

abbrev extract : Text → Text
extract t = t

abbrev hello : Console
hello = record {
  current_conversation = none;
  current_conversation_id = some [];
  conversations = [];
  chat_history = [];
  is_generating = false;
  stream_error = [];
  is_loading_conversations = false;
  is_loading_messages = false;
  history_dialog_visible = false;
  config_dialog_visible = false;
  has_abort_controller = false;
  available_providers = [];
  chatbot_config = record {
    provider_id = some (codes "p");
    model = some (codes "m");
    system_prompt = none;
    temperature = none;
    max_tokens = none;
  };
  storage = record { chatbot_config = none; current_conversation_id = none; token = none };
}

abbrev asked : ℕ × Console
asked = begin_message (codes "hi") 7 hello

process_stream_data-pieces_example :
    process_stream_data parse extract 1
      (pieces (codes "data: A" ∷ (newline ∷ codes "data: B") ∷ (newline ∷ []) ∷ [])
        ++ received done ∷ [])
      []
      asked.1
    ≡ process_stream_data parse extract 1
        (received (piece (codes "data: A" ++ (newline ∷ codes "data: B" ++ newline ∷ [])))
          ∷ received done
          ∷ [])
        []
        asked.1
unfolding starts_with pop split flatten
process_stream_data-pieces_example =
    process_stream_data-pieces parse extract 1 (codes "data: A")
      ((newline ∷ codes "data: B") ∷ (newline ∷ []) ∷ []) (received done ∷ []) [] asked.1
      (refl, (refl, tt))

abbrev answer : ChatMessage
answer = response_message 7 hello

update_message-said_example :
    shown (codes "k") (
      contents_of (
        foldl
          (λ m c. update_message c m)
          answer
          (chunk (codes "A") (some (codes "k"))
            ∷ chunk (codes "x") none
            ∷ chunk (codes "B") (some (codes "k"))
            ∷ [])))
    ≡ codes "AB"
unfolding eq_text find
update_message-said_example =
    update_message-said (codes "k")
      (chunk (codes "A") (some (codes "k"))
        ∷ chunk (codes "x") none
        ∷ chunk (codes "B") (some (codes "k"))
        ∷ [])
      answer (inl (refl, refl), (inr (λ e. cc), (inl (refl, refl), tt)))

error_event_lem_example :
    (process_stream_data parse extract 1
        (received (
            piece (
              codes "g" ++ newline ∷ (error_prefix ++ newline ∷ (codes "data: A" ++ newline ∷ []))))
          ∷ received done
          ∷ [])
        (codes ": pin")
        asked.1
      ≡ rejected (error (codes "A")) asked.1)
    × (process_stream_data parse extract 1
          (received (piece (codes "g" ++ newline ∷ (error_prefix ++ newline ∷ (codes "data"))))
            ∷ received (piece (codes ": A" ++ newline ∷ []))
            ∷ received done
            ∷ [])
          (codes ": pin")
          asked.1
        ≡ and_then (process_data parse extract 1 (codes "A") asked.1) (λ s'.
          and_then
            (process_lines parse extract 1 (codes "data: A" ∷ []) [] s')
            (λ s''. process_stream_data parse extract 1 (received done ∷ []) [] s'')))
unfolding trim starts_with drop split pop
error_event_lem_example =
    error_event_lem parse extract 1 (received done ∷ []) (codes ": pin") (codes ": ping" ∷ []) []
      (codes "data: A") asked.1 ((refl, refl), tt) refl
      (codes "g" ++ newline ∷ (error_prefix ++ newline ∷ (codes "data: A" ++ newline ∷ [])))
      (codes "g" ++ newline ∷ (error_prefix ++ newline ∷ codes "data"))
      (codes ": A" ++ newline ∷ []) [] (codes "data") [] refl refl refl

-- One chunk of the answer has been read.
abbrev answered : ChatMessage
answered = update_message (chunk (codes "A") (some (codes "k"))) answer

abbrev reading : Console
reading = record (asked.1) { chat_history = user_message (codes "hi") 7 hello ∷ answered ∷ [] }

abbrev one_piece : Read
one_piece = piece (codes "data: A" ++ newline ∷ codes "da")

cancel_message_lem_example :
    let after = end_message extract (some aborted) 1 (cancel_message reading) in
    (after.chat_history ≡ user_message (codes "hi") 7 hello ∷ []) × (after.is_generating ≡ false)
unfolding begin_message process_stream_data starts_with pop split drop trim eq_text modify_at
    get_elem? handle_stream_chunk
cancel_message_lem_example =
    cancel_message_lem parse extract (codes "hi") 7 hello (one_piece ∷ []) (codes "da") reading tt
      refl

abbrev at_end : Console
at_end = record (asked.1) {
  chat_history =
      user_message (codes "hi") 7 hello ∷ record answered { is_streaming = some false } ∷ [];
}

-- A piece of the answer, and the end of the stream.
send_message-idle_example :
    (s' : Console) × (send_message parse extract
        (codes "hi")
        7
        (λ r. streaming (received one_piece ∷ received done ∷ []))
        hello
      ≡ ended none s')
    × (s'.is_generating ≡ false)
    × (s'.has_abort_controller ≡ false)
unfolding trim eq_text
send_message-idle_example =
    send_message-idle parse extract (codes "hi") 7
      (λ r. streaming (received one_piece ∷ received done ∷ [])) hello refl
      (λ r. (received one_piece ∷ [], [], refl))
