-- ===== src/Ui/Chat/Messages.antt =====
-- A message to the assistant: `createChatRequest`, `getStreamHeaders` and `sendStreamingRequest` of
-- frontend/astiango-hub-ui/src/components/core/ai/useAssistantConsole.ts, and the handlers of
-- AssistantConsole.vue beside it.
use astiango_hub.Common.{
  ℕ, ◌+◌, Bool, true, false, not, Option, none, some, List, [], ◌∷◌, ◌++◌, map, codes, length, Text,
  or_empty, trim, eq_text, find_index, remove_at, if◌then◌else◌,
}
use astiango_hub.Ui.Chat.{ChatbotStreamMessage, ChatMessage, Console, is_true, is_some_text}
use astiango_hub.Ui.Chat.Stream.{
  Thrown, aborted, error, alien, Progress, going, finished, rejected, StreamEvent,
  process_stream_data,
}

pub record ChatRequest : Type 0 where
  pub provider_id : Option Text
  pub model : Option Text
  pub query : Text
  pub system_prompt : Option Text
  pub temperature : Option Text
  pub max_tokens : Option ℕ
  pub conversation_id : Option Text

-- `none` where it throws: no provider or no model is selected.
unfoldable pub create_chat_request : Text → Console → Option ChatRequest
create_chat_request message s =
    if not (is_some_text s.chatbot_config.provider_id)
    then none
    else if not (is_some_text s.chatbot_config.model)
    then none
    else some (record {
      provider_id = s.chatbot_config.provider_id;
      model = s.chatbot_config.model;
      query = message;
      system_prompt = s.chatbot_config.system_prompt;
      temperature = s.chatbot_config.temperature;
      max_tokens = s.chatbot_config.max_tokens;
      conversation_id = s.current_conversation_id;
    })

unfoldable pub get_stream_headers : Console → List (Text × Text)
get_stream_headers s =
    (codes "Content-Type", codes "application/json")
    ∷ (if is_some_text s.storage.token
        then (codes "Authorization", or_empty s.storage.token) ∷ []
        else [])

-- What `fetch` does: a reply with a body to read, one that is not ok, with its text, or an error.
pub data Fetched : Type 0 where
  streaming : List StreamEvent → Fetched
  refused : Text → Fetched
  unreachable : Thrown → Fetched

-- `if (error instanceof Error) throw error`, and else another error. A DOMException is an `Error`.
abbrev pub as_error : Thrown → Thrown
as_error aborted = aborted
as_error (error message) = error message
as_error alien = error (codes "An error occurred while processing the stream")

-- How the request ends: with what was thrown, if anything, or it still waits for a read.
pub data Ending : Type 0 where
  waiting : Console → Ending
  ended : Option Thrown → Console → Ending

abbrev pub ending : Progress (Text × Console) → Ending
ending (going (_, s)) = waiting s
ending (finished s) = ended none s
ending (rejected e s) = ended (some (as_error e)) s

module _ (parse : Text → Option ChatbotStreamMessage) (extract : Text → Text) where
  abbrev pub read_reply : Fetched → ℕ → Console → Ending
  read_reply (streaming events) i s = ending (process_stream_data parse extract i events [] s)
  read_reply (refused message) i s = ended (some (error (extract message))) s
  read_reply (unreachable e) i s = ended (some (as_error e)) s

  abbrev fetch_reply : Option ChatRequest → (ChatRequest → Fetched) → ℕ → Console → Ending
  fetch_reply none fetch i s =
      ended (some (error (codes "Please select a provider and model before sending a message"))) s
  fetch_reply (some request) fetch i s = read_reply (fetch request) i s

  unfoldable pub send_streaming_request : Text → ℕ → (ChatRequest → Fetched) → Console → Ending
  unfolding create_chat_request process_stream_data
  send_streaming_request message i fetch s = fetch_reply (create_chat_request message s) fetch i s

abbrev pub user_message : Text → ℕ → Console → ChatMessage
user_message message now s = record {
  role = "user";
  content = some message;
  contents = none;
  usage = none;
  conversation_id = some (or_empty s.current_conversation_id);
  status = "completed";
  timestamp = now;
  is_streaming = none;
}

-- The place of the answer.
abbrev pub response_message : ℕ → Console → ChatMessage
response_message now s = record {
  role = "assistant";
  content = none;
  contents = none;
  usage = none;
  conversation_id = some (or_empty s.current_conversation_id);
  status = "pending";
  timestamp = now;
  is_streaming = some true;
}

-- The first part of `sendMessage`: the two messages, and the index of the second.
unfoldable pub begin_message : Text → ℕ → Console → ℕ × Console
begin_message message now s = (
  length s.chat_history + 1,
  record s {
    stream_error = [];
    has_abort_controller = true;
    chat_history = s.chat_history ++ user_message message now s ∷ response_message now s ∷ [];
    is_generating = true;
  },
)

module _ (extract : Text → Text) where
  -- The `catch` of `sendMessage`.
  abbrev pub catch_error : Option Thrown → ℕ → Console → Console
  catch_error none i s = s
  catch_error (some aborted) i s = record s { chat_history = remove_at i s.chat_history }
  catch_error (some (error message)) i s = record s { stream_error = extract message }
  catch_error (some alien) i s = record s {
    stream_error = codes "An error occurred while sending your message";
  }

  -- The rest of `sendMessage`, when the request has ended.
  unfoldable pub end_message : Option Thrown → ℕ → Console → Console
  end_message o i s = record (catch_error o i s) {
    is_generating = false;
    has_abort_controller = false;
  }

-- `msg.isStreaming`
abbrev pub streams : ChatMessage → Bool
streams m = is_true m.is_streaming

abbrev remove_found : Option ℕ → List ChatMessage → List ChatMessage
remove_found none ms = ms
remove_found (some i) ms = remove_at i ms

unfoldable pub cancel_message : Console → Console
cancel_message s =
    if s.has_abort_controller
    then record s {
      has_abort_controller = false;
      is_generating = false;
      chat_history = remove_found (find_index streams s.chat_history) s.chat_history;
    }
    else s

abbrev stop_streaming : ChatMessage → ChatMessage
stop_streaming m = if streams m then record m { is_streaming = some false } else m

-- `stopMessageStreaming`, which runs when `isGenerating` becomes false.
unfoldable pub stop_message_streaming : Console → Console
stop_message_streaming s = record s { chat_history = map stop_streaming s.chat_history }

-- `sendMessage` as a whole, with what other code does while the request waits.
module _ (parse : Text → Option ChatbotStreamMessage) (extract : Text → Text) where
  abbrev settle_message : Ending → ℕ → Ending
  settle_message (waiting s) i = waiting s
  settle_message (ended o s) i = ended none (end_message extract o i s)

  unfoldable pub send_message : Text → ℕ → (ChatRequest → Fetched) → Console → Ending
  unfolding begin_message send_streaming_request end_message trim
  send_message message now fetch s =
      if eq_text (trim message) []
      then ended none s
      else let (i, s') = begin_message message now s in
        settle_message (send_streaming_request parse extract message i fetch s') i
