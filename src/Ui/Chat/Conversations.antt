-- ===== src/Ui/Chat/Conversations.antt =====
-- The conversations, the providers and the settings of
-- frontend/astiango-hub-ui/src/components/core/ai/useAssistantConsole.ts, with `selectProviderModel` of
-- AssistantConsole.vue. Each request is the call of it, and what is done with its reply; the calls
-- are those that `debounce` of lodash lets through.
use astiango_hub.Mcp.Session.{Outcome, ok, throw}
use astiango_hub.Common.{
  true, false, not, ◌||◌, Option, none, some, List, [], ◌∷◌, leb, Text, or_empty, eq_text,
  if◌then◌else◌,
}
use astiango_hub.Ui.Chat.{
  ChatMessage, ChatConversation, ChatbotConfig, LlmProvider, Console, is_some_text,
}

-- `res.data || []`
abbrev or_nil : {A : Type 0} → Option (List A) → List A
or_nil none = []
or_nil (some xs) = xs

unfoldable pub start_conversations : Console → Console
start_conversations s = record s { is_loading_conversations = true }

unfoldable pub finish_conversations : Outcome (Option (List ChatConversation)) → Console → Console
finish_conversations (ok found) s = record s {
  conversations = or_nil found;
  is_loading_conversations = false;
}
finish_conversations (throw e) s = record s { is_loading_conversations = false }

-- `messages.sort(…)` by the time, which keeps the order of messages of one time.
unfoldable pub insert_message : ChatMessage → List ChatMessage → List ChatMessage
insert_message m [] = m ∷ []
insert_message m (n ∷ ms) =
    let later = insert_message m ms in if leb m.timestamp n.timestamp then m ∷ n ∷ ms else n ∷ later

unfoldable pub sort_messages : List ChatMessage → List ChatMessage
unfolding insert_message
sort_messages [] = []
sort_messages (m ∷ ms) = insert_message m (sort_messages ms)

unfoldable pub start_messages : Text → Console → Console
start_messages id s = if eq_text id [] then s else record s { is_loading_messages = true }

-- The reply to `loadConversationMessages`, whose messages have their times.
unfoldable pub finish_messages : Text → Outcome (Option (List ChatMessage)) → Console → Console
unfolding sort_messages
finish_messages id (ok found) s = record s {
  chat_history = sort_messages (or_nil found);
  current_conversation_id = some id;
  is_loading_messages = false;
}
finish_messages id (throw e) s = record s { is_loading_messages = false }

-- The reply to `loadCurrentConversation`.
pub data ConversationReply : Type 0 where
  found : Option ChatConversation → ConversationReply
  not_found : ConversationReply
  failed : ConversationReply

-- `none` where no request is sent, because there is no identifier.
unfoldable pub load_current_conversation : Option ConversationReply → Console → Console
load_current_conversation none s = record s { current_conversation = none }
load_current_conversation (some (found c)) s = record s { current_conversation = c }
load_current_conversation (some not_found) s = record s { current_conversation_id = some [] }
load_current_conversation (some failed) s = record s { current_conversation = none }

abbrev no_config : ChatbotConfig
no_config = record {
  provider_id = none;
  model = none;
  system_prompt = none;
  temperature = none;
  max_tokens = none;
}

unfoldable pub reset_chatbot_config : Console → Console
reset_chatbot_config s = record s {
  chatbot_config = no_config;
  storage = record (s.storage) { chatbot_config = none };
}

abbrev store_config : ChatbotConfig → Console → Console
store_config config s = record s {
  chatbot_config = config;
  storage = record (s.storage) { chatbot_config = some (some config) };
}

abbrev over {ℓ} : {A : Type ℓ} → Option A → Option A → Option A
over none old = old
over (some new) old = some new

-- `{ ...old, ...config }`
unfoldable pub merge_config : ChatbotConfig → ChatbotConfig → ChatbotConfig
merge_config old config = record {
  provider_id = over config.provider_id old.provider_id;
  model = over config.model old.model;
  system_prompt = over config.system_prompt old.system_prompt;
  temperature = over config.temperature old.temperature;
  max_tokens = over config.max_tokens old.max_tokens;
}

abbrev load_stored : Option (Option ChatbotConfig) → Console → Console
load_stored (some (some config)) s = record s {
  chatbot_config = merge_config s.chatbot_config config;
}
load_stored _ s = s

unfoldable pub load_chatbot_config : Console → Console
unfolding merge_config
load_chatbot_config s = load_stored s.storage.chatbot_config s

unfoldable pub save_chatbot_config : ChatbotConfig → Console → Console
unfolding merge_config
save_chatbot_config config s =
    store_config (merge_config s.chatbot_config config) (record s { config_dialog_visible = false })

unfoldable pub select_provider_model : Text → Text → Console → Console
select_provider_model provider_id model s =
    store_config (record (s.chatbot_config) { provider_id = some provider_id; model = some model })
      s

-- `models[0]`, for a provider with a list of models, which may be empty.
abbrev first_model : List Text → Option Text
first_model [] = none
first_model (m ∷ ms) = some m

abbrev choose_first : List LlmProvider → Console → Console
choose_first [] s = s
choose_first (p ∷ ps) s =
    store_config
      (record (s.chatbot_config) { provider_id = some p.id; model = first_model p.models }) s

abbrev reset_without : List LlmProvider → Console → Console
reset_without [] s = record s {
  chatbot_config = no_config;
  storage = record (s.storage) { chatbot_config = none };
}
reset_without (p ∷ ps) s = s

-- The reply to `loadLLMProviders`.
unfoldable pub load_llm_providers : Outcome (Option (List LlmProvider)) → Console → Console
load_llm_providers (ok reply) s =
    let s' = reset_without (or_nil reply) (record s { available_providers = or_nil reply }) in
    if not (is_some_text s'.chatbot_config.provider_id)
      || not (is_some_text s'.chatbot_config.model)
    then choose_first (or_nil reply) s'
    else s'
load_llm_providers (throw e) s = s

-- `selectConversation` up to its request.
unfoldable pub select_conversation : Text → Console → Console
unfolding start_messages
select_conversation id s =
    if eq_text (or_empty s.current_conversation_id) id
    then s
    else start_messages id (record s { current_conversation_id = some id; stream_error = [] })

unfoldable pub create_new_conversation : Console → Console
create_new_conversation s = record s {
  current_conversation_id = some [];
  storage = record (s.storage) { current_conversation_id = none };
  stream_error = [];
  chat_history = [];
}

-- What the watcher does at once when the identifier has changed; it loads the conversation next, if
-- there is an identifier.
unfoldable pub conversation_changed : Console → Console
conversation_changed s =
    if is_some_text s.current_conversation_id
    then record s {
      storage = record (s.storage) { current_conversation_id = s.current_conversation_id };
    }
    else record s {
      storage = record (s.storage) { current_conversation_id = none };
      current_conversation = none;
    }
