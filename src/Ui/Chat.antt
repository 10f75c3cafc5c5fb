-- ===== src/Ui/Chat.antt =====
-- frontend/astiango-hub-ui/src/interfaces/models/llm.d.ts and the state of
-- components/core/ai/useAssistantConsole.ts: the conversation with the assistant. A field that may be
-- missing is an `Option`; texts are lists of code units.
pub mod Chunks
pub mod Stream
pub mod Pieces
pub mod Contents
pub mod Keys
pub mod Errors
pub mod Messages
pub mod ErrorTexts
pub mod Answers
pub mod Cancel
pub mod Endings
pub mod Conversations
mod Tests
use astiango_hub.Common.{ℕ, String, Bool, true, false, Option, none, some, List, [], Text, or_empty}
use astiango_hub.Mcp.Json.{Json}

-- `other` stands for a chunk with no type, or with one that no code handles.
pub data ChunkType : Type 0 where
  text action other : ChunkType

pub record LlmResponseUsage : Type 0 where
  pub prompt_tokens : Option ℕ
  pub completion_tokens : Option ℕ
  pub total_tokens : Option ℕ

-- What one event of the stream carries.
pub record ChatbotStreamMessage : Type 0 where
  pub conversation_id : Option Text
  pub conversation_title : Option Text
  pub message_id : Option Text
  pub key : Option Text
  pub parameters : Option Json
  pub content : Option Text
  pub chunk_type : ChunkType
  pub action_id : Option Text
  pub action : Option Text
  pub action_target : Option Text
  pub action_status : Option Text
  pub is_done : Option Bool
  pub is_initial : Option Bool
  pub error : Option Text
  pub hidden : Option Bool
  pub is_text_done : Option Bool
  pub usage : Option LlmResponseUsage

-- A part of a message of the assistant. It is made of a chunk, by a spread, and has its fields.
pub record ChatMessageContent : Type 0 where
  pub body : ChatbotStreamMessage
  pub is_streaming : Option Bool

pub record ChatMessage : Type 0 where
  pub role : String
  pub content : Option Text
  pub contents : Option (List ChatMessageContent)
  pub usage : Option LlmResponseUsage
  pub conversation_id : Option Text
  pub status : String
  pub timestamp : ℕ
  pub is_streaming : Option Bool

pub record ChatConversation : Type 0 where
  pub title : Option Text

-- The number `temperature`, which is passed on only, as its text.
pub record ChatbotConfig : Type 0 where
  pub provider_id : Option Text
  pub model : Option Text
  pub system_prompt : Option Text
  pub temperature : Option Text
  pub max_tokens : Option ℕ

pub record LlmProvider : Type 0 where
  pub id : Text
  pub models : List Text

-- `localStorage`, where `some none` is a configuration that `JSON.parse` refuses.
pub record ChatStorage : Type 0 where
  pub chatbot_config : Option (Option ChatbotConfig)
  pub current_conversation_id : Option Text
  pub token : Option Text

pub record Console : Type 0 where
  pub current_conversation : Option ChatConversation
  pub current_conversation_id : Option Text
  pub conversations : List ChatConversation
  pub chat_history : List ChatMessage
  pub is_generating : Bool
  pub stream_error : Text
  pub is_loading_conversations : Bool
  pub is_loading_messages : Bool
  pub history_dialog_visible : Bool
  pub config_dialog_visible : Bool
  pub has_abort_controller : Bool
  pub available_providers : List LlmProvider
  pub chatbot_config : ChatbotConfig
  pub storage : ChatStorage

-- A value as a test: `undefined` and `''` are not true.
abbrev pub is_true : Option Bool → Bool
is_true none = false
is_true (some b) = b

abbrev pub is_some_text : Option Text → Bool
is_some_text none = false
is_some_text (some []) = false
is_some_text (some s) = true
