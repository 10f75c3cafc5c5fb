-- ===== src/Ui/Chat/Chunks.antt =====
-- `handleStreamChunk` of frontend/astiango-hub-ui/src/components/core/ai/useAssistantConsole.ts.
use astiango_hub.Common.{
  ℕ, ◌+◌, Bool, true, false, Option, none, some, List, [], ◌∷◌, ◌++◌, codes, Text, or_empty,
  eq_text, find_index, get_elem?, modify_at, if◌then◌else◌,
}
use astiango_hub.Ui.Chat.{
  ChunkType, LlmResponseUsage, ChatbotStreamMessage, ChatMessageContent, ChatMessage,
  ChatConversation, Console, is_true, is_some_text,
}

-- `n += m || 0`, where a number that is missing gives NaN, which is `none` too.
abbrev add_tokens : Option ℕ → Option ℕ → Option ℕ
add_tokens none m = none
add_tokens (some n) none = some n
add_tokens (some n) (some m) = some (n + m)

abbrev usage_or_zero : Option LlmResponseUsage → LlmResponseUsage
usage_or_zero none = record {
  prompt_tokens = some 0;
  completion_tokens = some 0;
  total_tokens = some 0;
}
usage_or_zero (some u) = u

unfoldable pub add_usage : Option LlmResponseUsage → ChatMessage → ChatMessage
add_usage none m = m
add_usage (some u) m = record m {
  usage = some (record {
    prompt_tokens = add_tokens (usage_or_zero m.usage).prompt_tokens u.prompt_tokens;
    completion_tokens = add_tokens (usage_or_zero m.usage).completion_tokens u.completion_tokens;
    total_tokens = add_tokens (usage_or_zero m.usage).total_tokens u.total_tokens;
  });
}

abbrev pub contents_of : ChatMessage → List ChatMessageContent
contents_of m = elim m.contents [ none ↦ [] | some cs ↦ cs ]

-- `c.key === contentKey`
abbrev pub has_content_key : Text → ChatMessageContent → Bool
has_content_key key c = elim c.body.key [ none ↦ false | some k ↦ eq_text k key ]

-- The text of `content.content` where a text is added to it.
abbrev pub shown_text : Option Text → Text
shown_text none = codes "undefined"
shown_text (some s) = s

abbrev over {ℓ} : {A : Type ℓ} → Option A → Option A → Option A
over none old = old
over (some new) old = some new

-- `{ ...content, ...chunk }`
unfoldable pub overlay : ChatbotStreamMessage → ChatMessageContent → ChatMessageContent
overlay chunk c = record c {
  body = record {
    conversation_id = over chunk.conversation_id c.body.conversation_id;
    conversation_title = over chunk.conversation_title c.body.conversation_title;
    message_id = over chunk.message_id c.body.message_id;
    key = over chunk.key c.body.key;
    parameters = over chunk.parameters c.body.parameters;
    content = over chunk.content c.body.content;
    chunk_type = chunk.chunk_type;
    action_id = over chunk.action_id c.body.action_id;
    action = over chunk.action c.body.action;
    action_target = over chunk.action_target c.body.action_target;
    action_status = over chunk.action_status c.body.action_status;
    is_done = over chunk.is_done c.body.is_done;
    is_initial = over chunk.is_initial c.body.is_initial;
    error = over chunk.error c.body.error;
    hidden = over chunk.hidden c.body.hidden;
    is_text_done = over chunk.is_text_done c.body.is_text_done;
    usage = over chunk.usage c.body.usage;
  };
}

abbrev pub append_text : ChatbotStreamMessage → ChatMessageContent → ChatMessageContent
append_text chunk c = record c {
  body = record (c.body) { content = some (shown_text c.body.content ++ or_empty chunk.content) };
  is_streaming = if is_true chunk.is_text_done then some false else c.is_streaming;
}

-- What a chunk makes of the content that has its key.
unfoldable pub update_content :
    ChunkType → ChatbotStreamMessage → ChatMessageContent → ChatMessageContent
unfolding overlay
update_content ChunkType.text chunk c = append_text chunk c
update_content ChunkType.action chunk c = overlay chunk c
update_content ChunkType.other chunk c = c

abbrev pub text_content : ChatbotStreamMessage → ChatMessageContent
text_content chunk = record {
  body = record chunk { content = some (or_empty chunk.content) };
  is_streaming = some true;
}

abbrev pub action_content : ChatbotStreamMessage → ChatMessageContent
action_content chunk = record { body = chunk; is_streaming = none }

-- The content that a chunk adds.
unfoldable pub new_contents : ChunkType → ChatbotStreamMessage → List ChatMessageContent
new_contents ChunkType.text chunk = text_content chunk ∷ []
new_contents ChunkType.action chunk = action_content chunk ∷ []
new_contents ChunkType.other chunk = []

abbrev place_content :
    Option ℕ → ChatbotStreamMessage → List ChatMessageContent → List ChatMessageContent
place_content (some i) chunk cs = modify_at i (update_content chunk.chunk_type chunk) cs
place_content none chunk cs = cs ++ new_contents chunk.chunk_type chunk

unfoldable pub add_content :
    ChatbotStreamMessage → List ChatMessageContent → List ChatMessageContent
unfolding update_content new_contents
add_content chunk cs = place_content (find_index (has_content_key (or_empty chunk.key)) cs) chunk cs

-- What a chunk does to the message of the answer.
unfoldable pub update_message : ChatbotStreamMessage → ChatMessage → ChatMessage
unfolding add_usage add_content
update_message chunk m =
    let m' = add_usage chunk.usage m in
    record m' { contents = some (add_content chunk (contents_of m')) }

abbrev pub titled : Option Text → Option ChatConversation → Option ChatConversation
titled title none = some (record { title = title })
titled title (some c) = some (record c { title = title })

abbrev pub set_title : Option Text → Console → Console
set_title title s =
    if is_some_text title
    then record s { current_conversation = titled title s.current_conversation }
    else s

abbrev pub answer_chunk : Option ChatMessage → ChatbotStreamMessage → ℕ → Console → Bool × Console
answer_chunk none chunk i s = (true, s)
answer_chunk (some m) chunk i s =
    (false, record s { chat_history = modify_at i (update_message chunk) s.chat_history })

-- `handleStreamChunk(chunk, chatHistory[i])`, with whether it throws: there may be no such message.
unfoldable pub handle_stream_chunk : ChatbotStreamMessage → ℕ → Console → Bool × Console
unfolding update_message
handle_stream_chunk chunk i s =
    if is_true chunk.is_initial
    then (false, record s { current_conversation_id = chunk.conversation_id })
    else let s' = set_title chunk.conversation_title s in
      answer_chunk (get_elem? s'.chat_history i) chunk i s'
