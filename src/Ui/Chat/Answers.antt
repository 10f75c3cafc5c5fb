-- ===== src/Ui/Chat/Answers.antt =====
-- The message of the answer while its stream is read, and after it was cancelled: the functions of
-- frontend/astiango-hub-ui/src/components/core/ai/useAssistantConsole.ts with the handlers of
-- AssistantConsole.vue.
use astiango_hub.Common.{
  ◌≡◌, refl, ap, ◌∙◌, inl, inr, Bool, true, false, Bool-cases, Option, some, Option-cases, List, [],
  ◌∷◌, ◌++◌, Text, length, map, get_elem?, modify_at, find, eq_text, split, pop, newline,
}
use astiango_hub.Common.Arrays.Behind.{get_elem?-behind, modify_at-behind}
use astiango_hub.Ui.Menu.{starts_with}
use astiango_hub.Ui.Chat.{ChatbotStreamMessage, ChatMessage, Console, is_true, is_some_text}
use astiango_hub.Ui.Chat.Chunks.{
  set_title, answer_chunk, add_usage, update_message, handle_stream_chunk,
}
use astiango_hub.Ui.Chat.Stream.{
  Progress, going, finished, rejected, and_then, Read, piece, done, failed, received, stop_message,
  process_chunk, process_data, process_line, process_lines, process_piece, process_read,
  process_stream_data, data_prefix, error_prefix, event_data,
}
use astiango_hub.Ui.Chat.Messages.{streams}

streams-update_message :
    (chunk : ChatbotStreamMessage) (m : ChatMessage) → streams (update_message chunk m) ≡ streams m
unfolding update_message add_usage
streams-update_message chunk m = elim (Option-cases chunk.usage) [
  | inl missing ↦ rw missing refl
  | inr (u, e) ↦ rw e refl
]

-- The answer stands behind the messages `before`, and streams, or does no more; while it streams it
-- can be cancelled.
module _ (before : List ChatMessage) where
  pub record IsAnswered (streaming : Bool) (s : Console) : Type 0 where
    pub answer : ChatMessage
    pub placed : s.chat_history ≡ before ++ answer ∷ []
    pub streamed : streams answer ≡ streaming
    pub abortable : s.has_abort_controller ≡ true

  abbrev pub Leaves : {A : Type 0} → (A → Console) → Progress A → Type 0
  Leaves console (going a) = IsAnswered true (console a)
  Leaves console (finished s) = IsAnswered false s
  Leaves console (rejected e s) = IsAnswered true s

  stop_message-IsAnswered :
      (s : Console) → IsAnswered true s → IsAnswered false (stop_message (length before) s)
  unfolding stop_message
  stop_message-IsAnswered s h = record {
    answer = record (h.answer) { is_streaming = some false };
    placed = rw h.placed (modify_at-behind _ before h.answer []);
    streamed = refl;
    abortable = h.abortable;
  }

  set_title-IsAnswered :
      (title : Option Text) (s : Console) → IsAnswered true s → IsAnswered true (set_title title s)
  set_title-IsAnswered title s h = elim (Bool-cases (is_some_text title)) [
    | inl given ↦ rw given (record {
      answer = h.answer;
      placed = h.placed;
      streamed = h.streamed;
      abortable = h.abortable;
    })
    | inr missing ↦ rw missing h
  ]

  answer_chunk-IsAnswered :
      (chunk : ChatbotStreamMessage) (s : Console)
      → IsAnswered true s
      → IsAnswered true
          (answer_chunk (get_elem? s.chat_history (length before)) chunk (length before) s).1
  answer_chunk-IsAnswered chunk s h =
      let found : get_elem? s.chat_history (length before) ≡ some h.answer =
        ap (λ ms. get_elem? ms (length before)) h.placed ∙ get_elem?-behind before h.answer [] in
      rw found (record {
        answer = update_message chunk h.answer;
        placed =
            ap (modify_at (length before) (update_message chunk)) h.placed
            ∙ modify_at-behind (update_message chunk) before h.answer [];
        streamed = streams-update_message chunk h.answer ∙ h.streamed;
        abortable = h.abortable;
      })

  handle_stream_chunk-IsAnswered :
      (chunk : ChatbotStreamMessage) (s : Console)
      → IsAnswered true s
      → IsAnswered true (handle_stream_chunk chunk (length before) s).1
  unfolding handle_stream_chunk
  handle_stream_chunk-IsAnswered chunk s h = elim (Bool-cases (is_true chunk.is_initial)) [
    | inl initial ↦ rw initial (record {
      answer = h.answer;
      placed = h.placed;
      streamed = h.streamed;
      abortable = h.abortable;
    })
    | inr later ↦ rw later (
        answer_chunk-IsAnswered chunk (set_title chunk.conversation_title s)
          (set_title-IsAnswered chunk.conversation_title s h))
  ]

  and_then-Leaves :
      {A B : Type 0} (f : A → Console) (g : B → Console) (p : Progress A) (k : A → Progress B)
      → Leaves f p
      → ((a : A) → IsAnswered true (f a) → Leaves g (k a))
      → Leaves g (and_then p k)
  and_then-Leaves f g (going a) k h keep = keep a h
  and_then-Leaves f g (finished s) k h keep = h
  and_then-Leaves f g (rejected e s) k h keep = h

  module _ (parse : Text → Option ChatbotStreamMessage) (extract : Text → Text) where
    chunk-Leaves :
        (chunk : ChatbotStreamMessage) (s : Console)
        → IsAnswered true s
        → Leaves (λ s. s) (process_chunk parse extract (length before) chunk s)
    unfolding process_chunk
    chunk-Leaves chunk s h =
        let h' = handle_stream_chunk-IsAnswered chunk s h in
        elim (Bool-cases (handle_stream_chunk chunk (length before) s).0) [
          | inl threw ↦ rw threw h'
          | inr fine ↦ elim (Bool-cases (is_true chunk.is_done)) [
            | inl last ↦ rw (fine, last) (stop_message-IsAnswered _ h')
            | inr more ↦ rw (fine, more) h'
          ]
        ]

    data-Leaves :
        (payload : Text) (s : Console)
        → IsAnswered true s
        → Leaves (λ s. s) (process_data parse extract (length before) payload s)
    unfolding process_data
    data-Leaves payload s h = elim (Bool-cases (eq_text payload [])) [
      | inl empty ↦ rw empty h
      | inr full ↦ elim (Option-cases (parse payload)) [
        | inl broken ↦ rw (full, broken) h
        | inr (chunk, e) ↦ rw (full, e) (chunk-Leaves chunk s h)
      ]
    ]

    line-Leaves :
        (lines : List Text) (line : Text) (s : Console)
        → IsAnswered true s
        → Leaves (λ s. s) (process_line parse extract (length before) lines line s)
    unfolding process_line
    line-Leaves lines line s h = elim (Bool-cases (starts_with line data_prefix)) [
      | inl text ↦ rw text (data-Leaves (event_data line) s h)
      | inr other ↦ elim (Bool-cases (starts_with line error_prefix)) [
        | inr ignored ↦ rw (other, ignored) h
        | inl reports ↦ elim (Option-cases (find (λ l. starts_with l data_prefix) lines)) [
          | inl silent ↦ rw (other, reports, silent) h
          | inr (l, e) ↦ rw (other, reports, e) h
        ]
      ]
    ]

    lines-Leaves :
        (lines rest : List Text) (s : Console)
        → IsAnswered true s
        → Leaves (λ s. s) (process_lines parse extract (length before) lines rest s)
    unfolding process_lines
    lines-Leaves lines [] s h = h
    lines-Leaves lines (line ∷ rest) s h =
        and_then-Leaves (λ s. s) (λ s. s) _ _ (line-Leaves lines line s h)
          (λ s' h'. lines-Leaves lines rest s' h')

    read-Leaves :
        (r : Read) (buffer : Text) (s : Console)
        → IsAnswered true s
        → Leaves (λ next. next.1) (process_read parse extract (length before) r buffer s)
    unfolding process_read process_piece
    read-Leaves (piece t) buffer s h =
        let (lines, rest) = pop (split newline (buffer ++ t)) in
        and_then-Leaves {B = Text × Console} (λ s. s) (λ next. next.1)
          (process_lines parse extract (length before) lines lines s) (λ s'. going (rest, s'))
          (lines-Leaves lines lines s h) (λ s' h'. h')
    read-Leaves done buffer s h = stop_message-IsAnswered s h
    read-Leaves (failed e) buffer s h = h

    -- However the reads of the stream come, the answer stays behind the messages before it, which
    -- are as they were; it streams until the stream has ended, and not after that.
    pub process_stream_data-Leaves :
        (reads : List Read) (buffer : Text) (s : Console)
        → IsAnswered true s
        → Leaves
            (λ next. next.1)
            (process_stream_data parse extract (length before) (map received reads) buffer s)
    unfolding process_stream_data
    process_stream_data-Leaves [] buffer s h = h
    process_stream_data-Leaves (r ∷ reads) buffer s h =
        and_then-Leaves (λ next. next.1) (λ next. next.1) _ _ (read-Leaves r buffer s h)
          (λ next h'. process_stream_data-Leaves reads next.0 next.1 h')
