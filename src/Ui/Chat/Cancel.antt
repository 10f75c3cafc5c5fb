-- ===== src/Ui/Chat/Cancel.antt =====
-- What `sendMessage` and `cancelMessage` of
-- frontend/astiango-hub-ui/src/components/core/ai/AssistantConsole.vue leave of a message.
use astiango_hub.Common.{
  append-nil, ℕ, ◌≡◌, refl, sym, ◌∙◌, true, false, Option, none, some, List, [], ◌∷◌, ◌++◌,
  append_assoc, All, All-append, Text, length, length-append, map,
}
use mathlib.Core.Path.{subst}
use astiango_hub.Common.Arrays.Behind.{find_index-behind, remove_at-behind, remove_at-beyond}
use astiango_hub.Ui.Chat.{ChatbotStreamMessage, ChatMessage, Console}
use astiango_hub.Ui.Chat.Stream.{aborted, going, finished, Read, received, process_stream_data}
use astiango_hub.Ui.Chat.Messages.{
  user_message, response_message, begin_message, end_message, streams, cancel_message,
}
use astiango_hub.Ui.Chat.Answers.{IsAnswered, Leaves, process_stream_data-Leaves}

module _ (parse : Text → Option ChatbotStreamMessage) (extract : Text → Text) (message : Text)
    (now : ℕ) (s : Console) where
  -- The messages before the answer.
  abbrev before : List ChatMessage
  before = s.chat_history ++ user_message message now s ∷ []

  begin-IsAnswered : IsAnswered before true (begin_message message now s).1
  unfolding begin_message
  begin-IsAnswered = record {
    answer = response_message now s;
    placed = sym (append_assoc s.chat_history _ (response_message now s ∷ []));
    streamed = refl;
    abortable = refl;
  }

  index-before : length before ≡ (begin_message message now s).0
  unfolding begin_message
  index-before = length-append s.chat_history (user_message message now s ∷ [])

  read_answer :
      (reads : List Read)
      → Leaves before
          (λ next. next.1)
          (process_stream_data parse extract
            (begin_message message now s).0
            (map received reads)
            []
            (begin_message message now s).1)
  read_answer reads =
      subst
        (λ i.
          Leaves before (λ (next : Text × Console). next.1)
            (process_stream_data parse extract i (map received reads) []
              (begin_message message now s).1))
        index-before
        (process_stream_data-Leaves before parse extract reads [] (begin_message message now s).1
          begin-IsAnswered)

  -- A message that is cancelled while its answer is read, whatever has been read, leaves the history
  -- with the message of the user behind the messages that it had, once the abort has reached
  -- `sendMessage`, and nothing is generated any more, if no message of the history was streaming.
  pub cancel_message_lem :
      (reads : List Read) (buffer : Text) (s' : Console)
      → All (λ m. streams m ≡ false) s.chat_history
      → process_stream_data parse extract
          (begin_message message now s).0
          (map received reads)
          []
          (begin_message message now s).1
        ≡ going (buffer, s')
      → let after =
          end_message extract (some aborted) (begin_message message now s).0 (cancel_message s') in
        (after.chat_history ≡ s.chat_history ++ user_message message now s ∷ [])
        × (after.is_generating ≡ false)
  unfolding end_message cancel_message
  cancel_message_lem reads buffer s' quiet e =
      let h : IsAnswered before true s' =
        subst (Leaves before (λ (next : Text × Console). next.1)) e (read_answer reads) in
      rw
        (
          h.abortable,
          h.placed,
          find_index-behind streams before h.answer []
              (All-append _ s.chat_history _ quiet (refl, tt)) h.streamed,
          remove_at-behind before h.answer [] ∙ append-nil before,
          sym index-before,
          remove_at-beyond before,
        )
        (refl, refl)

  -- An answer that is read to its end stands behind the message of the user, and does not stream any
  -- more; the messages before it are as they were.
  pub send_message-finished :
      (reads : List Read) (s' : Console)
      → process_stream_data parse extract
          (begin_message message now s).0
          (map received reads)
          []
          (begin_message message now s).1
        ≡ finished s'
      → let after = end_message extract none (begin_message message now s).0 s' in
        (answer : ChatMessage) × (after.chat_history
          ≡ s.chat_history ++ user_message message now s ∷ answer ∷ [])
        × (streams answer ≡ false)
  unfolding end_message
  send_message-finished reads s' e =
      let h : IsAnswered before false s' =
        subst (Leaves before (λ (next : Text × Console). next.1)) e (read_answer reads) in
      (h.answer, h.placed ∙ append_assoc s.chat_history _ (h.answer ∷ []), h.streamed)
