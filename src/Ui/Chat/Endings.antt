-- ===== src/Ui/Chat/Endings.antt =====
-- How `sendMessage` of frontend/astiango-hub-ui/src/components/core/ai/AssistantConsole.vue ends.
use astiango_hub.Common.{
  ℕ, ◌≡◌, refl, false, Option, none, Option-cases, inl, inr, List, [], ◌∷◌, ◌++◌, Text, eq_text,
  trim,
}
use astiango_hub.Ui.Chat.{ChatbotStreamMessage, Console}
use astiango_hub.Ui.Chat.Stream.{
  Thrown, Progress, going, finished, rejected, and_then, StreamEvent, received, meanwhile, done,
  process_read, process_stream_data,
}
use astiango_hub.Ui.Chat.Messages.{
  ChatRequest, Fetched, streaming, refused, unreachable, Ending, ended, ending, create_chat_request,
  read_reply, begin_message, end_message, send_streaming_request, send_message,
}

abbrev HasEnded : Ending → Type 0
HasEnded e = (o : Option Thrown) × (s : Console) × (e ≡ ended o s)

-- The reply is refused, or its body is read up to its end.
abbrev pub IsOver : Fetched → Type 0
IsOver (streaming events) =
    (earlier : List StreamEvent) × (later : List StreamEvent) × (events
      ≡ earlier ++ received done ∷ later)
IsOver (refused message) = Unit
IsOver (unreachable e) = Unit

ending-and_then :
    (p : Progress (Text × Console)) (f : Text × Console → Progress (Text × Console))
    → ((next : Text × Console) → HasEnded (ending (f next)))
    → HasEnded (ending (and_then p f))
ending-and_then (going next) f h = h next
ending-and_then (finished s) f h = (none, s, refl)
ending-and_then (rejected e s) f h = (_, s, refl)

module _ (parse : Text → Option ChatbotStreamMessage) (extract : Text → Text) where
  stream-HasEnded :
      (i : ℕ) (earlier later : List StreamEvent) (buffer : Text) (s : Console)
      → HasEnded
          (ending (process_stream_data parse extract i (earlier ++ received done ∷ later) buffer s))
  unfolding process_stream_data process_read
  stream-HasEnded i [] later buffer s = (none, _, refl)
  stream-HasEnded i (meanwhile f ∷ earlier) later buffer s =
      stream-HasEnded i earlier later buffer (f s)
  stream-HasEnded i (received r ∷ earlier) later buffer s =
      ending-and_then (process_read parse extract i r buffer s) _
        (λ next. stream-HasEnded i earlier later next.0 next.1)

  reply-HasEnded :
      (f : Fetched) (i : ℕ) (s : Console) → IsOver f → HasEnded (read_reply parse extract f i s)
  reply-HasEnded (streaming events) i s (earlier, later, e) =
      rw e (stream-HasEnded i earlier later [] s)
  reply-HasEnded (refused m) i s h = (_, s, refl)
  reply-HasEnded (unreachable e) i s h = (_, s, refl)

  request-HasEnded :
      (message : Text) (i : ℕ) (fetch : ChatRequest → Fetched) (s : Console)
      → ((r : ChatRequest) → IsOver (fetch r))
      → HasEnded (send_streaming_request parse extract message i fetch s)
  unfolding send_streaming_request
  request-HasEnded message i fetch s over = elim (Option-cases (create_chat_request message s)) [
    | inl none_made ↦ rw none_made (_, s, refl)
    | inr (r, made) ↦ rw made (reply-HasEnded (fetch r) i s (over r))
  ]

  -- Sending a message that is not blank ends, with nothing generated and nothing to abort, whatever the
  -- hub sends and whatever is thrown, if each reply is read to its end or is not read at all.
  pub send_message-idle :
      (message : Text) (now : ℕ) (fetch : ChatRequest → Fetched) (s : Console)
      → eq_text (trim message) [] ≡ false
      → ((r : ChatRequest) → IsOver (fetch r))
      → (s' : Console) × (send_message parse extract message now fetch s ≡ ended none s')
        × (s'.is_generating ≡ false)
        × (s'.has_abort_controller ≡ false)
  unfolding send_message
  send_message-idle message now fetch s filled over =
      let (i, s1) = begin_message message now s in
      let (o, s2, e) = request-HasEnded message i fetch s1 over in
      rw (filled, e) (end_message extract o i s2, refl, refl, refl)
