-- ===== src/Ui/LlmStream/Laws.antt =====
-- How a reply is cut into pieces does not matter to frontend/astiango-hub-ui/src/services/llm/index.ts.
use mathlib.Core.List.{flatten}
use astiango_hub.Common.{
  suc, ◌≡◌, refl, sym, ap, ◌∙◌, Option, none, List, [], ◌∷◌, ◌++◌, map, append-nil, append_assoc,
  arith, length, Text, newline, split,
}
use astiango_hub.Ui.Chat.Stream.{Read, piece}
use astiango_hub.Ui.LlmStream.{index_of, callbacks, lines_callbacks, process_stream}
use astiango_hub.Ui.LlmStream.Messages.{
  messages_of, index_of-none, take_messages_lem, messages_of-append,
}

module _ {C : Type 0} (parse : Text → Option C) where
  callbacks-append :
      (ms more : List Text)
      → callbacks parse (ms ++ more) ≡ callbacks parse ms ++ callbacks parse more
  unfolding callbacks
  callbacks-append [] more = refl
  callbacks-append (m ∷ ms) more =
      let here = lines_callbacks parse (split newline m) in
      ap (λ l. here ++ l) (callbacks-append ms more)
      ∙ sym (append_assoc here (callbacks parse ms) (callbacks parse more))

  -- However a text is cut into pieces, they lead to the callbacks of its messages, each of them once
  -- and in their order; the reads that follow find the text behind the last message in the buffer, if
  -- the buffer had no delimiter at the beginning.
  pub process_stream-pieces :
      (ts : List Text) (reads : List Read) (buffer : Text)
      → index_of buffer ≡ none
      → process_stream parse (map piece ts ++ reads) buffer
        ≡ callbacks parse (messages_of (buffer ++ flatten ts)).0
          ++ process_stream parse reads (messages_of (buffer ++ flatten ts)).1
  unfolding process_stream callbacks flatten
  process_stream-pieces [] reads buffer clean =
      rw (append-nil buffer, index_of-none buffer clean) refl
  process_stream-pieces (t ∷ ts) reads buffer clean =
      let (taken, left) =
        take_messages_lem (suc (length (buffer ++ t))) (buffer ++ t) (omega arith) in
      let now = messages_of (buffer ++ t) in
      let e =
        ap messages_of (sym (append_assoc buffer t (flatten ts)))
        ∙ messages_of-append (buffer ++ t) (flatten ts) in
      rw
        (
          taken,
          e,
          callbacks-append now.0 (messages_of (now.1 ++ flatten ts)).0,
          append_assoc (callbacks parse now.0)
              (callbacks parse (messages_of (now.1 ++ flatten ts)).0)
              (process_stream parse reads (messages_of (now.1 ++ flatten ts)).1),
        )
        (ap (λ l. callbacks parse now.0 ++ l) (process_stream-pieces ts reads now.1 left))
