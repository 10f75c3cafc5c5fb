-- ===== src/Ui/Chat/Pieces.antt =====
-- How the reply is cut into pieces does not matter to `processStreamData` of
-- frontend/astiango-hub-ui/src/components/core/ai/useAssistantConsole.ts, unless it reports an error.
use mathlib.Core.List.{flatten}
use mathlib.Core.Path.{subst, ◌≡⟨◌⟩◌, ◌∎}
use astiango_hub.Common.{
  ℕ, ◌≡◌, refl, sym, ap, ◌∙◌, inl, inr, Bool-cases, false, Option, List, [], ◌∷◌, ◌++◌, map,
  append-nil, append_assoc, All, Text, newline, split, pop,
}
use astiango_hub.Common.Texts.Laws.{pop-split-append}
use astiango_hub.Ui.Menu.{starts_with}
use astiango_hub.Ui.Chat.{ChatbotStreamMessage, Console}
use astiango_hub.Ui.Chat.Stream.{
  Progress, going, finished, rejected, and_then, piece, StreamEvent, received, data_prefix,
  error_prefix, process_line, process_lines, process_piece, process_read, process_stream_data,
}

-- The lines that a text completes, and that none of them reports an error.
abbrev pub lines_of : Text → List Text
lines_of t = (pop (split newline t)).0

abbrev pub HasNoError : List Text → Type 0
HasNoError = All (λ line. starts_with line error_prefix ≡ false)

HasNoError-left : (xs ys : List Text) → HasNoError (xs ++ ys) → HasNoError xs
HasNoError-left [] ys h = tt
HasNoError-left (x ∷ xs) ys (here, h) = (here, HasNoError-left xs ys h)

HasNoError-right : (xs ys : List Text) → HasNoError (xs ++ ys) → HasNoError ys
HasNoError-right [] ys h = h
HasNoError-right (x ∷ xs) ys (here, h) = HasNoError-right xs ys h

-- The pieces of a reply.
abbrev pub pieces : List Text → List StreamEvent
pieces ts = map (λ t. received (piece t)) ts

and_then-ext :
    {A B : Type 0} {f g : A → Progress B} (p : Progress A)
    → ((a : A) → f a ≡ g a)
    → and_then p f ≡ and_then p g
and_then-ext (going a) h = h a
and_then-ext (finished s) h = refl
and_then-ext (rejected e s) h = refl

and_then_assoc :
    {A B C : Type 0} (p : Progress A) (f : A → Progress B) (g : B → Progress C)
    → and_then (and_then p f) g ≡ and_then p (λ a. and_then (f a) g)
and_then_assoc (going a) f g = refl
and_then_assoc (finished s) f g = refl
and_then_assoc (rejected e s) f g = refl

module _ (parse : Text → Option ChatbotStreamMessage) (extract : Text → Text) (i : ℕ) where
  -- Without errors a line is read by itself.
  line_alone :
      (lines : List Text) (line : Text) (s : Console)
      → starts_with line error_prefix ≡ false
      → process_line parse extract i lines line s ≡ process_line parse extract i [] line s
  unfolding process_line
  line_alone lines line s h = elim (Bool-cases (starts_with line data_prefix)) [
    | inl text ↦ rw text refl
    | inr other ↦ rw (other, h) refl
  ]

  lines_alone :
      (lines rest : List Text) (s : Console)
      → HasNoError rest
      → process_lines parse extract i lines rest s ≡ process_lines parse extract i [] rest s
  unfolding process_lines
  lines_alone lines [] s h = refl
  lines_alone lines (line ∷ rest) s (here, h) =
      ap (λ p. and_then p (process_lines parse extract i lines rest)) (line_alone lines line s here)
      ∙ and_then-ext (process_line parse extract i [] line s) (λ s'. lines_alone lines rest s' h)

  lines-append :
      (lines xs ys : List Text) (s : Console)
      → process_lines parse extract i lines (xs ++ ys) s
        ≡ and_then
            (process_lines parse extract i lines xs s)
            (process_lines parse extract i lines ys)
  unfolding process_lines
  lines-append lines [] ys s = refl
  lines-append lines (x ∷ xs) ys s =
      and_then-ext (process_line parse extract i lines x s) (lines-append lines xs ys)
      ∙ sym (and_then_assoc (process_line parse extract i lines x s) _ _)

  -- A piece without errors: each of its lines is read by itself.
  piece_alone :
      (t buffer : Text) (s : Console) (lines : List Text) (rest : Text)
      → pop (split newline (buffer ++ t)) ≡ (lines, rest)
      → HasNoError lines
      → process_piece parse extract i t buffer s
        ≡ and_then (process_lines parse extract i [] lines s) (λ s'. going (rest, s'))
  unfolding process_piece
  piece_alone t buffer s lines rest e h =
      rw e (ap (λ p. and_then p (λ s'. going (rest, s'))) (lines_alone lines lines s h))

  -- Two pieces that follow each other are read as one.
  piece-append :
      (t u buffer : Text) (s : Console)
      → HasNoError (lines_of (buffer ++ (t ++ u)))
      → process_piece parse extract i (t ++ u) buffer s
        ≡ and_then
            (process_piece parse extract i t buffer s)
            (λ next. process_piece parse extract i u next.0 next.1)
  piece-append t u buffer s h =
      let b = pop (split newline (buffer ++ t)) in
      let a = pop (split newline (b.1 ++ u)) in
      let read = λ (xs : List Text) (s' : Console). process_lines parse extract i [] xs s' in
      let e : pop (split newline (buffer ++ (t ++ u))) ≡ (b.0 ++ a.0, a.1) =
        ap (λ w. pop (split newline w)) (sym (append_assoc buffer t u))
        ∙ pop-split-append newline (buffer ++ t) u in
      let ok = subst HasNoError (ap (λ p. p.0) e) h in
      process_piece parse extract i (t ++ u) buffer s
      ≡⟨ piece_alone (t ++ u) buffer s (b.0 ++ a.0) a.1 e ok ⟩
        and_then (read (b.0 ++ a.0) s) (λ s'. going (a.1, s'))
      ≡⟨ ap (λ p. and_then p (λ s'. going (a.1, s'))) (lines-append [] b.0 a.0 s) ⟩
        and_then (and_then (read b.0 s) (read a.0)) (λ s'. going (a.1, s'))
      ≡⟨ and_then_assoc (read b.0 s) (read a.0) _ ⟩
        and_then (read b.0 s) (λ s'. and_then (read a.0 s') (λ s''. going (a.1, s'')))
      ≡⟨ and_then-ext (read b.0 s)
          (λ s'. sym (piece_alone u b.1 s' a.0 a.1 refl (HasNoError-right b.0 a.0 ok))) ⟩
        and_then (read b.0 s) (λ s'. process_piece parse extract i u b.1 s')
      ≡⟨ sym (and_then_assoc (read b.0 s) (λ s'. going (b.1, s')) _) ⟩
        and_then (and_then (read b.0 s) (λ s'. going (b.1, s')))
          (λ next. process_piece parse extract i u next.0 next.1)
      ≡⟨ ap (λ p. and_then p (λ next. process_piece parse extract i u next.0 next.1))
          (sym (piece_alone t buffer s b.0 b.1 refl (HasNoError-left b.0 a.0 ok))) ⟩
        and_then (process_piece parse extract i t buffer s)
          (λ next. process_piece parse extract i u next.0 next.1) ∎

  two_pieces :
      (t u : Text) (events : List StreamEvent) (buffer : Text) (s : Console)
      → HasNoError (lines_of (buffer ++ (t ++ u)))
      → process_stream_data parse extract i
          (received (piece t) ∷ received (piece u) ∷ events)
          buffer
          s
        ≡ process_stream_data parse extract i (received (piece (t ++ u)) ∷ events) buffer s
  unfolding process_stream_data process_read
  two_pieces t u events buffer s h =
      let rest =
        λ (next : Text × Console). process_stream_data parse extract i events next.0 next.1 in
      sym (
        ap (λ p. and_then p rest) (piece-append t u buffer s h)
        ∙ and_then_assoc (process_piece parse extract i t buffer s) _ rest)

  HasNoError-shorter : (t u : Text) → HasNoError (lines_of (t ++ u)) → HasNoError (lines_of t)
  HasNoError-shorter t u h =
      HasNoError-left (lines_of t) _
        (subst HasNoError (ap (λ p. p.0) (pop-split-append newline t u)) h)

  -- A reply without lines that report an error is read in the same way however it is cut into
  -- pieces, whatever happens after the last of them.
  pub process_stream_data-pieces :
      (t : Text) (ts : List Text) (events : List StreamEvent) (buffer : Text) (s : Console)
      → HasNoError (lines_of (buffer ++ flatten (t ∷ ts)))
      → process_stream_data parse extract i (pieces (t ∷ ts) ++ events) buffer s
        ≡ process_stream_data parse extract i
            (received (piece (flatten (t ∷ ts))) ∷ events)
            buffer
            s
  unfolding flatten
  process_stream_data-pieces t [] events buffer s h = rw (append-nil t) refl
  process_stream_data-pieces t (u ∷ ts) events buffer s h =
      let whole : HasNoError (lines_of (buffer ++ flatten ((t ++ u) ∷ ts))) =
        subst (λ w. HasNoError (lines_of (buffer ++ w))) (sym (append_assoc t u (flatten ts))) h in
      let start : HasNoError (lines_of (buffer ++ (t ++ u))) =
        HasNoError-shorter (buffer ++ (t ++ u)) (flatten ts) (
          subst (λ w. HasNoError (lines_of w)) (sym (append_assoc buffer (t ++ u) (flatten ts)))
            whole) in
      two_pieces t u (pieces ts ++ events) buffer s start
      ∙ process_stream_data-pieces (t ++ u) ts events buffer s whole
      ∙ ap (λ w. process_stream_data parse extract i (received (piece w) ∷ events) buffer s)
          (append_assoc t u (flatten ts))
