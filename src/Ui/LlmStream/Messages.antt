-- ===== src/Ui/LlmStream/Messages.antt =====
-- The loop of frontend/astiango-hub-ui/src/services/llm/index.ts that takes messages off its buffer
-- ends, with the messages of the text by an independent description.
use astiango_hub.Common.{
  ℕ, zero, suc, ◌+◌, ◌≤◌, ◌<◌, ◌≡◌, refl, sym, ap, ◌∙◌, ◌⊎◌, inl, inr, true, false, Bool-cases,
  none, some, Option-cases, List, [], ◌∷◌, ◌++◌, length, arith, Text, take, drop, if◌then◌else◌,
}
use mathlib.Core.Option.{some-injective}
use mathlib.Core.Path.{subst}
use astiango_hub.Common.Texts.Laws.{length-drop}
use astiango_hub.Ui.Menu.{starts_with}
use astiango_hub.Ui.LlmStream.{index_of, delimiter, take_messages}

abbrev push : ℕ → List Text × Text → List Text × Text
push x ([], rest) = ([], x ∷ rest)
push x (m ∷ ms, rest) = ((x ∷ m) ∷ ms, rest)

abbrev begin_next : List Text × Text → List Text × Text
begin_next (ms, rest) = ([] ∷ ms, rest)

-- The messages that two newlines end, and the text behind the last of them.
unfoldable pub messages_of : Text → List Text × Text
messages_of [] = ([], [])
messages_of (x ∷ []) = ([], x ∷ [])
messages_of (x ∷ y ∷ s) =
    let after = begin_next (messages_of s) in
    let more = push x (messages_of (y ∷ s)) in
    if starts_with (x ∷ y ∷ s) delimiter then after else more

index_of-one : (x : ℕ) → index_of (x ∷ []) ≡ none
unfolding index_of starts_with
index_of-one x = ground arith

-- Where no delimiter is found there is no message, and else the first message is what stands before it.
pub index_of-none : (s : Text) → index_of s ≡ none → messages_of s ≡ ([], s)
unfolding index_of messages_of
index_of-none [] h = refl
index_of-none (x ∷ []) h = refl
index_of-none (x ∷ y ∷ s) h = elim (Bool-cases (starts_with (x ∷ y ∷ s) delimiter)) [
  | inl here ↦ absurd (cc (rw here at h))
  | inr later ↦ elim (Option-cases (index_of (y ∷ s))) [
    | inl missing ↦ rw (later, index_of-none (y ∷ s) missing) refl
    | inr (j, at) ↦ absurd (cc (rw (later, at) at h))
  ]
]

-- What the first delimiter, at `i`, says of the messages.
abbrev Starts : ℕ → Text → Type 0
Starts i s =
    (i + 2 ≤ length s)
    × (messages_of s
        ≡ (take i s ∷ (messages_of (drop (i + 2) s)).0, (messages_of (drop (i + 2) s)).1))

Starts-push :
    (x y : ℕ) (s : Text) (j : ℕ)
    → starts_with (x ∷ y ∷ s) delimiter ≡ false
    → Starts j (y ∷ s)
    → Starts (suc j) (x ∷ y ∷ s)
unfolding messages_of take drop
Starts-push x y s j later (short, e) =
    let shift : suc j + 2 ≡ suc (j + 2) = omega arith in (omega arith, rw (later, e, shift) refl)

Starts-here : (x y : ℕ) (s : Text) → starts_with (x ∷ y ∷ s) delimiter ≡ true → Starts 0 (x ∷ y ∷ s)
unfolding messages_of take drop
Starts-here x y s here = (omega arith, rw here refl)

index_of-some : (s : Text) (i : ℕ) → index_of s ≡ some i → Starts i s
unfolding index_of messages_of
index_of-some [] i h = cc
index_of-some (x ∷ []) i h = absurd (cc (index_of-one x))
index_of-some (x ∷ y ∷ s) i h = elim (Bool-cases (starts_with (x ∷ y ∷ s) delimiter)) [
  | inl here ↦
      subst (λ k. Starts k (x ∷ y ∷ s)) (some-injective 0 i (rw here at h)) (Starts-here x y s here)
  | inr later ↦ elim (Option-cases (index_of (y ∷ s))) [
    | inl missing ↦ absurd (cc (rw (later, missing) at h))
    | inr (j, at) ↦
        subst (λ k. Starts k (x ∷ y ∷ s)) (some-injective (suc j) i (rw (later, at) at h))
          (Starts-push x y s j later (index_of-some (y ∷ s) j at))
  ]
]

-- The loop ends within as many rounds as the buffer is long, and one more, with the messages of the
-- buffer and the text behind the last of them, in which no delimiter is left.
pub take_messages_lem :
    (fuel : ℕ) (buffer : Text)
    → length buffer < fuel
    → (take_messages fuel buffer ≡ some (messages_of buffer))
      × (index_of (messages_of buffer).1 ≡ none)
unfolding take_messages
take_messages_lem zero buffer h = absurd (omega arith)
take_messages_lem (suc fuel) buffer h = elim (Option-cases (index_of buffer)) [
  | inl missing ↦ rw (missing, index_of-none buffer missing) (refl, missing)
  | inr (i, at) ↦
      let (short, e) = index_of-some buffer i at in
      let (ends, left) =
        take_messages_lem fuel (drop (i + 2) buffer)
          (omega (arith, length-drop (i + 2) buffer short)) in
      rw (at, ends, e) (refl, left)
]

-- No message: the text is what is left.
rest_of_none : (s : Text) → (messages_of s).0 ≡ [] → (messages_of s).1 ≡ s
rest_of_none s h = elim (Option-cases (index_of s)) [
  | inl missing ↦ ap (λ p. p.1) (index_of-none s missing)
  | inr (i, at) ↦ absurd (cc (sym h ∙ ap (λ p. p.0) (index_of-some s i at).1))
]

same_break :
    (x y : ℕ) (s t : Text)
    → starts_with (x ∷ y ∷ (s ++ t)) delimiter ≡ starts_with (x ∷ y ∷ s) delimiter
unfolding starts_with
same_break x y s t = refl

whole :
    (x y : ℕ) (s : Text)
    → starts_with (x ∷ y ∷ s) delimiter ≡ false
    → messages_of (x ∷ y ∷ s) ≡ push x (messages_of (y ∷ s))
unfolding messages_of
whole x y s later = rw later refl

parts :
    (p : List Text × Text) → (p.0 ≡ []) ⊎ ((m : Text) × ((ms : List Text) × (p ≡ (m ∷ ms, p.1))))
parts ([], rest) = inl refl
parts (m ∷ ms, rest) = inr (m, (ms, refl))

-- `p` is what a text is taken apart into before it goes on with `t`.
abbrev Continues : Text → Text → List Text × Text → Type 0
Continues s t p =
    messages_of (s ++ t) ≡ (p.0 ++ (messages_of (p.1 ++ t)).0, (messages_of (p.1 ++ t)).1)

-- The messages of a text that goes on.
pub messages_of-append :
    (s t : Text)
    → let (ms, rest) = messages_of s in
      let (more, end) = messages_of (rest ++ t) in messages_of (s ++ t) ≡ (ms ++ more, end)
unfolding messages_of
messages_of-append [] t = refl
messages_of-append (x ∷ []) t = refl
messages_of-append (x ∷ y ∷ s) t = elim (Bool-cases (starts_with (x ∷ y ∷ s) delimiter)) [
  | inl here ↦ rw (same_break x y s t, here, messages_of-append s t) refl
  | inr later ↦ elim (parts (messages_of (y ∷ s))) [
    | inl no_message ↦
        let rest = rest_of_none (y ∷ s) no_message in
        let e : messages_of (y ∷ s) ≡ ([], y ∷ s) = cc in
        subst (Continues (x ∷ y ∷ s) t) (sym (whole x y s later ∙ ap (push x) e)) refl
    | inr (m, (ms, e)) ↦
        let r = (messages_of (y ∷ s)).1 in
        let next = subst (Continues (y ∷ s) t) e (messages_of-append (y ∷ s) t) in
        subst (Continues (x ∷ y ∷ s) t) (sym (whole x y s later ∙ ap (push x) e))
          (rw (same_break x y s t, later) (ap (push x) next))
  ]
]
