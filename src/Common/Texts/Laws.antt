-- ===== src/Common/Texts/Laws.antt =====
-- How a text that grows is split.
use astiango_hub.Common.Texts.{Text, eq_text, drop, cons_head, split, pop}
use astiango_hub.Common.Tests.{◌==◌, Bool-cases}
use astiango_hub.Common.Lists.{length, All}
use Prim.Native.Nat.{ℕ, zero, suc, ◌+◌, ◌≤◌}
use native.Mathlib.Omega.{arith}
use mathlib.Core.Path.{◌≡◌, refl, sym, ap, ◌∙◌}
use mathlib.Core.Logic.{◌↔◌, inl, inr}
use mathlib.Core.Bool.{true, false}
use mathlib.Core.List.{List, [], ◌∷◌, ◌++◌}

-- The parts of a text are never none.
pub split-IsSome : (c : ℕ) (s : Text) → (l : Text) × ((rest : List Text) × (split c s ≡ l ∷ rest))
unfolding split
split-IsSome c [] = ([], ([], refl))
split-IsSome c (x ∷ s) = elim (Bool-cases (x == c)) [
  | inl here ↦ rw here ([], (split c s, refl))
  | inr other ↦ let (l, (rest, e)) = split-IsSome c s in rw (other, e) (x ∷ l, (rest, refl))
]

-- A code unit in front of a text, once the rest is split.
grown :
    (c x : ℕ) (s t l : Text) (rest : List Text)
    → (x == c) ≡ false
    → split c (s ++ t) ≡ (pop (l ∷ rest)).0 ++ split c ((pop (l ∷ rest)).1 ++ t)
    → cons_head x (split c (s ++ t))
      ≡ (pop ((x ∷ l) ∷ rest)).0 ++ split c ((pop ((x ∷ l) ∷ rest)).1 ++ t)
unfolding split pop
grown c x s t l [] other ih = rw (other, ih) refl
grown c x s t l (m ∷ rest) other ih = rw ih refl

-- The parts of a longer text: those that are complete, and those of the last part with what follows.
pub split-append :
    (c : ℕ) (s t : Text)
    → split c (s ++ t) ≡ (pop (split c s)).0 ++ split c ((pop (split c s)).1 ++ t)
unfolding split pop
split-append c [] t = refl
split-append c (x ∷ s) t =
    let (l, (rest, e)) = split-IsSome c s in
    elim (Bool-cases (x == c)) [
      | inl here ↦ rw (here, e, rw e at (split-append c s t)) refl
      | inr other ↦ rw (other, e) (grown c x s t l rest other (rw e at (split-append c s t)))
    ]

pub pop-append :
    (ls : List Text) (l : Text) (rest : List Text)
    → pop (ls ++ l ∷ rest) ≡ (ls ++ (pop (l ∷ rest)).0, (pop (l ∷ rest)).1)
unfolding pop
pop-append [] l rest = refl
pop-append (m ∷ []) l rest = refl
pop-append (m ∷ n ∷ ls) l rest = rw (pop-append (n ∷ ls) l rest) refl

-- Splitting a text at once, or its last part with what follows later.
pub pop-split-append :
    (c : ℕ) (s t : Text)
    → let (before, last) = pop (split c s) in
      let (after, end) = pop (split c (last ++ t)) in
      pop (split c (s ++ t)) ≡ (before ++ after, end)
pop-split-append c s t =
    let (l, (rest, e)) = split-IsSome c ((pop (split c s)).1 ++ t) in
    rw (split-append c s t, e) (pop-append (pop (split c s)).0 l rest)

eq_text_sound : (s t : Text) → eq_text s t ≡ true → s ≡ t
unfolding eq_text
eq_text_sound [] [] h = refl
eq_text_sound [] (y ∷ t) h = cc
eq_text_sound (x ∷ s) [] h = cc
eq_text_sound (x ∷ s) (y ∷ t) h = ground (arith, eq_text_sound s t)

pub eq_text_refl : (s : Text) → eq_text s s ≡ true
unfolding eq_text
eq_text_refl [] = refl
eq_text_refl (x ∷ s) = ground (arith, eq_text_refl s)

pub eq_text_iff : (s t : Text) → (eq_text s t ≡ true) ↔ (s ≡ t)
eq_text_iff s t = (eq_text_sound s t, λ e. ap (eq_text s) (sym e) ∙ eq_text_refl s)

-- A line and the text that follows it.
pub split-line :
    (c : ℕ) (line t : Text)
    → All (λ x. (x == c) ≡ false) line
    → split c (line ++ c ∷ t) ≡ line ∷ split c t
unfolding split
split-line c [] t h = ground arith
split-line c (x ∷ line) t (here, h) = rw (here, split-line c line t h) refl

pub length-drop : (n : ℕ) (s : Text) → n ≤ length s → length (drop n s) + n ≡ length s
unfolding drop
length-drop zero s h = omega arith
length-drop (suc n) [] h = absurd (omega arith)
length-drop (suc n) (x ∷ s) h = omega (arith, length-drop n s (omega arith))
