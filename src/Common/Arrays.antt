-- ===== src/Common/Arrays.antt =====
-- The methods of JavaScript arrays that the source calls: `findIndex`, `indexOf`, `splice`, and the
-- assignment to an element.
pub mod Laws
pub mod Search
pub mod Behind
pub mod Distinct
use astiango_hub.Common.Tests.{if◌then◌else◌}
use Prim.Native.Nat.{ℕ, zero, suc}
use mathlib.Core.Bool.{Bool}
use mathlib.Core.Option.{Option, none, some}
use mathlib.Core.List.{List, [], ◌∷◌}

abbrev pub next : Option ℕ → Option ℕ
next none = none
next (some i) = some (suc i)

module _ {ℓ} {A : Type ℓ} where
  -- `xs.findIndex(p)`; `none` stands for -1.
  unfoldable pub find_index : (A → Bool) → List A → Option ℕ
  find_index p [] = none
  find_index p (x ∷ xs) = if p x then some 0 else next (find_index p xs)

  -- `xs.find(p)`
  unfoldable pub find : (A → Bool) → List A → Option A
  find p [] = none
  find p (x ∷ xs) = if p x then some x else find p xs

  -- `xs.filter(p)`
  unfoldable pub filter : (A → Bool) → List A → List A
  filter p [] = []
  filter p (x ∷ xs) = let rest = filter p xs in if p x then x ∷ rest else rest

  -- `xs[i]`
  unfoldable pub get_elem? : List A → ℕ → Option A
  get_elem? [] i = none
  get_elem? (x ∷ xs) zero = some x
  get_elem? (x ∷ xs) (suc i) = get_elem? xs i

  -- `xs.splice(i, 1)`
  unfoldable pub remove_at : ℕ → List A → List A
  remove_at i [] = []
  remove_at zero (x ∷ xs) = xs
  remove_at (suc i) (x ∷ xs) = x ∷ remove_at i xs

  -- `xs.splice(i, 0, x)`, which appends where `i` is beyond the end.
  unfoldable pub insert_at : ℕ → A → List A → List A
  insert_at zero x xs = x ∷ xs
  insert_at (suc i) x [] = x ∷ []
  insert_at (suc i) x (y ∷ ys) = y ∷ insert_at i x ys

  -- `xs[i] = x`, for an index of the array.
  unfoldable pub set_at : ℕ → A → List A → List A
  set_at i x [] = []
  set_at zero x (y ∷ ys) = x ∷ ys
  set_at (suc i) x (y ∷ ys) = y ∷ set_at i x ys

  -- The element at an index of the array, changed in its place.
  unfoldable pub modify_at : ℕ → (A → A) → List A → List A
  modify_at i f [] = []
  modify_at zero f (y ∷ ys) = f y ∷ ys
  modify_at (suc i) f (y ∷ ys) = y ∷ modify_at i f ys
