-- ===== src/Common/Arrays/Behind.antt =====
-- The methods of arrays at the element behind a list.
use astiango_hub.Common.Arrays.{get_elem?, modify_at, remove_at, find_index}
use astiango_hub.Common.Lists.{length, All}
use mathlib.Core.Path.{◌≡◌, refl, ap}
use mathlib.Core.Bool.{Bool, true, false}
use mathlib.Core.Option.{some}
use mathlib.Core.List.{List, [], ◌∷◌, ◌++◌}

module _ {ℓ} {A : Type ℓ} where
  pub get_elem?-behind :
      (xs : List A) (x : A) (ys : List A) → get_elem? (xs ++ x ∷ ys) (length xs) ≡ some x
  unfolding get_elem?
  get_elem?-behind [] x ys = refl
  get_elem?-behind (y ∷ xs) x ys = get_elem?-behind xs x ys

  pub modify_at-behind :
      (f : A → A) (xs : List A) (x : A) (ys : List A)
      → modify_at (length xs) f (xs ++ x ∷ ys) ≡ xs ++ f x ∷ ys
  unfolding modify_at
  modify_at-behind f [] x ys = refl
  modify_at-behind f (y ∷ xs) x ys = ap (λ l. y ∷ l) (modify_at-behind f xs x ys)

  pub remove_at-behind :
      (xs : List A) (x : A) (ys : List A) → remove_at (length xs) (xs ++ x ∷ ys) ≡ xs ++ ys
  unfolding remove_at
  remove_at-behind [] x ys = refl
  remove_at-behind (y ∷ xs) x ys = ap (λ l. y ∷ l) (remove_at-behind xs x ys)

  pub remove_at-beyond : (xs : List A) → remove_at (length xs) xs ≡ xs
  unfolding remove_at
  remove_at-beyond [] = refl
  remove_at-beyond (y ∷ xs) = ap (λ l. y ∷ l) (remove_at-beyond xs)

  pub find_index-behind :
      (p : A → Bool) (xs : List A) (x : A) (ys : List A)
      → All (λ y. p y ≡ false) xs
      → p x ≡ true
      → find_index p (xs ++ x ∷ ys) ≡ some (length xs)
  unfolding find_index
  find_index-behind p [] x ys h e = rw e refl
  find_index-behind p (y ∷ xs) x ys (here, h) e = rw (here, find_index-behind p xs x ys h e) refl
