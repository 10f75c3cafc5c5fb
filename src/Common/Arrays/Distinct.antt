-- ===== src/Common/Arrays/Distinct.antt =====
-- What holds of every element of a list, and lists in which no element stands twice, at an append.
use astiango_hub.Common.Lists.{All, Distinct}
use mathlib.Core.Path.{sym}
use mathlib.Core.Logic.{◌≢◌}
use mathlib.Core.List.{List, [], ◌∷◌, ◌++◌}

module _ {ℓ} {A : Type ℓ} where
  pub Distinct-right : (xs ys : List A) → Distinct (xs ++ ys) → Distinct ys
  Distinct-right [] ys h = h
  Distinct-right (x ∷ xs) ys (_, h) = Distinct-right xs ys h

  pub All-left : (P : A → Type ℓ) (xs ys : List A) → All P (xs ++ ys) → All P xs
  All-left P [] ys h = tt
  All-left P (x ∷ xs) ys (here, h) = (here, All-left P xs ys h)

  pub All-right : (P : A → Type ℓ) (xs ys : List A) → All P (xs ++ ys) → All P ys
  All-right P [] ys h = h
  All-right P (x ∷ xs) ys (here, h) = All-right P xs ys h

  pub Distinct-left : (xs ys : List A) → Distinct (xs ++ ys) → Distinct xs
  Distinct-left [] ys h = tt
  Distinct-left (x ∷ xs) ys (n, h) = (All-left _ xs ys n, Distinct-left xs ys h)

  -- No element of the first list stands in the second.
  pub Distinct-across : (xs ys : List A) → Distinct (xs ++ ys) → All (λ x. All (λ y. x ≢ y) ys) xs
  Distinct-across [] ys h = tt
  Distinct-across (x ∷ xs) ys (n, h) = (All-right _ xs ys n, Distinct-across xs ys h)

  pub All-both : (P Q : A → Type ℓ) (xs : List A) → All P xs → All Q xs → All (λ x. P x × Q x) xs
  All-both P Q [] h h' = tt
  All-both P Q (x ∷ xs) (e, h) (e', h') = ((e, e'), All-both P Q xs h h')

  All-flip-one :
      (y : A) (xs ys : List A) → All (λ x. All (λ z. x ≢ z) (y ∷ ys)) xs → All (λ x. y ≢ x) xs
  All-flip-one y [] ys h = tt
  All-flip-one y (x ∷ xs) ys ((n, _), h) = ((λ e. n (sym e)), All-flip-one y xs ys h)

  All-rest :
      (y : A) (xs ys : List A)
      → All (λ x. All (λ z. x ≢ z) (y ∷ ys)) xs
      → All (λ x. All (λ z. x ≢ z) ys) xs
  All-rest y [] ys h = tt
  All-rest y (x ∷ xs) ys ((_, n), h) = (n, All-rest y xs ys h)

  -- Two lists with no element in common, seen from the second one.
  pub All-flip :
      (xs ys : List A) → All (λ x. All (λ y. x ≢ y) ys) xs → All (λ y. All (λ x. y ≢ x) xs) ys
  All-flip xs [] h = tt
  All-flip xs (y ∷ ys) h = (All-flip-one y xs ys h, All-flip xs ys (All-rest y xs ys h))
