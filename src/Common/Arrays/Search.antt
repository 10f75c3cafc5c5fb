-- ===== src/Common/Arrays/Search.antt =====
-- What the methods of arrays find, and which elements a filter keeps.
use astiango_hub.Common.Arrays.{filter, find_index, find, next, get_elem?}
use astiango_hub.Common.Tests.{Bool-cases, Option-cases}
use astiango_hub.Common.Lists.{length, All}
use Prim.Native.Nat.{ℕ, suc, ◌<◌}
use mathlib.Core.Path.{◌≡◌, refl, sym, ap, ◌∙◌}
use mathlib.Core.Logic.{inl, inr}
use mathlib.Core.Bool.{Bool, true, false}
use mathlib.Core.Option.{none, some, some-injective}
use mathlib.Core.List.{List, [], ◌∷◌, ◌++◌}
use native.Mathlib.Omega.{arith}

module _ {ℓ} {A : Type ℓ} where
  -- The index that is found, its element, and what holds of it.
  pub find_index-found :
      (p : A → Bool) (xs : List A) {i : ℕ}
      → find_index p xs ≡ some i
      → (i < length xs) × ((x : A) × (get_elem? xs i ≡ some x) × (p x ≡ true))
  unfolding find_index get_elem?
  find_index-found p [] h = cc
  find_index-found p (x ∷ xs) {i} h = elim (Bool-cases (p x)) [
    | inl holds ↦ rw (← some-injective 0 i (rw holds at h)) (omega arith, (x, refl, holds))
    | inr fails ↦ elim (Option-cases (find_index p xs)) [
      | inl missing ↦ absurd (cc (rw (fails, missing) at h))
      | inr (j, at) ↦
          let (below, found) = find_index-found p xs at in
          rw (← some-injective (suc j) i (rw (fails, at) at h)) (omega (arith, below), found)
    ]
  ]

  pub find_index-none :
      (p : A → Bool) (xs : List A) → All (λ x. p x ≡ false) xs → find_index p xs ≡ none
  unfolding find_index
  find_index-none p [] h = refl
  find_index-none p (x ∷ xs) (here, h) = rw (here, find_index-none p xs h) refl

  pub find-last :
      (p : A → Bool) (xs : List A) (x : A)
      → All (λ y. p y ≡ false) xs
      → p x ≡ true
      → find p (xs ++ x ∷ []) ≡ some x
  unfolding find
  find-last p [] x h e = rw e refl
  find-last p (y ∷ ys) x (here, h) e = rw here (find-last p ys x h e)

-- What holds of the elements that the test accepts.
pub filter-All {ℓ κ} :
    {A : Type ℓ} {P : A → Type κ} (p : A → Bool) (xs : List A)
    → ((x : A) → p x ≡ true → P x)
    → All P (filter p xs)
unfolding filter
filter-All p [] h = tt
filter-All p (x ∷ xs) h = elim (Bool-cases (p x)) [
  | inl holds ↦ rw holds (h x holds, filter-All p xs h)
  | inr fails ↦ rw fails (filter-All p xs h)
]

-- What holds of every element, with the test that the elements which are left pass.
pub filter-adds {ℓ κ} :
    {A : Type ℓ} (P : A → Type κ) (p : A → Bool) (xs : List A)
    → All P xs
    → All (λ x. P x × (p x ≡ true)) (filter p xs)
unfolding filter
filter-adds P p [] h = tt
filter-adds P p (x ∷ xs) (here, h) = elim (Bool-cases (p x)) [
  | inl holds ↦ rw holds ((here, holds), filter-adds P p xs h)
  | inr fails ↦ rw fails (filter-adds P p xs h)
]

-- A test that no element passes.
pub filter-nil {ℓ} :
    {A : Type ℓ} (p : A → Bool) (xs : List A) → ((x : A) → p x ≡ false) → filter p xs ≡ []
unfolding filter
filter-nil p [] h = refl
filter-nil p (x ∷ xs) h = rw (h x, filter-nil p xs h) refl

module _ {ℓ} {A : Type ℓ} (p : A → Bool) where
  pub filter-append : (xs ys : List A) → filter p (xs ++ ys) ≡ filter p xs ++ filter p ys
  unfolding filter
  filter-append [] ys = refl
  filter-append (x ∷ xs) ys = elim (Bool-cases (p x)) [
    | inl holds ↦ rw (holds, filter-append xs ys) refl
    | inr fails ↦ rw (fails, filter-append xs ys) refl
  ]

  pub filter-accepts : (xs : List A) → All (λ x. p x ≡ true) xs → filter p xs ≡ xs
  unfolding filter
  filter-accepts [] h = refl
  filter-accepts (x ∷ xs) (here, h) = rw (here, filter-accepts xs h) refl

  pub filter-refuses : (xs : List A) → All (λ x. p x ≡ false) xs → filter p xs ≡ []
  unfolding filter
  filter-refuses [] h = refl
  filter-refuses (x ∷ xs) (here, h) = rw (here, filter-refuses xs h) refl

  pub find_index-here : (x : A) (xs : List A) → p x ≡ true → find_index p (x ∷ xs) ≡ some 0
  unfolding find_index
  find_index-here x xs h = rw h refl

  pub find_index-there :
      (x : A) (xs : List A) → p x ≡ false → find_index p (x ∷ xs) ≡ next (find_index p xs)
  unfolding find_index
  find_index-there x xs h = rw h refl

module _ {ℓ} {A : Type ℓ} (p q : A → Bool) (implies : (x : A) → p x ≡ true → q x ≡ true) where
  filter-filter : (xs : List A) → filter p (filter q xs) ≡ filter p xs
  unfolding filter
  filter-filter [] = refl
  filter-filter (x ∷ xs) = elim (Bool-cases (q x)) [
    | inl holds ↦ rw holds (elim (Bool-cases (p x)) [
      | inl too ↦ rw (too, filter-filter xs) refl
      | inr not_p ↦ rw (not_p, filter-filter xs) refl
    ])
    | inr fails ↦ elim (Bool-cases (p x)) [
      | inl too ↦ absurd (cc (implies x too, fails))
      | inr not_p ↦ rw (fails, not_p, filter-filter xs) refl
    ]
  ]

  -- What a test keeps of two lists of which a weaker test keeps the same.
  pub filter-kept : (xs ys : List A) → filter q ys ≡ filter q xs → filter p ys ≡ filter p xs
  filter-kept xs ys e = sym (filter-filter ys) ∙ ap (filter p) e ∙ filter-filter xs
