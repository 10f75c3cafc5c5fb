-- ===== src/Common/Arrays/Laws.antt =====
-- Where the methods of arrays put elements, and which elements they keep.
use astiango_hub.Common.Arrays.{get_elem?, remove_at, insert_at, set_at}
use astiango_hub.Common.Lists.{length, All, All-append, All-mono, Distinct}
use Prim.Native.Nat.{ℕ, zero, suc, ◌+◌, ◌≤◌, ◌<◌}
use mathlib.Core.Path.{◌≡◌, refl, sym, ap, subst, ◌∙◌}
use mathlib.Core.Logic.{◌≢◌}
use mathlib.Core.Option.{some, some-injective}
use mathlib.Core.List.{List, [], ◌∷◌, ◌++◌, map, Perm}
use mathlib.Core.List.Perm
use native.Mathlib.Omega.{arith}

module _ {ℓ} {A : Type ℓ} where
  pub remove_at-perm :
      (i : ℕ) (xs : List A) {x : A} → get_elem? xs i ≡ some x → Perm (x ∷ remove_at i xs) xs
  unfolding get_elem? remove_at
  remove_at-perm i [] h = cc
  remove_at-perm zero (y ∷ ys) {x} h =
      subst (λ z. Perm (z ∷ ys) (y ∷ ys)) (some-injective y x h) (Perm.refl _)
  remove_at-perm (suc i) (y ∷ ys) {x} h =
      Perm.trans (Perm.swap y x _) (Perm.cons y (remove_at-perm i ys h))

  pub insert_at-perm : (i : ℕ) (x : A) (xs : List A) → Perm (insert_at i x xs) (x ∷ xs)
  unfolding insert_at
  insert_at-perm zero x xs = Perm.refl _
  insert_at-perm (suc i) x [] = Perm.refl _
  insert_at-perm (suc i) x (y ∷ ys) =
      Perm.trans (Perm.cons y (insert_at-perm i x ys)) (Perm.swap x y ys)

  pub get_elem?-insert_at :
      (i : ℕ) (x : A) (xs : List A) → i ≤ length xs → get_elem? (insert_at i x xs) i ≡ some x
  unfolding insert_at get_elem?
  get_elem?-insert_at zero x xs h = refl
  get_elem?-insert_at (suc i) x [] h = absurd (omega arith)
  get_elem?-insert_at (suc i) x (y ∷ ys) h = get_elem?-insert_at i x ys (omega arith)

  pub remove_at-insert_at :
      (i : ℕ) (x : A) (xs : List A) → i ≤ length xs → remove_at i (insert_at i x xs) ≡ xs
  unfolding insert_at remove_at
  remove_at-insert_at zero x xs h = refl
  remove_at-insert_at (suc i) x [] h = absurd (omega arith)
  remove_at-insert_at (suc i) x (y ∷ ys) h =
      ap (λ l. y ∷ l) (remove_at-insert_at i x ys (omega arith))

  pub length-remove_at :
      (i : ℕ) (xs : List A) → i < length xs → suc (length (remove_at i xs)) ≡ length xs
  unfolding remove_at
  length-remove_at i [] h = absurd (omega arith)
  length-remove_at zero (x ∷ xs) h = refl
  length-remove_at (suc i) (x ∷ xs) h = omega (arith, length-remove_at i xs)

-- What holds of every element holds of the one at an index.
pub All-at {ℓ κ} :
    {A : Type ℓ} (i : ℕ) (P : A → Type κ) (xs : List A) {x : A}
    → All P xs
    → get_elem? xs i ≡ some x
    → P x
unfolding get_elem?
All-at i P [] h e = cc
All-at zero P (y ∷ ys) (p, h) e = subst P (some-injective _ _ e) p
All-at (suc i) P (y ∷ ys) (p, h) e = All-at i P ys h e

pub map-All {ℓ κ μ} :
    {A : Type ℓ} {B : Type κ} (Q : B → Type μ) (f : A → B) (xs : List A)
    → All (λ x. Q (f x)) xs
    → All Q (map f xs)
map-All Q f [] h = tt
map-All Q f (x ∷ xs) (here, h) = (here, map-All Q f xs h)

module _ {ℓ κ} {A : Type ℓ} {B : Type κ} (f : A → B) where
  pub map-remove_at : (i : ℕ) (xs : List A) → map f (remove_at i xs) ≡ remove_at i (map f xs)
  unfolding remove_at
  map-remove_at i [] = refl
  map-remove_at zero (x ∷ xs) = refl
  map-remove_at (suc i) (x ∷ xs) = ap (λ l. f x ∷ l) (map-remove_at i xs)

  pub map-insert_at :
      (i : ℕ) (x : A) (xs : List A) → map f (insert_at i x xs) ≡ insert_at i (f x) (map f xs)
  unfolding insert_at
  map-insert_at zero x xs = refl
  map-insert_at (suc i) x [] = refl
  map-insert_at (suc i) x (y ∷ ys) = ap (λ l. f y ∷ l) (map-insert_at i x ys)

  pub map-set_at : (i : ℕ) (x : A) (xs : List A) → map f (set_at i x xs) ≡ set_at i (f x) (map f xs)
  unfolding set_at
  map-set_at i x [] = refl
  map-set_at zero x (y ∷ ys) = refl
  map-set_at (suc i) x (y ∷ ys) = ap (λ l. f y ∷ l) (map-set_at i x ys)

  pub get_elem?-map :
      (xs : List A) (i : ℕ) {x : A} → get_elem? xs i ≡ some x → get_elem? (map f xs) i ≡ some (f x)
  unfolding get_elem?
  get_elem?-map [] i h = cc
  get_elem?-map (y ∷ ys) zero h = cc
  get_elem?-map (y ∷ ys) (suc i) h = get_elem?-map ys i h

module _ {ℓ κ} {A : Type ℓ} (P : A → Type κ) where
  -- Removing an element keeps what holds of every element.
  pub remove_at-All : (i : ℕ) (xs : List A) → All P xs → All P (remove_at i xs)
  unfolding remove_at
  remove_at-All i [] h = tt
  remove_at-All zero (x ∷ xs) (p, h) = h
  remove_at-All (suc i) (x ∷ xs) (p, h) = (p, remove_at-All i xs h)

  pub set_at-All : (i : ℕ) (x : A) (xs : List A) → P x → All P xs → All P (set_at i x xs)
  unfolding set_at
  set_at-All i x [] p h = tt
  set_at-All zero x (y ∷ ys) p (_, h) = (p, h)
  set_at-All (suc i) x (y ∷ ys) p (q, h) = (q, set_at-All i x ys p h)

module _ {ℓ} {A : Type ℓ} where
  pub remove_at-Distinct : (i : ℕ) (xs : List A) → Distinct xs → Distinct (remove_at i xs)
  unfolding remove_at
  remove_at-Distinct i [] h = tt
  remove_at-Distinct zero (x ∷ xs) (n, h) = h
  remove_at-Distinct (suc i) (x ∷ xs) (n, h) =
      (remove_at-All (λ y. x ≢ y) i xs n, remove_at-Distinct i xs h)

  -- Assigning an element to its own place.
  pub set_at-same : (i : ℕ) (x : A) (xs : List A) → get_elem? xs i ≡ some x → set_at i x xs ≡ xs
  unfolding set_at get_elem?
  set_at-same i x [] h = refl
  set_at-same zero x (y ∷ ys) h = ap (λ z. z ∷ ys) (some-injective x y (sym h))
  set_at-same (suc i) x (y ∷ ys) h = ap (λ l. y ∷ l) (set_at-same i x ys h)

  pub append-Distinct :
      (xs : List A) (x : A) → Distinct xs → All (λ y. y ≢ x) xs → Distinct (xs ++ x ∷ [])
  append-Distinct [] x h n = (tt, tt)
  append-Distinct (y ∷ ys) x (a, h) (b, n) =
      (All-append (λ z. y ≢ z) ys (x ∷ []) a (b, tt), append-Distinct ys x h n)

module _ {ℓ} {A : Type ℓ} where
  -- The element at an index stands nowhere else.
  pub remove_at-absent :
      (i : ℕ) (x : A) (xs : List A)
      → get_elem? xs i ≡ some x
      → Distinct xs
      → All (λ y. y ≢ x) (remove_at i xs)
  unfolding remove_at get_elem?
  remove_at-absent i x [] h d = tt
  remove_at-absent zero x (y ∷ ys) h (n, d) =
      All-mono ys (λ z f e. f (some-injective y x h ∙ sym e)) n
  remove_at-absent (suc i) x (y ∷ ys) h (n, d) =
      ((λ e. All-at i (λ z. y ≢ z) ys n h e), remove_at-absent i x ys h d)

module _ {ℓ} {A : Type ℓ} where
  pub get_elem?-append_left :
      (xs ys : List A) (i : ℕ) {x : A} → get_elem? xs i ≡ some x → get_elem? (xs ++ ys) i ≡ some x
  unfolding get_elem?
  get_elem?-append_left [] ys i h = cc
  get_elem?-append_left (x ∷ xs) ys zero h = h
  get_elem?-append_left (x ∷ xs) ys (suc i) h = get_elem?-append_left xs ys i h

  pub get_elem?-append_right :
      (xs ys : List A) (i : ℕ) → get_elem? (xs ++ ys) (length xs + i) ≡ get_elem? ys i
  unfolding get_elem?
  get_elem?-append_right [] ys i = ap (get_elem? ys) (omega arith)
  get_elem?-append_right (x ∷ xs) ys i =
      let e : suc (length xs) + i ≡ suc (length xs + i) = omega arith in
      ap (get_elem? (x ∷ (xs ++ ys))) e ∙ get_elem?-append_right xs ys i
