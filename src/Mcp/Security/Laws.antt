-- ===== src/Mcp/Security/Laws.antt =====
-- The methods that count as reads, and what a confirmation binds.
use Prim.Native.Char.{Char, code}
use Prim.Native.String.{◌++◌}
use text.Mathlib.TextLemmas.{nil-append, cons-append, cons-eq-cons, append_cancel_left}
use astiango_hub.Mcp.Security.{
  safe_http_methods, lower_code, same_codes, has_method, is_read_only_method, expected_confirmation,
  require_destructive_confirmation,
}
use astiango_hub.Common.{
  ℕ, String, ◌≡◌, refl, sym, ap, ◌∙◌, ◌≢◌, ◌↔◌, ◌⊎◌, inl, inr, Bool, true, false, ◌||◌, none, some,
  List, [], ◌∷◌, map, arith, eq_iff, ==_iff, codes,
}

same_codes_iff : (xs ys : List ℕ) → (same_codes xs ys ≡ true) ↔ (xs ≡ ys)
unfolding same_codes
same_codes_iff [] [] = ground arith
same_codes_iff [] (y ∷ ys) = ground arith
same_codes_iff (x ∷ xs) [] = ground arith
same_codes_iff (x ∷ xs) (y ∷ ys) = ground (arith, ==_iff x y, same_codes_iff xs ys)

-- A method that in lower case is spelled "get", "head" or "options".
abbrev pub IsSafeMethod : String → Type 0
IsSafeMethod m =
    (codes "get" ≡ map lower_code (codes m))
    ⊎ (codes "head" ≡ map lower_code (codes m))
    ⊎ (codes "options" ≡ map lower_code (codes m))

or_cases :
    (a b c : Bool) → ((a || (b || (c || false))) ≡ true) ↔ ((a ≡ true) ⊎ (b ≡ true) ⊎ (c ≡ true))
or_cases a b c = ground arith

has_method_iff :
    (xs : List ℕ)
    → (has_method safe_http_methods xs ≡ true)
      ↔ ((codes "get" ≡ xs) ⊎ (codes "head" ≡ xs) ⊎ (codes "options" ≡ xs))
unfolding has_method
has_method_iff xs = (
  λ h. elim ((or_cases _ _ _).0 h) [
    | inl g ↦ inl ((same_codes_iff _ _).0 g)
    | inr (inl d) ↦ inr (inl ((same_codes_iff _ _).0 d))
    | inr (inr o) ↦ inr (inr ((same_codes_iff _ _).0 o))
  ],
  λ h.
      (or_cases (same_codes (codes "get") xs) (same_codes (codes "head") xs)
          (same_codes (codes "options") xs)).1
        (elim h [
          | inl g ↦ inl ((same_codes_iff _ _).1 g)
          | inr (inl d) ↦ inr (inl ((same_codes_iff _ _).1 d))
          | inr (inr o) ↦ inr (inr ((same_codes_iff _ _).1 o))
        ]),
)

-- `is_read_only_method` holds of exactly the methods that are "get", "head" or "options" up to case;
-- a missing method counts as "get".
pub is_read_only_method_iff :
    (is_read_only_method none ≡ true)
    × ((m : String) → (is_read_only_method (some m) ≡ true) ↔ IsSafeMethod m)
unfolding is_read_only_method
is_read_only_method_iff = (refl, λ m. has_method_iff (map lower_code (codes m)))

-- A text without a colon.
abbrev pub NoColon : String → Type 0
NoColon String.[] = Unit
NoColon (String.◌∷◌ c s) = (code c ≢ b':') × NoColon s

-- A text that starts with a colon differs from one that starts otherwise.
colon_ne : (d : Char) (s u : String) → code d ≢ b':' → "" ++ (":" ++ s) ≡ String.◌∷◌ d u → ⊥
colon_ne d s u h e =
    h (ap code (sym (cons-eq-cons.0 (sym (nil-append (":" ++ s) ∙ cons-append ":" "" s) ∙ e)).0))

colon_split :
    (a b s t : String)
    → NoColon a
    → NoColon b
    → a ++ (":" ++ s) ≡ b ++ (":" ++ t)
    → (a ≡ b) × (s ≡ t)
colon_split String.[] String.[] s t ha hb e =
    (refl, append_cancel_left ":" s t (sym (nil-append (":" ++ s)) ∙ e ∙ nil-append (":" ++ t)))
colon_split String.[] (String.◌∷◌ d b) s t ha hb e =
    absurd (colon_ne d s _ hb.0 (e ∙ cons-append d b (":" ++ t)))
colon_split (String.◌∷◌ c a) String.[] s t ha hb e =
    absurd (colon_ne c t _ ha.0 (sym e ∙ cons-append c a (":" ++ s)))
colon_split (String.◌∷◌ c a) (String.◌∷◌ d b) s t ha hb e =
    let (same, rest) =
      cons-eq-cons.0 (sym (cons-append c a (":" ++ s)) ∙ e ∙ cons-append d b (":" ++ t)) in
    let (heads, tails) = colon_split a b s t ha.1 hb.1 rest in (cons-eq-cons.1 (same, heads), tails)

-- One text confirms at most one action on one resource, if the names of the actions hold no colon.
pub confirmation_binds :
    (confirmation a b i j : String)
    → NoColon a
    → NoColon b
    → require_destructive_confirmation confirmation a i ≡ none
    → require_destructive_confirmation confirmation b j ≡ none
    → (a ≡ b) × (i ≡ j)
unfolding require_destructive_confirmation expected_confirmation
confirmation_binds confirmation a b i j ha hb p q =
    colon_split a b i j ha hb
      (ground (arith, eq_iff confirmation (a ++ (":" ++ i)), eq_iff confirmation (b ++ (":" ++ j))))
