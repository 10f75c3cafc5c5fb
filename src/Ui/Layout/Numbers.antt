-- ===== src/Ui/Layout/Numbers.antt =====
-- The numbers whose texts frontend/astiango-hub-ui/src/store/modules/layout.ts keeps: `toString()` of a
-- finite number that is written without an exponent, and `parseInt()` of a text that begins with its
-- digits, or with a minus and its digits.
use astiango_hub.Common.{
  ℕ, zero, suc, ◌+◌, ◌-◌, ◌*◌, ◌/◌, ◌%◌, ◌≤◌, ◌<◌, ◌≡◌, refl, sym, ap, ◌∙◌, arith, Bool, true,
  false, not, ◌&&◌, inl, inr, Bool-cases, Option, none, some, List, [], ◌∷◌, map, ◌==◌, ltb, leb,
  Text, if◌then◌else◌,
}
use mathlib.Core.Option.{some-injective}

-- A number by its decimal digits. The zero has no sign, as for `===`.
pub record Number : Type 0 where
  pub negative : Bool
  pub whole : ℕ
  pub fraction : List ℕ

abbrev pub natural : ℕ → Number
natural n = record { negative = false; whole = n; fraction = [] }

abbrev is_digit : ℕ → Bool
is_digit c = leb 48 c && leb c 57

-- The digits of a number, in front of a text. There are fewer digits than `fuel`.
unfoldable pub digits_before : ℕ → ℕ → Text → Text
digits_before zero n rest = rest
digits_before (suc fuel) n rest =
    let more = digits_before fuel (n / 10) ((48 + n % 10) ∷ rest) in
    if ltb n 10 then (48 + n) ∷ rest else more

abbrev pub decimal : ℕ → Text
decimal n = digits_before (suc n) n []

abbrev fraction_text : List ℕ → Text
fraction_text [] = []
fraction_text (d ∷ ds) = 46 ∷ map (λ x. 48 + x) (d ∷ ds)

-- `toString()`
unfoldable pub number_text : Number → Text
unfolding digits_before
number_text x =
    let digits = digits_before (suc x.whole) x.whole (fraction_text x.fraction) in
    if x.negative then 45 ∷ digits else digits

unfoldable pub read_digits : Text → ℕ → ℕ
read_digits [] n = n
read_digits (c ∷ cs) n =
    let more = read_digits cs (n * 10 + (c - 48)) in if is_digit c then more else n

-- The number at the start of a text, `none` where there is no digit.
unfoldable pub read_whole : Text → Option ℕ
unfolding read_digits
read_whole [] = none
read_whole (c ∷ cs) = if is_digit c then some (read_digits (c ∷ cs) 0) else none

-- The number without its fraction.
abbrev pub signed : Bool → ℕ → Number
signed negative n = record { negative = negative && not (n == 0); whole = n; fraction = [] }

abbrev pub truncated : Number → Number
truncated x = signed x.negative x.whole

abbrev signed_option : Bool → Option ℕ → Option Number
signed_option negative none = none
signed_option negative (some n) = some (signed negative n)

-- `parseInt()`, `none` for `NaN`.
unfoldable pub parse_int : Text → Option Number
unfolding read_whole
parse_int [] = none
parse_int (c ∷ cs) =
    if c == 45
    then signed_option true (read_whole cs)
    else signed_option false (read_whole (c ∷ cs))

digit-IsDigit : (d : ℕ) → d < 10 → is_digit (48 + d) ≡ true
digit-IsDigit d h = ground arith

digit-not_minus : (c : ℕ) → is_digit c ≡ true → (c == 45) ≡ false
digit-not_minus c h = ground (arith, h)

read_digits-digit :
    (d n : ℕ) (rest : Text)
    → d < 10
    → read_digits ((48 + d) ∷ rest) n ≡ read_digits rest (n * 10 + d)
unfolding read_digits
read_digits-digit d n rest h =
    let e : n * 10 + (48 + d - 48) ≡ n * 10 + d = omega arith in rw (digit-IsDigit d h, e) refl

read_digits-first :
    (d : ℕ) (rest : Text) → d < 10 → read_digits ((48 + d) ∷ rest) 0 ≡ read_digits rest d
read_digits-first d rest h =
    let e : 0 * 10 + d ≡ d = omega arith in read_digits-digit d 0 rest h ∙ ap (read_digits rest) e

-- The digits of a number are read as the number.
read_digits-digits_before :
    (fuel n : ℕ) (rest : Text)
    → n ≤ fuel
    → read_digits (digits_before (suc fuel) n rest) 0 ≡ read_digits rest n
unfolding digits_before
read_digits-digits_before zero n rest h =
    let small : ltb n 10 ≡ true = ground (arith, h) in
    rw small (read_digits-first n rest (omega arith))
read_digits-digits_before (suc fuel) n rest h =
    let e : n / 10 * 10 + n % 10 ≡ n = omega arith in
    elim (Bool-cases (ltb n 10)) [
      | inl small ↦ rw small (read_digits-first n rest (ground (arith, small)))
      | inr large ↦ rw large (
          read_digits-digits_before fuel (n / 10) _ (ground (arith, large, h))
          ∙ read_digits-digit (n % 10) (n / 10) rest (omega arith)
          ∙ ap (read_digits rest) e)
    ]

-- The first of them is a digit.
digits_before-IsSome :
    (fuel n : ℕ) (rest : Text)
    → n ≤ fuel
    → (c : ℕ) × ((cs : Text) × ((digits_before (suc fuel) n rest ≡ c ∷ cs) × (is_digit c ≡ true)))
unfolding digits_before
digits_before-IsSome zero n rest h =
    let small : ltb n 10 ≡ true = ground (arith, h) in
    rw small (48 + n, (rest, (refl, digit-IsDigit n (omega arith))))
digits_before-IsSome (suc fuel) n rest h = elim (Bool-cases (ltb n 10)) [
  | inl small ↦ rw small (48 + n, (rest, (refl, digit-IsDigit n (ground (arith, small)))))
  | inr large ↦ rw large (digits_before-IsSome fuel (n / 10) _ (ground (arith, large, h)))
]

read_whole-first :
    (c : ℕ) (cs : Text) → is_digit c ≡ true → read_whole (c ∷ cs) ≡ some (read_digits (c ∷ cs) 0)
unfolding read_whole
read_whole-first c cs is = rw is refl

read_whole-digits_before :
    (n : ℕ) (rest : Text) → read_whole (digits_before (suc n) n rest) ≡ some (read_digits rest n)
read_whole-digits_before n rest =
    let (c, (cs, (e, is))) = digits_before-IsSome n n rest (omega arith) in
    rw e (
      read_whole-first c cs is
      ∙ ap some (rw e at (read_digits-digits_before n n rest (omega arith))))

-- A whole number is read back from its text.
pub read_whole-decimal : (n : ℕ) → read_whole (decimal n) ≡ some n
unfolding read_digits
read_whole-decimal n = read_whole-digits_before n []

read_digits-fraction_text : (ds : List ℕ) (n : ℕ) → read_digits (fraction_text ds) n ≡ n
unfolding read_digits
read_digits-fraction_text [] n = refl
read_digits-fraction_text (d ∷ ds) n = refl

read_whole-number :
    (n : ℕ) (ds : List ℕ) → read_whole (digits_before (suc n) n (fraction_text ds)) ≡ some n
read_whole-number n ds =
    read_whole-digits_before n (fraction_text ds) ∙ ap some (read_digits-fraction_text ds n)

-- The text of a number is not empty, and is read as the number without its fraction.
pub parse_int-number_text : (x : Number) → parse_int (number_text x) ≡ some (truncated x)
unfolding parse_int number_text
parse_int-number_text x = elim (Bool-cases x.negative) [
  | inl minus ↦ rw minus (ap (signed_option true) (read_whole-number x.whole x.fraction))
  | inr plus ↦
      let (c, (cs, (e, is))) =
        digits_before-IsSome x.whole x.whole (fraction_text x.fraction) (omega arith) in
      rw plus (
        rw (e, digit-not_minus c is)
          (ap (signed_option false) (rw e at (read_whole-number x.whole x.fraction))))
]

signed-truncated : (negative : Bool) (n : ℕ) → truncated (signed negative n) ≡ signed negative n
signed-truncated false n = refl
signed-truncated true n = elim (Bool-cases (n == 0)) [ inl e ↦ rw e refl | inr e ↦ rw e refl ]

-- What is read has no fraction.
pub parse_int-truncated : (t : Text) (x : Number) → parse_int t ≡ some x → truncated x ≡ x
unfolding parse_int
parse_int-truncated [] x h = absurd cc
parse_int-truncated (c ∷ cs) x h = elim (Bool-cases (c == 45)) [
  | inl minus ↦ of_signed true (read_whole cs) (rw minus at h)
  | inr plus ↦ of_signed false (read_whole (c ∷ cs)) (rw plus at h)
]
  where
    of_signed :
        (negative : Bool) (o : Option ℕ) → signed_option negative o ≡ some x → truncated x ≡ x
    of_signed negative none e = absurd cc
    of_signed negative (some n) e =
        let same = some-injective (signed negative n) x e in
        rw (sym same) (signed-truncated negative n)
