-- ===== src/Common/Texts.antt =====
-- The methods of JavaScript texts that the source calls, on lists of code units.
pub mod Laws
use astiango_hub.Common.Tests.{leb, ◌==◌, if◌then◌else◌}
use Prim.Native.Nat.{ℕ, zero, suc}
use mathlib.Core.Bool.{Bool, true, false, ◌&&◌, ◌||◌}
use mathlib.Core.Option.{Option, none, some}
use mathlib.Core.List.{List, [], ◌∷◌, ◌++◌, reverse}

abbrev pub Text : Type 0
Text = List ℕ

abbrev pub newline : ℕ
newline = 10

abbrev pub or_empty : Option Text → Text
or_empty none = []
or_empty (some s) = s

-- `s === t`
unfoldable pub eq_text : Text → Text → Bool
eq_text [] [] = true
eq_text [] (y ∷ t) = false
eq_text (x ∷ s) [] = false
eq_text (x ∷ s) (y ∷ t) = x == y && eq_text s t

-- `s.slice(n)`
unfoldable pub drop : ℕ → Text → Text
drop zero s = s
drop (suc n) [] = []
drop (suc n) (x ∷ s) = drop n s

-- `s.slice(0, n)`
unfoldable pub take : ℕ → Text → Text
take zero s = []
take (suc n) [] = []
take (suc n) (x ∷ s) = x ∷ take n s

abbrev pub cons_head : ℕ → List Text → List Text
cons_head x [] = (x ∷ []) ∷ []
cons_head x (l ∷ ls) = (x ∷ l) ∷ ls

-- `s.split(separator)`, for a separator of one code unit.
unfoldable pub split : ℕ → Text → List Text
split separator [] = [] ∷ []
split separator (x ∷ s) =
    let rest = split separator s in if x == separator then [] ∷ rest else cons_head x rest

-- `lines.pop() || ''`, with the lines that are left before it.
unfoldable pub pop : List Text → List Text × Text
pop [] = ([], [])
pop (l ∷ []) = ([], l)
pop (l ∷ m ∷ ls) = let (before, last) = pop (m ∷ ls) in (l ∷ before, last)

-- The code units that `trim` removes.
unfoldable pub is_space : ℕ → Bool
is_space x =
    leb 9 x && leb x 13
    || x == 32
    || x == 160
    || x == 0x1680
    || leb 0x2000 x && leb x 0x200a
    || x == 0x2028
    || x == 0x2029
    || x == 0x202f
    || x == 0x205f
    || x == 0x3000
    || x == 0xfeff

unfoldable pub trim_start : Text → Text
trim_start [] = []
trim_start (x ∷ s) = let rest = trim_start s in if is_space x then rest else x ∷ s

-- `s.trim()`
unfoldable pub trim : Text → Text
unfolding trim_start is_space
trim s = reverse (trim_start (reverse (trim_start s)))

-- `s.endsWith(suffix)`
unfoldable pub ends_with : Text → Text → Bool
unfolding eq_text
ends_with [] suffix = eq_text [] suffix
ends_with (x ∷ s) suffix = eq_text (x ∷ s) suffix || ends_with s suffix
