-- ===== src/Ui/Layout/Codec.antt =====
-- Texts of tabs for the tests, which stand for those of `JSON.stringify`: each tab as its identifier,
-- its flag, and its path with every code unit raised by one, closed by 0.
use astiango_hub.Common.{
  ℕ, zero, suc, Bool, true, false, ◌≡◌, ◌≢◌, refl, ◌∙◌, Option, none, some, List, [], ◌∷◌, ◌++◌,
  map, append-nil, append_assoc, Text,
}
use mathlib.Core.Option.{map as map_option}
use astiango_hub.Ui.Layout.{Tab, TabsJson}

abbrev id_code : Option ℕ → ℕ
id_code none = 0
id_code (some n) = suc n

abbrev read_id : ℕ → Option ℕ
read_id zero = none
read_id (suc n) = some n

abbrev flag_code : Option Bool → ℕ
flag_code none = 0
flag_code (some false) = 1
flag_code (some true) = 2

abbrev read_flag : ℕ → Option Bool
read_flag zero = none
read_flag (suc zero) = some false
read_flag (suc (suc n)) = some true

abbrev write_tabs : List Tab → Text
write_tabs [] = []
write_tabs (t ∷ ts) = id_code t.id ∷ flag_code t.is_action ∷ (map suc t.path ++ 0 ∷ write_tabs ts)

abbrev cons_tab : ℕ → ℕ → Text → List Tab → List Tab
cons_tab i a path ts = record { id = read_id i; path = path; is_action = read_flag a } ∷ ts

unfoldable mutual
  pub read_tabs : Text → Option (List Tab)
  read_tabs [] = some []
  read_tabs (i ∷ rest) = read_rest i rest

  read_rest : ℕ → Text → Option (List Tab)
  read_rest i [] = none
  read_rest i (a ∷ rest) = read_path i a [] rest

  read_path : ℕ → ℕ → Text → Text → Option (List Tab)
  read_path i a path [] = none
  read_path i a path (zero ∷ rest) = map_option (cons_tab i a path) (read_tabs rest)
  read_path i a path (suc c ∷ rest) = read_path i a (path ++ c ∷ []) rest

read_path-path :
    (i a : ℕ) (before path rest : Text)
    → read_path i a before (map suc path ++ 0 ∷ rest)
      ≡ map_option (cons_tab i a (before ++ path)) (read_tabs rest)
unfolding read_tabs
read_path-path i a before [] rest = rw append-nil refl
read_path-path i a before (c ∷ path) rest =
    rw (append_assoc before (c ∷ []) path) at (read_path-path i a (before ++ c ∷ []) path rest)

read_id-id_code : (o : Option ℕ) → read_id (id_code o) ≡ o
read_id-id_code none = refl
read_id-id_code (some n) = refl

read_flag-flag_code : (o : Option Bool) → read_flag (flag_code o) ≡ o
read_flag-flag_code none = refl
read_flag-flag_code (some false) = refl
read_flag-flag_code (some true) = refl

read_tabs-write_tabs : (ts : List Tab) → read_tabs (write_tabs ts) ≡ some ts
unfolding read_tabs
read_tabs-write_tabs [] = refl
read_tabs-write_tabs (t ∷ ts) =
    read_path-path (id_code t.id) (flag_code t.is_action) [] t.path (write_tabs ts)
    ∙ rw (read_tabs-write_tabs ts, read_id-id_code t.id, read_flag-flag_code t.is_action) refl

-- A text begins with a bracket.
abbrev read_list : Text → Option (List Tab)
read_list [] = none
read_list (c ∷ cs) = read_tabs cs

abbrev pub tabs_json : TabsJson
tabs_json = record { stringify = λ ts. 91 ∷ write_tabs ts; parse = read_list }

pub tabs_json-inverse : (ts : List Tab) → tabs_json.parse (tabs_json.stringify ts) ≡ some ts
tabs_json-inverse ts = read_tabs-write_tabs ts

pub tabs_json-written : (ts : List Tab) → tabs_json.stringify ts ≢ []
tabs_json-written ts = λ e. cc
