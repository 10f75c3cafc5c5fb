-- ===== src/Mcp/Tools/System/Counts.antt =====
-- The counts of the system's summaries.
use astiango_hub.Mcp.Session.{AstianGoHubClient, Request, Action, ok, ◌>>=◌}
use astiango_hub.Mcp.Json.{
  Json, undefined, null, obj, find_field, read_field, get_or_undefined, truthy,
}
use astiango_hub.Mcp.Tools.{member}
use astiango_hub.Mcp.Tools.System.{count_elements, has_flag, lacks_flag}
use astiango_hub.Common.{
  ℕ, suc, ◌+◌, String, ◌≡◌, refl, Bool, not, some, List, [], ◌∷◌, arith, if◌then◌else◌, length, All,
}

-- An element that is not `undefined` or `null`, so that its fields can be read.
abbrev pub Readable : Json → Type 0
Readable undefined = ⊥
Readable null = ⊥
Readable v = Unit

read_field-Readable : (k : String) (x : Json) → Readable x → (v : Json) × (read_field k x ≡ some v)
unfolding read_field
read_field-Readable k undefined h = absurd h
read_field-Readable k null h = absurd h
read_field-Readable k (obj fs) h = (get_or_undefined (find_field k fs), refl)
read_field-Readable k _ h = (undefined, refl)

-- One element counts on one of the two sides.
has_or_lacks :
    (k : String) (x : Json) (c : AstianGoHubClient) (log : List Request)
    → Readable x
    → (b : Bool) × (has_flag k x c log ≡ (ok b, log)) × (lacks_flag k x c log ≡ (ok (not b), log))
unfolding has_flag lacks_flag member ◌>>=◌
has_or_lacks k x c log h = let (v, e) = read_field-Readable k x h in (truthy v, rw e, rw e)

count_elements-cons :
    (test : Json → Action Bool) (x : Json) (xs : List Json) (c : AstianGoHubClient)
    (log : List Request) (b : Bool) (n : ℕ)
    → test x c log ≡ (ok b, log)
    → count_elements test xs c log ≡ (ok n, log)
    → count_elements test (x ∷ xs) c log ≡ (ok (if b then n + 1 else n), log)
unfolding count_elements ◌>>=◌
count_elements-cons test x xs c log b n e f = rw (e, f)

both_sides :
    (b : Bool) (n m k : ℕ)
    → n + m ≡ k
    → (if b then n + 1 else n) + (if not b then m + 1 else m) ≡ suc k
both_sides b n m k e = ground arith

-- Counting the elements that have a flag and those that lack it sends nothing, does not fail, and
-- gives two numbers that add up to the number of elements, if no element is `undefined` or `null`.
pub count_elements-partition :
    (k : String) (xs : List Json) (c : AstianGoHubClient) (log : List Request)
    → All Readable xs
    → (n m : ℕ) × (count_elements (has_flag k) xs c log ≡ (ok n, log))
      × (count_elements (lacks_flag k) xs c log ≡ (ok m, log))
      × (n + m ≡ length xs)
unfolding count_elements ◌>>=◌
count_elements-partition k [] c log h = (0, 0, refl, refl, refl)
count_elements-partition k (x ∷ xs) c log (h, hs) =
    let (b, e, f) = has_or_lacks k x c log h in
    let (n, m, en, em, s) = count_elements-partition k xs c log hs in
    (
      if b then n + 1 else n,
      if not b then m + 1 else m,
      count_elements-cons _ x xs c log b n e en,
      count_elements-cons _ x xs c log (not b) m f em,
      both_sides b n m _ s,
    )
