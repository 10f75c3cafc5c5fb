-- ===== src/Mcp/Security.antt =====
-- mcp/src/security.ts
pub mod Laws
use Prim.Native.String.{◌++◌}
use astiango_hub.Common.{
  ℕ, ◌+◌, String, Bool, true, false, ◌&&◌, ◌||◌, Option, none, some, List, [], ◌∷◌, map, leb, ◌==◌,
  str_eq, if◌then◌else◌, codes,
}

abbrev pub safe_http_methods : List String
safe_http_methods = "get" ∷ "head" ∷ "options" ∷ []

unfoldable pub mutations_are_enabled : Option String → Bool
mutations_are_enabled none = false
mutations_are_enabled (some value) = str_eq value "true"

-- `toLowerCase` on one code point. Beyond ASCII only U+212A has an ASCII letter for its lower case.
unfoldable pub lower_code : ℕ → ℕ
lower_code c = if leb 65 c && leb c 90 then c + 32 else if c == 0x212a then b'k' else c

unfoldable pub same_codes : List ℕ → List ℕ → Bool
same_codes [] [] = true
same_codes (x ∷ xs) (y ∷ ys) = x == y && same_codes xs ys
same_codes _ _ = false

-- `SAFE_HTTP_METHODS.has`
unfoldable pub has_method : List String → List ℕ → Bool
unfolding same_codes
has_method [] m = false
has_method (s ∷ rest) m = same_codes (codes s) m || has_method rest m

unfoldable pub is_read_only_method : Option String → Bool
unfolding has_method lower_code
is_read_only_method none = has_method safe_http_methods (map lower_code (codes "get"))
is_read_only_method (some method) = has_method safe_http_methods (map lower_code (codes method))

-- The text that confirms an action on a resource.
unfoldable pub expected_confirmation : String → String → String
expected_confirmation action resource_id = action ++ ":" ++ resource_id

abbrev pub confirmation_message : String → String
confirmation_message expected = "Confirmation required. Set confirmation to \"" ++ expected ++ "\"."

-- The message of the error that is thrown, or `none`.
unfoldable pub require_destructive_confirmation : String → String → String → Option String
require_destructive_confirmation confirmation action resource_id =
    let expected = expected_confirmation action resource_id in
    if str_eq confirmation expected then none else some (confirmation_message expected)
