-- ===== src/Mcp/Config.antt =====
-- mcp/src/config.ts: the configuration of the server from its arguments, its environment and a file.
pub mod Laws
use Prim.Native.Char.{Char, code}
use Prim.Native.String.{◌++◌ as concat}
use astiango_hub.Mcp.Session.{Outcome, ok, throw}
use astiango_hub.Mcp.Security.{mutations_are_enabled}
use astiango_hub.Common.{
  ℕ, ◌%◌, ◌≤◌, String, ◌≡◌, ◌≢◌, ◌↔◌, ◌⊎◌, Bool, true, false, not, ◌&&◌, ◌||◌, Option, none, some,
  List, [], ◌∷◌, str_eq, ltb, leb, ◌==◌, if◌then◌else◌, length,
}

-- What `statSync` says of a path; `mode` holds the permission bits.
pub record Stat : Type 0 where
  pub is_file : Bool
  pub mode : ℕ

-- The platform: `process.platform !== 'win32'`, `statSync` and `readFileSync`, which may throw.
pub record Platform : Type 0 where
  pub is_posix : Bool
  pub stat : String → Outcome Stat
  pub read_file : String → Outcome String

pub record Environment : Type 0 where
  pub api_url : Option String
  pub api_endpoint : Option String
  pub api_token_file : Option String
  pub allow_mutations : Option String

pub record McpConfiguration : Type 0 where
  pub api_endpoint : String
  pub api_token : String
  pub allow_mutations : Bool

infixl 10 ◌>>=◌
abbrev pub ◌>>=◌ : {A B : Type 0} → Outcome A → (A → Outcome B) → Outcome B
ok a >>= f = f a
throw e >>= f = throw e

-- The white space and line ends of `trim`.
unfoldable pub is_space : ℕ → Bool
is_space c =
    (leb 9 c && leb c 13)
    || c == 32
    || c == 0xa0
    || c == 0x1680
    || (leb 0x2000 c && leb c 0x200a)
    || c == 0x2028
    || c == 0x2029
    || c == 0x202f
    || c == 0x205f
    || c == 0x3000
    || c == 0xfeff

unfoldable pub trim_start : String → String
unfolding is_space
trim_start String.[] = ""
trim_start (String.◌∷◌ c s) = if is_space (code c) then trim_start s else String.◌∷◌ c s

-- A character stays in front of what the end keeps, unless it is white space before nothing.
unfoldable pub keep_before : Char → String → String
unfolding is_space
keep_before c String.[] = if is_space (code c) then "" else String.◌∷◌ c ""
keep_before c (String.◌∷◌ d s) = String.◌∷◌ c (String.◌∷◌ d s)

unfoldable pub trim_end : String → String
unfolding keep_before
trim_end String.[] = ""
trim_end (String.◌∷◌ c s) = keep_before c (trim_end s)

unfoldable pub trim : String → String
unfolding trim_start trim_end
trim s = trim_end (trim_start s)

abbrev pub check_token : String → Outcome String
check_token token = if str_eq token "" then throw "ASTIANGO_API_TOKEN_FILE is empty." else ok token

unfoldable pub check_stat : Bool → Stat → Outcome (Unit {0})
check_stat is_posix s =
    if not s.is_file
    then throw "ASTIANGO_API_TOKEN_FILE must point to a regular file."
    else if is_posix && not (s.mode % 64 == 0)
    then throw "ASTIANGO_API_TOKEN_FILE must not be readable by group or others."
    else ok tt

unfoldable pub read_secret_file : Platform → String → Outcome String
unfolding check_stat trim
read_secret_file sys path = do
  s ← sys.stat path
  _ ← check_stat sys.is_posix s
  text ← sys.read_file path
  check_token (trim text)

-- `a ?? b`
abbrev pub or_default : Option String → Option String → Option String
or_default none b = b
or_default (some a) b = some a

-- `if (!v) throw new Error(message)`
unfoldable pub require : Option String → String → Outcome String
require none message = throw message
require (some v) message = if str_eq v "" then throw message else ok v

abbrev pub first : List String → Option String
first [] = none
first (a ∷ _) = some a

abbrev pub too_many : List String → Bool
too_many args = ltb 1 (length args)

abbrev pub endpoint_of : List String → Environment → Outcome String
endpoint_of args env =
    require (or_default (first args) (or_default env.api_url env.api_endpoint))
      "AstianGO Hub API URL is required. Use one command argument or ASTIANGO_API_ENDPOINT."

abbrev pub token_file : Environment → Outcome String
token_file env =
    require env.api_token_file
      "ASTIANGO_API_TOKEN_FILE is required. Mount the API token as a private secret file."

-- `loadMcpConfiguration` behind its test of the arguments.
unfoldable pub configure : Platform → List String → Environment → Outcome McpConfiguration
unfolding require read_secret_file mutations_are_enabled
configure sys args env = do
  api_endpoint ← endpoint_of args env
  secret_file ← token_file env
  api_token ← read_secret_file sys secret_file
  ok (record {
    api_endpoint = api_endpoint;
    api_token = api_token;
    allow_mutations = mutations_are_enabled env.allow_mutations;
  })

unfoldable pub load_mcp_configuration :
    Platform → List String → Environment → Outcome McpConfiguration
unfolding configure
load_mcp_configuration sys args env =
    if too_many args
    then throw
        "API tokens must be supplied through ASTIANGO_API_TOKEN_FILE, never as a command argument."
    else configure sys args env

-- What a configuration that is returned rests on.
pub record IsSafe (sys : Platform) (args : List String) (env : Environment) (r : McpConfiguration)
    : Type 0 where
  pub no_token_argument : length args ≤ 1
  pub has_endpoint : r.api_endpoint ≢ ""
  pub has_token : r.api_token ≢ ""
  pub mutations : (r.allow_mutations ≡ true) ↔ (env.allow_mutations ≡ some "true")
  pub path : String
  pub named : env.api_token_file ≡ some path
  pub stat : Stat
  pub stat_read : sys.stat path ≡ ok stat
  pub regular : stat.is_file ≡ true
  pub private : (sys.is_posix ≡ false) ⊎ (stat.mode % 64 ≡ 0)
  pub text : String
  pub text_read : sys.read_file path ≡ ok text
  pub token : r.api_token ≡ trim text

-- `startupStatusMessages`
unfoldable pub startup_status_messages : McpConfiguration → List String
startup_status_messages r =
    concat "AstianGO Hub API endpoint: " r.api_endpoint
    ∷ concat "Mutating MCP operations: "
        (if r.allow_mutations then "enabled" else "disabled (default)")
    ∷ []
