-- ===== src/Mcp/Config/Laws.antt =====
-- A configuration that is returned is safe.
use astiango_hub.Mcp.Session.{Outcome, ok, throw}
use astiango_hub.Mcp.Security.{mutations_are_enabled}
use astiango_hub.Mcp.Config.{
  Stat, Platform, Environment, McpConfiguration, ◌>>=◌, trim, check_token, check_stat,
  read_secret_file, require, too_many, endpoint_of, token_file, configure, load_mcp_configuration,
  IsSafe,
}
use astiango_hub.Common.{
  ◌%◌, ◌≤◌, String, ◌≡◌, refl, ◌≢◌, ◌↔◌, ◌⊎◌, inl, inr, Bool, true, false, Option, none, some, List,
  arith, eq_iff, Bool-cases, length,
}

-- Two steps that succeed: the value between them.
steps-succeed :
    {A B : Type 0} {result : B} (step : Outcome A) (next : A → Outcome B)
    → (step >>= next) ≡ ok result
    → (between : A) × (step ≡ ok between) × (next between ≡ ok result)
steps-succeed (throw e) next both = cc
steps-succeed (ok between) next both = (between, refl, both)

require-eq-ok :
    (o : Option String) (message : String) {v : String}
    → require o message ≡ ok v
    → (o ≡ some v) × (v ≢ "")
unfolding require
require-eq-ok none message h = cc
require-eq-ok (some v) message h = ground (arith, eq_iff v "")

endpoint-present :
    (args : List String) (env : Environment) {v : String} → endpoint_of args env ≡ ok v → v ≢ ""
endpoint-present args env h = (require-eq-ok _ _ h).1

check_token-eq-ok : (t : String) {v : String} → check_token t ≡ ok v → (v ≡ t) × (v ≢ "")
check_token-eq-ok t h = ground (arith, eq_iff t "")

mutations_iff : (o : Option String) → (mutations_are_enabled o ≡ true) ↔ (o ≡ some "true")
unfolding mutations_are_enabled
mutations_iff none = ground arith
mutations_iff (some v) = ground (arith, eq_iff v "true")

check_stat-eq-ok :
    (is_posix : Bool) (s : Stat) {u : Unit {0}}
    → check_stat is_posix s ≡ ok u
    → (s.is_file ≡ true) × ((is_posix ≡ false) ⊎ (s.mode % 64 ≡ 0))
unfolding check_stat
check_stat-eq-ok is_posix s h = ground arith

-- What a token that is read rests on.
record IsToken (sys : Platform) (path token : String) : Type 0 where
  stat : Stat
  stat_read : sys.stat path ≡ ok stat
  regular : stat.is_file ≡ true
  private : (sys.is_posix ≡ false) ⊎ (stat.mode % 64 ≡ 0)
  text : String
  text_read : sys.read_file path ≡ ok text
  trimmed : token ≡ trim text
  present : token ≢ ""

read_secret_file-IsToken :
    (sys : Platform) (path : String) {token : String}
    → read_secret_file sys path ≡ ok token
    → IsToken sys path token
unfolding read_secret_file
read_secret_file-IsToken sys path h =
    let (s, stat_read, h1) = steps-succeed (sys.stat path) _ h in
    let (u, checked, h2) = steps-succeed (check_stat sys.is_posix s) _ h1 in
    let (text, text_read, h3) = steps-succeed (sys.read_file path) _ h2 in
    let (trimmed, present) = check_token-eq-ok (trim text) h3 in
    let (regular, private) = check_stat-eq-ok sys.is_posix s checked in
    record {
      stat = s;
      stat_read = stat_read;
      regular = regular;
      private = private;
      text = text;
      text_read = text_read;
      trimmed = trimmed;
      present = present;
    }

module _ {q r : McpConfiguration} (h : ok q ≡ ok r) where
  ok-api_endpoint : q.api_endpoint ≡ r.api_endpoint
  ok-api_endpoint = cc

  ok-api_token : q.api_token ≡ r.api_token
  ok-api_token = cc

  ok-allow_mutations : q.allow_mutations ≡ r.allow_mutations
  ok-allow_mutations = cc

configure-IsSafe :
    (sys : Platform) (args : List String) (env : Environment) (r : McpConfiguration)
    → length args ≤ 1
    → configure sys args env ≡ ok r
    → IsSafe sys args env r
unfolding configure
configure-IsSafe sys args env r few h =
    let (endpoint, given, h1) = steps-succeed (endpoint_of args env) _ h in
    let (path, named, h2) = steps-succeed (token_file env) _ h1 in
    let (token, read, h3) = steps-succeed (read_secret_file sys path) _ h2 in
    let secret = read_secret_file-IsToken sys path read in
    let q : McpConfiguration = record {
      api_endpoint = endpoint;
      api_token = token;
      allow_mutations = mutations_are_enabled env.allow_mutations;
    } in
    record {
      no_token_argument = few;
      has_endpoint = rw (← ok-api_endpoint {q = q} {r = r} h3) (endpoint-present args env given);
      has_token = rw (← ok-api_token {q = q} {r = r} h3) secret.present;
      mutations = rw (← ok-allow_mutations {q = q} {r = r} h3) (mutations_iff env.allow_mutations);
      path = path;
      named = (require-eq-ok _ _ named).0;
      stat = secret.stat;
      stat_read = secret.stat_read;
      regular = secret.regular;
      private = secret.private;
      text = secret.text;
      text_read = secret.text_read;
      token = rw (← ok-api_token {q = q} {r = r} h3) secret.trimmed;
    }

-- The server starts only with an endpoint, and with a token that is not empty and that it has read,
-- with the white space around it removed, from the regular file which the environment names, which on a POSIX platform
-- grants nothing to group or others; at most one command argument is given, and mutations are on
-- exactly when the environment says "true".
pub load_mcp_configuration-IsSafe :
    (sys : Platform) (args : List String) (env : Environment) (r : McpConfiguration)
    → load_mcp_configuration sys args env ≡ ok r
    → IsSafe sys args env r
unfolding load_mcp_configuration
load_mcp_configuration-IsSafe sys args env r h = elim (Bool-cases (too_many args)) [
  | inl many ↦ absurd (cc (rw many at h))
  | inr few ↦ configure-IsSafe sys args env r (ground arith) (rw few at h)
]
