-- ===== src/Mcp/Session.antt =====
-- The axios instance of mcp/src/client.ts with its two interceptors, and the actions over it: an
-- action returns a value or throws, and extends the log of the requests that left the process.
use Prim.Native.String.{◌++◌ as concat}
use astiango_hub.Common.{
  ℕ, String, Bool, not, ◌&&◌, Option, none, some, List, [], ◌∷◌, ◌++◌, str_eq, if◌then◌else◌,
}
use astiango_hub.Mcp.Json.{Json}
use astiango_hub.Mcp.Security.{is_read_only_method}

pub record Request : Type 0 where
  pub method : String
  pub path : String
  pub params : Json
  pub body : Json

-- What the network layer of axios makes of a request: a reply with a status that it accepts, or an
-- error with `error.response?.data?.error` and `error.message`.
pub data Reply : Type 0 where
  response : ℕ → Json → Reply
  failure : Option String → String → Reply

-- `transport` is the server and the network. It may answer by all that was sent before.
pub record AstianGoHubClient : Type 0 where
  pub base_url : String
  pub api_token : Option String
  pub timeout : ℕ
  pub allow_mutations : Bool
  pub transport : List Request → Request → Reply

pub data Outcome (A : Type 0) : Type 0 where
  ok : A → Outcome A
  throw : String → Outcome A

abbrev pub Action : Type 0 → Type 0
Action A = AstianGoHubClient → List Request → Outcome A × List Request

module _ {A : Type 0} where
  unfoldable pub pure : A → Action A
  pure a c log = (ok a, log)

  unfoldable pub raise : String → Action A
  raise e c log = (throw e, log)

module _ {A B : Type 0} where
  abbrev pub continue : Outcome A → (A → Action B) → Action B
  continue (ok a) f c log = f a c log
  continue (throw e) f c log = (throw e, log)

  infixl 10 ◌>>=◌ ◌>>◌
  unfoldable pub ◌>>=◌ : Action A → (A → Action B) → Action B
  unfolding pure raise
  ◌>>=◌ m f c log = let (r, log') = m c log in continue r f c log'

  abbrev pub ◌>>◌ : Action A → Action B → Action B
  m >> n = m >>= λ _. n

  -- `try { m } catch (error) { h(error.message) }`, where neither branch throws any more.
  abbrev pub settle : Outcome A → (A → B) → (String → B) → B
  settle (ok a) f h = f a
  settle (throw e) f h = h e

  unfoldable pub try_catch :
      Action A → (A → B) → (String → B) → AstianGoHubClient → List Request → B × List Request
  unfolding pure raise
  try_catch m f h c log = let (r, log') = m c log in (settle r f h, log')

abbrev pub read_only_message : String
read_only_message =
    "MCP is read-only. Set ASTIANGO_MCP_ALLOW_MUTATIONS=true to allow write operations."

-- `error.response?.data?.error || error.message`
abbrev error_text : Option String → String → String
error_text none message = message
error_text (some e) message = if str_eq e "" then message else e

-- The response interceptor's handler of errors.
unfoldable pub api_error : Option String → String → String
api_error e message = concat "AstianGO Hub API Error: " (error_text e message)

-- The request interceptor's test.
unfoldable pub is_refused : AstianGoHubClient → Request → Bool
is_refused c r = not c.allow_mutations && not (is_read_only_method (some r.method))

abbrev pub outcome : Reply → Outcome (ℕ × Json)
outcome (response status body) = ok (status, body)
outcome (failure e message) = throw (api_error e message)

-- One call of the instance. A rejection by the request interceptor goes through the error handler
-- of the response interceptor, as one promise chain holds both.
unfoldable pub send : Request → Action (ℕ × Json)
unfolding is_refused api_error
send r c log =
    if is_refused c r
    then (throw (api_error none read_only_message), log)
    else (outcome (c.transport log r), log ++ r ∷ [])
