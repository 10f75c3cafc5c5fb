-- ===== src/Mcp/Tools.antt =====
-- What the handlers of mcp/src/tools have in common: the result of a tool, the `try` that every
-- handler is, and the confirmation of destructive ones.
pub mod Spiders
pub mod Tasks
pub mod Nodes
pub mod Schedules
pub mod Projects
pub mod Databases
pub mod Git
pub mod Stats
pub mod Ai
pub mod System
use Prim.Native.String.{◌++◌}
use astiango_hub.Mcp.Security.{require_destructive_confirmation}
use astiango_hub.Mcp.Json.{Items, Json, undefined, null, str}
use astiango_hub.Mcp.Json.{truthy, read_field}
use astiango_hub.Mcp.Session.{AstianGoHubClient}
use astiango_hub.Mcp.Session.{Request, Action, pure, raise, try_catch}
use astiango_hub.Common.{String, Bool, true, false, Option, none, some, List, if◌then◌else◌}

-- The text of a result, by how the handler computes it from a value.
pub data Content : Type 0 where
  -- a text that the handler writes itself
  text : String → Content
  -- `JSON.stringify(v, null, 2)`, after a text
  pretty : String → Json → Content
  -- the value itself
  value : Json → Content
  -- `v.join('\n')`
  lines : Items → Content

pub record ToolResult : Type 0 where
  pub content : Content
  pub is_error : Bool

abbrev pub Handler : Type 0
Handler = AstianGoHubClient → List Request → ToolResult × List Request

abbrev pub success : Content → ToolResult
success c = record { content = c; is_error = false }

abbrev pub failed : String → ToolResult
failed e = record { content = text e; is_error = true }

abbrev pub failure_of : String → String → ToolResult
failure_of prefix e = failed (prefix ++ e)

-- `try { v = await m; return show(v) } catch (error) { return prefix + error.message }`
unfoldable pub handler : {A : Type 0} → String → Action A → (A → Content) → Handler
unfolding try_catch
handler prefix m show = try_catch m (λ v. success (show v)) (failure_of prefix)

-- The handlers that show the reply as it is.
unfoldable pub show_reply : String → Action Json → Handler
unfolding handler
show_reply prefix m = handler prefix m (pretty "")

-- The handlers that report in their own words.
unfoldable pub report : String → Action Json → String → Handler
unfolding handler
report prefix m done = handler prefix m (λ _. text done)

abbrev unless_refused : {A : Type 0} → Option String → Action A → Action A
unless_refused none m = m
unless_refused (some e) m = raise e

-- `requireDestructiveConfirmation(confirmation, action, id)` before an action.
unfoldable pub confirmed : {A : Type 0} → String → String → String → Action A → Action A
unfolding require_destructive_confirmation raise
confirmed confirmation action id m =
    unless_refused (require_destructive_confirmation confirmation action id) m

abbrev type_error : String → Json → String
type_error k null = "Cannot read properties of null (reading '" ++ k ++ "')"
type_error k _ = "Cannot read properties of undefined (reading '" ++ k ++ "')"

abbrev found_or_raise : String → Option Json → Action Json
found_or_raise e none = raise e
found_or_raise e (some v) = pure v

-- `v.k` in a handler.
unfoldable pub member : String → Json → Action Json
unfolding read_field pure raise
member k v = found_or_raise (type_error k v) (read_field k v)

-- `v || d`
unfoldable pub or_else : Json → Json → Json
unfolding truthy
or_else v d = if truthy v then v else d

pub data Mode : Type 0 where
  random all selected_nodes : Mode

abbrev pub opt_mode : Option Mode → Json
opt_mode none = undefined
opt_mode (some random) = str "random"
opt_mode (some all) = str "all"
opt_mode (some selected_nodes) = str "selected-nodes"

-- The authentication of a Git repository.
pub data AuthType : Type 0 where
  public private token : AuthType

abbrev pub opt_auth_type : Option AuthType → Json
opt_auth_type none = undefined
opt_auth_type (some public) = str "public"
opt_auth_type (some private) = str "private"
opt_auth_type (some token) = str "token"
