-- ===== src/Mcp/Client.antt =====
-- The client of mcp/src/client.ts: its constructor, and the calls that its methods are made of.
pub mod Crawling
pub mod Assets
pub mod Ai
pub mod Laws
use Prim.Native.Char.{code}
use astiango_hub.Common.{ℕ, String, Bool, Option, List, ◌==◌, if◌then◌else◌}
use astiango_hub.Mcp.Json.{Json, undefined}
use astiango_hub.Mcp.Session.{Request, Reply, AstianGoHubClient, Action, pure, ◌>>=◌, send}

-- `apiUrl.replace(/\/$/, '')`
unfoldable pub strip_slash : String → String
strip_slash String.[] = ""
strip_slash (String.◌∷◌ c String.[]) = if code c == b'/' then "" else String.◌∷◌ c ""
strip_slash (String.◌∷◌ c (String.◌∷◌ d s)) = String.◌∷◌ c (strip_slash (String.◌∷◌ d s))

unfoldable pub new_client :
    String → Option String → ℕ → Bool → (List Request → Request → Reply) → AstianGoHubClient
unfolding strip_slash
new_client api_url api_token timeout allow_mutations transport = record {
  base_url = strip_slash api_url;
  api_token = api_token;
  timeout = timeout;
  allow_mutations = allow_mutations;
  transport = transport;
}

abbrev pub request : String → String → Json → Json → Request
request method path params body = record {
  method = method;
  path = path;
  params = params;
  body = body;
}

-- `const response = await ...; return response.data;`
unfoldable pub call : Request → Action Json
unfolding send ◌>>=◌
call r = do (status, body) ← send r; pure body

unfoldable pub get : String → Json → Action Json
unfolding call
get path params = call (request "get" path params undefined)

unfoldable pub post : String → Json → Action Json
unfolding call
post path body = call (request "post" path undefined body)

unfoldable pub put : String → Json → Action Json
unfolding call
put path body = call (request "put" path undefined body)

unfoldable pub patch : String → Json → Action Json
unfolding call
patch path body = call (request "patch" path undefined body)

unfoldable pub delete : String → Action Json
unfolding call
delete path = call (request "delete" path undefined undefined)
