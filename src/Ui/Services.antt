-- ===== src/Ui/Services.antt =====
-- The requests of frontend/astiango-hub-ui/src/services/request.ts and the service of one endpoint of
-- services/index.ts. `axios` stands for `axios.request` behind its interceptor: it answers with the
-- body of a reply, with `undefined` after a logout, or with an error.
pub mod Lists
mod Tests
use Prim.Native.String.{◌++◌}
use astiango_hub.Mcp.Session.{Outcome, ok, throw}
use astiango_hub.Mcp.Json.{Json, undefined, str, arr, nil, object, items, truthy}
use astiango_hub.Common.{ℕ, String, Option, none, some, List, [], ◌∷◌, map, str_eq, if◌then◌else◌}

-- The options of one call, and what is handed to `axios.request`, with `data` as the body.
pub record RequestOptions : Type 0 where
  pub headers : List (String × String)
  pub response_type : Option String

pub record RequestConfig : Type 0 where
  pub method : String
  pub url : String
  pub body : Json
  pub params : Json
  pub base_url : String
  pub headers : List (String × String)
  pub response_type : Option String

-- The body of a reply of the hub; `rows` is its `data`.
pub record ResponseBody : Type 0 where
  pub rows : Json
  pub total : ℕ

abbrev pub Axios : Type 0
Axios = RequestConfig → Outcome (Option ResponseBody)

-- The base URL and the token of `localStorage`.
pub record Page : Type 0 where
  pub base_url : String
  pub token : Option String

abbrev authorization : Option String → List (String × String)
authorization none = []
authorization (some token) = if str_eq token "" then [] else ("Authorization", token) ∷ []

unfoldable pub get_headers : Page → List (String × String)
get_headers page = authorization page.token

-- `{ ...opts, baseURL, headers }` for the options that `get` and the others complete.
unfoldable pub request_config :
    Page → String → String → Json → Json → RequestOptions → RequestConfig
unfolding get_headers
request_config page method url body params opts = record {
  method = method;
  url = url;
  body = body;
  params = params;
  base_url = page.base_url;
  headers = get_headers page;
  response_type = opts.response_type;
}

abbrev pub no_options : RequestOptions
no_options = record { headers = []; response_type = none }

module _ (axios : Axios) (page : Page) where
  unfoldable pub request :
      String → String → Json → Json → RequestOptions → Outcome (Option ResponseBody)
  unfolding request_config
  request method url body params opts = axios (request_config page method url body params opts)

  unfoldable pub get : String → Json → RequestOptions → Outcome (Option ResponseBody)
  unfolding request
  get url params opts = request "GET" url undefined params opts

  unfoldable pub post : String → Json → Json → RequestOptions → Outcome (Option ResponseBody)
  unfolding request
  post url body params opts = request "POST" url body params opts

  unfoldable pub put : String → Json → Json → RequestOptions → Outcome (Option ResponseBody)
  unfolding request
  put url body params opts = request "PUT" url body params opts

  unfoldable pub del : String → Json → Json → RequestOptions → Outcome (Option ResponseBody)
  unfolding request
  del url body params opts = request "DELETE" url body params opts

  abbrev pub normalized : Option ResponseBody → ResponseBody
  normalized none = record { rows = arr nil; total = 0 }
  normalized (some res) = record res { rows = if truthy res.rows then res.rows else arr nil }

  abbrev pub list_reply : Outcome (Option ResponseBody) → Outcome ResponseBody
  list_reply (ok o) = ok (normalized o)
  list_reply (throw e) = throw e

  -- `getList` of services/request.ts
  unfoldable pub request_list : String → Json → RequestOptions → Outcome ResponseBody
  unfolding get
  request_list url params opts = list_reply (get url params opts)

  module _ (endpoint : String) where
    unfoldable pub get_by_id : String → Outcome (Option ResponseBody)
    unfolding get
    get_by_id id = get (endpoint ++ "/" ++ id) undefined no_options

    unfoldable pub create : Json → Outcome (Option ResponseBody)
    unfolding post
    create form = post endpoint (object (("data", form) ∷ [])) undefined no_options

    unfoldable pub update_by_id : String → Json → Outcome (Option ResponseBody)
    unfolding put
    update_by_id id form =
        put (endpoint ++ "/" ++ id) (object (("data", form) ∷ [])) undefined no_options

    unfoldable pub delete_by_id : String → Outcome (Option ResponseBody)
    unfolding del
    delete_by_id id = del (endpoint ++ "/" ++ id) undefined undefined no_options

    unfoldable pub get_list : Json → Outcome ResponseBody
    unfolding request_list
    get_list params = request_list endpoint params no_options

    unfoldable pub create_list : List Json → Outcome (Option ResponseBody)
    unfolding post
    create_list forms = post (endpoint ++ "/batch") (arr (items forms)) undefined no_options

    -- `text` is `JSON.stringify` of the form.
    unfoldable pub update_list :
        (Json → String) → List String → Json → List String → Outcome (Option ResponseBody)
    unfolding put
    update_list text ids form names =
        put endpoint
          (object (
            ("ids", arr (items (map str ids)))
            ∷ ("data", str (text form))
            ∷ ("fields", arr (items (map str names)))
            ∷ []))
          undefined no_options

    unfoldable pub delete_list : List String → Outcome (Option ResponseBody)
    unfolding del
    delete_list ids =
        del endpoint (object (("ids", arr (items (map str ids))) ∷ [])) undefined no_options
