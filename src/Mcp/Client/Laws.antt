-- ===== src/Mcp/Client/Laws.antt =====
-- The base URL and the health check.
use Prim.Native.String.{◌++◌}
use text.Mathlib.TextLemmas.{cons-append}
use mathlib.Core.List.{◌++◌ as list_append}
use astiango_hub.Mcp.Session.{
  AstianGoHubClient, Request, Reply, response, failure, outcome, settle, send, is_refused,
  try_catch,
}
use astiango_hub.Mcp.Json.{Json, undefined}
use astiango_hub.Mcp.Security.{is_read_only_method}
use astiango_hub.Mcp.Client.{strip_slash, new_client, request}
use astiango_hub.Mcp.Client.Assets.{health_check}
use astiango_hub.Common.{
  ℕ, String, ◌≡◌, refl, sym, ap, ◌∙◌, ◌↔◌, Bool, true, false, Option, List, [], ◌∷◌, arith, ◌==◌,
  ==_iff,
}

strip_slash-append_slash : (s : String) → strip_slash (s ++ "/") ≡ s
unfolding strip_slash
strip_slash-append_slash String.[] = refl
strip_slash-append_slash (String.◌∷◌ c String.[]) = rw (cons-append c "" "/") refl
strip_slash-append_slash (String.◌∷◌ c (String.◌∷◌ d s)) = rw (cons-append c (String.◌∷◌ d s) "/") (
    rw (cons-append d s "/") (
      ap (λ z. String.◌∷◌ c z)
        (sym (ap strip_slash (cons-append d s "/")) ∙ strip_slash-append_slash (String.◌∷◌ d s))))

-- One slash at the end of the URL that a client is made with is not part of its base URL, whatever
-- the URL before that slash is.
pub new_client-slash :
    (url : String) (token : Option String) (timeout : ℕ) (allow : Bool)
    (transport : List Request → Request → Reply)
    → (new_client (url ++ "/") token timeout allow transport).base_url ≡ url
unfolding new_client
new_client-slash url token timeout allow transport = strip_slash-append_slash url

-- The request of the health check.
abbrev pub health_request : Request
health_request = request "get" "/health" undefined undefined

health-passes : (c : AstianGoHubClient) → is_refused c health_request ≡ false
unfolding is_refused is_read_only_method
health-passes c = ground arith

healthy_iff :
    (r : Reply)
    → (settle (outcome r) (λ (status, _). status == 200) (λ _. false) ≡ true)
      ↔ ((body : Json) × (r ≡ response 200 body))
healthy_iff (response status body) =
    (λ e. (body, ap (λ s. response s body) ((==_iff status 200).0 e)), λ (b, p). ground arith)
healthy_iff (failure e message) = (λ e. cc, λ (b, p). cc)

send-health :
    (c : AstianGoHubClient) (log : List Request)
    → send health_request c log
      ≡ (outcome (c.transport log health_request), list_append log (health_request ∷ []))
unfolding send
send-health c log = rw (health-passes c)

-- The hub counts as healthy exactly when it answers the health request with the status 200; an error
-- of any kind means that it is not, and the request is sent whether or not mutations are allowed.
pub health_check_iff :
    (c : AstianGoHubClient) (log : List Request)
    → (((health_check c log).0 ≡ true)
        ↔ ((body : Json) × (c.transport log health_request ≡ response 200 body)))
      × ((health_check c log).1 ≡ list_append log (health_request ∷ []))
unfolding health_check try_catch
health_check_iff c log = rw (send-health c log) (healthy_iff (c.transport log health_request), refl)
