-- ===== src/Mcp/Paths.antt =====
-- The paths that mcp/src/client.ts builds from identifiers, which it does not encode.
use Prim.Native.Char.{code}
use Prim.Native.String.{◌++◌}
use text.Mathlib.TextLemmas.{nil-append, cons-append, append_assoc as str_append_assoc}
use astiango_hub.Mcp.Session.{AstianGoHubClient, Request}
use astiango_hub.Mcp.Json.{undefined}
use astiango_hub.Mcp.Client.{request, post}
use astiango_hub.Mcp.Client.Crawling
use astiango_hub.Mcp.Tools.Tasks
use astiango_hub.Mcp.Calls.{run_call, task, confirmation_of}
use astiango_hub.Mcp.Calls.CrawlingCalls.{TaskCall, run_task_call, task_confirmation}
use astiango_hub.Mcp.Tools.{show_reply}
use astiango_hub.Mcp.Confirmation.Tools.{log-call}
use mathlib.Core.List.{◌++◌ as list_append}
use astiango_hub.Common.{
  String, ◌≡◌, refl, ap, ◌∙◌, true, false, none, List, [], ◌∷◌, ◌==◌, if◌then◌else◌,
}

-- What a server routes by: the path up to the query.
unfoldable pub route_path : String → String
route_path String.[] = ""
route_path (String.◌∷◌ c s) = if code c == b'?' then "" else String.◌∷◌ c (route_path s)

-- A text without a question mark.
abbrev pub NoQuery : String → Type 0
NoQuery String.[] = Unit
NoQuery (String.◌∷◌ c s) = ((code c == b'?') ≡ false) × NoQuery s

route_path-append : (s t : String) → NoQuery s → route_path (s ++ t) ≡ s ++ route_path t
unfolding route_path
route_path-append String.[] t h = rw (nil-append, nil-append)
route_path-append (String.◌∷◌ c s) t (here, h) =
    rw (cons-append c s t, cons-append c s (route_path t))
      (rw here (ap (λ z. String.◌∷◌ c z) (route_path-append s t h)))

cancel_route :
    (id : String)
    → NoQuery id
    → route_path ("/tasks/" ++ (id ++ "/cancel?") ++ "/restart") ≡ "/tasks/" ++ id ++ "/cancel"
unfolding route_path
cancel_route id h =
    route_path-append "/tasks/" ((id ++ "/cancel?") ++ "/restart")
      (refl, (refl, (refl, (refl, (refl, (refl, (refl, tt)))))))
    ∙ ap (λ z. "/tasks/" ++ z)
        (ap route_path (str_append_assoc id "/cancel?" "/restart")
          ∙ route_path-append id ("/cancel?" ++ "/restart") h)

-- For every identifier without a question mark, restarting the task "id/cancel?" is a request that the
-- client sends, where mutations are allowed, with the method and the route of the request that
-- cancels the task "id", though `cancel_task` asks for a confirmation and `restart_task` for none.
pub restart_reaches_cancel :
    (id : String) (c : AstianGoHubClient) (log : List Request)
    → NoQuery id
    → c.allow_mutations ≡ true
    → (confirmation_of (task (TaskCall.restart_task (id ++ "/cancel?"))) ≡ none)
      × ((r : Request) × ((run_call (task (TaskCall.restart_task (id ++ "/cancel?"))) c log).1
            ≡ list_append log (r ∷ []))
          × (r.method ≡ "post")
          × (route_path r.path ≡ "/tasks/" ++ id ++ "/cancel"))
unfolding confirmation_of task_confirmation run_call run_task_call Tasks.restart_task
    Crawling.restart_task post show_reply
restart_reaches_cancel id c log h on = (
  refl,
  (
    request "post" ("/tasks/" ++ (id ++ "/cancel?") ++ "/restart") undefined undefined,
    log-call _ c log on,
    refl,
    cancel_route id h,
  ),
)
