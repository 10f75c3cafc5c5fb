-- ===== src/Mcp/Tools/System.antt =====
-- The handlers of mcp/src/tools/system.ts, which make several requests. `now` is the time that the
-- handler reads. The requests of one `Promise.all` reach the server in the order of the list.
pub mod Counts
use Prim.Native.String.{◌++◌}
use astiango_hub.Mcp.Tools.{Handler, handler, show_reply, member, or_else, pretty}
use astiango_hub.Mcp.Session.{
  Request, AstianGoHubClient, Outcome, Action, pure, raise, ◌>>=◌, ok, throw,
}
use astiango_hub.Mcp.Json.{Json, undefined, null, str, num, bool, arr}
use astiango_hub.Mcp.Json.{elements, object, truthy}
use astiango_hub.Mcp.Client.Crawling
use astiango_hub.Mcp.Client.Assets
use astiango_hub.Common.{
  ℕ, ◌+◌, String, Bool, true, false, not, List, [], ◌∷◌, str_eq, if◌then◌else◌,
}

-- `Promise.all`: every request is made, whatever comes of the others.
abbrev pub join : {A B : Type 0} → Outcome A → Outcome B → Outcome (A × B)
join (ok a) (ok b) = ok (a, b)
join (throw e) _ = throw e
join (ok a) (throw e) = throw e

unfoldable pub both : {A B : Type 0} → Action A → Action B → Action (A × B)
both m n c log = let (r, log') = m c log in let (q, log'') = n c log' in (join r q, log'')

-- An action that never throws, as a step of others.
unfoldable pub settled :
    {A : Type 0} → (AstianGoHubClient → List Request → A × List Request) → Action A
settled m c log = let (a, log') = m c log in (ok a, log')

-- `v.total || 0`
unfoldable pub total_of : Json → Action Json
unfolding or_else
total_of reply = member "total" reply >>= λ v. pure (or_else v (num 0))

-- `xs.filter(test).length`
unfoldable pub count_elements : (Json → Action Bool) → List Json → Action ℕ
count_elements test [] = pure 0
count_elements test (x ∷ xs) =
    test x >>= λ keep. count_elements test xs >>= λ n. pure (if keep then n + 1 else n)

-- `name.data?.filter(test).length || 0`
unfoldable pub count_data : String → (Json → Action Bool) → Json → Action Json
count_data name test undefined = pure (num 0)
count_data name test null = pure (num 0)
count_data name test (arr xs) = count_elements test (elements xs) >>= λ n. pure (num n)
count_data name test _ = raise (name ++ ".data?.filter is not a function")

unfoldable pub count_of : String → (Json → Action Bool) → Json → Action Json
count_of name test reply = member "data" reply >>= count_data name test

abbrev is_text : String → Json → Bool
is_text s (str t) = str_eq s t
is_text s _ = false

-- `x => x.status === s`
unfoldable pub has_status : String → Json → Action Bool
has_status s x = member "status" x >>= λ v. pure (is_text s v)

-- `x => x.k` and `x => !x.k`
unfoldable pub has_flag : String → Json → Action Bool
unfolding truthy
has_flag k x = member k x >>= λ v. pure (truthy v)

unfoldable pub lacks_flag : String → Json → Action Bool
unfolding truthy
lacks_flag k x = member k x >>= λ v. pure (not (truthy v))

abbrev page_of : ℕ → Json
page_of size = object (("page", num 1) ∷ ("size", num size) ∷ [])

abbrev status_text : Bool → String
status_text true = "System is healthy and reachable"
status_text false = "System is not reachable"

unfoldable pub health_check : String → Handler
health_check now =
    handler "Error checking system health: " (settled Assets.health_check) (λ healthy. pretty "" (
      object (
        ("healthy", bool healthy)
        ∷ ("status", str (status_text healthy))
        ∷ ("timestamp", str now)
        ∷ [])))

-- The counts by status, in the order in which the handler lists them.
unfoldable pub count_statuses : String → List String → Json → Action (List (String × Json))
count_statuses name [] reply = pure []
count_statuses name (s ∷ rest) reply = count_of name (has_status s) reply >>= λ n.
    count_statuses name rest reply >>= λ more. pure ((s, n) ∷ more)

unfoldable pub node_counts : Json → Action Json
node_counts nodes = do
  total ← total_of nodes
  counts ← count_statuses "nodesResponse" ("online" ∷ "offline" ∷ []) nodes
  pure (object (("total", total) ∷ counts))

unfoldable pub schedule_counts : Json → Action Json
schedule_counts schedules = do
  total ← total_of schedules
  enabled ← count_of "schedulesResponse" (has_flag "enabled") schedules
  disabled ← count_of "schedulesResponse" (lacks_flag "enabled") schedules
  pure (object (("total", total) ∷ ("enabled", enabled) ∷ ("disabled", disabled) ∷ []))

unfoldable pub status_summary : String → Action Json
status_summary now = do
  (nodes, (tasks, schedules)) ←
      both (Crawling.get_nodes (page_of 50))
        (both (Crawling.get_tasks (page_of 20)) (Crawling.get_schedules (page_of 50)))
  node_part ← node_counts nodes
  task_total ← total_of tasks
  task_counts ←
      count_statuses "tasksResponse"
        ("running" ∷ "pending" ∷ "assigned" ∷ "finished" ∷ "error" ∷ "cancelled" ∷ "abnormal" ∷ [])
        tasks
  schedule_part ← schedule_counts schedules
  health ← settled Assets.health_check
  pure (
      object (
        ("timestamp", str now)
        ∷ ("nodes", node_part)
        ∷ ("tasks", object (("total_recent", task_total) ∷ task_counts))
        ∷ ("schedules", schedule_part)
        ∷ ("health", bool health)
        ∷ []))

unfoldable pub system_status : String → Handler
system_status now = show_reply "Error getting system status: " (status_summary now)

unfoldable pub totals : Json → Json → Json → Json → Json → Action Json
totals projects spiders nodes tasks schedules = do
  p ← total_of projects
  s ← total_of spiders
  n ← total_of nodes
  t ← total_of tasks
  e ← total_of schedules
  pure (
      object (
        ("projects", p)
        ∷ ("spiders", s)
        ∷ ("nodes", n)
        ∷ ("recent_tasks", t)
        ∷ ("schedules", e)
        ∷ []))

unfoldable pub nodes_detail : Json → Action Json
nodes_detail nodes = do
  total ← total_of nodes
  master ← count_of "nodesResponse" (has_flag "is_master") nodes
  worker ← count_of "nodesResponse" (lacks_flag "is_master") nodes
  active ← count_of "nodesResponse" (has_flag "active") nodes
  enabled ← count_of "nodesResponse" (has_flag "enabled") nodes
  pure (
      object (
        ("total", total)
        ∷ ("master_nodes", master)
        ∷ ("worker_nodes", worker)
        ∷ ("active", active)
        ∷ ("enabled", enabled)
        ∷ []))

unfoldable pub overview : String → Action Json
overview now = do
  (projects, (spiders, (nodes, (tasks, schedules)))) ← both (Assets.get_projects (page_of 100)) (
      both (Crawling.get_spiders (page_of 100)) (
        both (Crawling.get_nodes (page_of 50))
          (both (Crawling.get_tasks (page_of 50)) (Crawling.get_schedules (page_of 100)))))
  health ← settled Assets.health_check
  summary ← totals projects spiders nodes tasks schedules
  node_part ← nodes_detail nodes
  task_counts ←
      count_statuses "tasksResponse"
        ("pending" ∷ "assigned" ∷ "running" ∷ "finished" ∷ "error" ∷ "cancelled" ∷ "abnormal" ∷ [])
        tasks
  schedule_part ← schedule_counts schedules
  pure (
      object (
        ("timestamp", str now)
        ∷ ("system_health", bool health)
        ∷ ("summary", summary)
        ∷ ("nodes_detail", node_part)
        ∷ ("tasks_detail", object (("by_status", object task_counts) ∷ []))
        ∷ ("schedules_detail", schedule_part)
        ∷ []))

unfoldable pub get_system_overview : String → Handler
get_system_overview now = show_reply "Error getting system overview: " (overview now)
