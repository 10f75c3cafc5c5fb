-- ===== src/Mcp/Confirmation.antt =====
-- The confirmations of the destructive tools of mcp/src/tools: without the right one a tool sends
-- nothing, and with it one request.
pub mod Tools
use Prim.Native.String.{◌++◌ as concat}
use Tools.{
  spider_refused, task_refused, node_refused, schedule_refused, project_refused, database_refused,
  git_refused, ai_refused, stats_refused, delete_spider_sends, cancel_task_sends, delete_task_sends,
  disable_node_sends, delete_schedule_sends, disable_schedule_sends, delete_project_sends,
  delete_database_sends, delete_git_repo_sends, delete_llm_provider_sends,
}
use astiango_hub.Mcp.Session.{AstianGoHubClient, Request}
use astiango_hub.Mcp.Json.{undefined}
use astiango_hub.Mcp.Client.{request}
use astiango_hub.Mcp.Calls.{
  ToolCall, run_call, confirmation_of, spider, task, node, schedule, system, project, database, git,
  stats, ai,
}
use astiango_hub.Mcp.Calls.CrawlingCalls.{SpiderCall, TaskCall, NodeCall, ScheduleCall}
use astiango_hub.Mcp.Calls.AssetCalls.{ProjectCall, DatabaseCall, GitCall}
use astiango_hub.Mcp.Calls.AiCalls.{AiCall}
use astiango_hub.Mcp.Emits.{Passes}
use astiango_hub.Common.{◌≡◌, true, Option, none, some, List, [], ◌∷◌, ◌++◌}

-- Without the right confirmation a destructive tool returns an error and sends no request.
pub unconfirmed_refused :
    (t : ToolCall) (c : AstianGoHubClient) (log : List Request)
    → ¬ Passes (confirmation_of t)
    → ((run_call t c log).0.is_error ≡ true) × ((run_call t c log).1 ≡ log)
unfolding run_call confirmation_of
unconfirmed_refused (spider t) c log h = spider_refused t h c log
unconfirmed_refused (task t) c log h = task_refused t h c log
unconfirmed_refused (node t) c log h = node_refused t h c log
unconfirmed_refused (schedule t) c log h = schedule_refused t h c log
unconfirmed_refused (project t) c log h = project_refused t h c log
unconfirmed_refused (database t) c log h = database_refused t h c log
unconfirmed_refused (git t) c log h = git_refused t h c log
unconfirmed_refused (ai t) c log h = ai_refused t h c log
unconfirmed_refused (system t) c log h = absurd (h tt)
unconfirmed_refused (stats t) c log h = stats_refused t h c log

-- The request that a destructive tool is for.
unfoldable pub destructive_request : ToolCall → Option Request
destructive_request (spider (SpiderCall.delete_spider id _)) =
    some (request "delete" (concat "/spiders/" id) undefined undefined)
destructive_request (task (TaskCall.cancel_task id _)) =
    some (request "post" (concat "/tasks/" (concat id "/cancel")) undefined undefined)
destructive_request (task (TaskCall.delete_task id _)) =
    some (request "delete" (concat "/tasks/" id) undefined undefined)
destructive_request (node (NodeCall.disable_node id _)) =
    some (request "post" (concat "/nodes/" (concat id "/disable")) undefined undefined)
destructive_request (schedule (ScheduleCall.delete_schedule id _)) =
    some (request "delete" (concat "/schedules/" id) undefined undefined)
destructive_request (schedule (ScheduleCall.disable_schedule id _)) =
    some (request "post" (concat "/schedules/" (concat id "/disable")) undefined undefined)
destructive_request (project (ProjectCall.delete_project id _)) =
    some (request "delete" (concat "/projects/" id) undefined undefined)
destructive_request (database (DatabaseCall.delete_database id _)) =
    some (request "delete" (concat "/databases/" id) undefined undefined)
destructive_request (git (GitCall.delete_git_repo id _)) =
    some (request "delete" (concat "/gits/" id) undefined undefined)
destructive_request (ai (AiCall.delete_llm_provider id _)) =
    some (request "delete" (concat "/ai/llm/providers/" id) undefined undefined)
destructive_request _ = none

-- With the right confirmation, and mutations allowed, a destructive tool sends the one request that
-- it is for, and nothing else.
pub confirmed_sends_one :
    (t : ToolCall) (r : Request) (c : AstianGoHubClient) (log : List Request)
    → destructive_request t ≡ some r
    → Passes (confirmation_of t)
    → c.allow_mutations ≡ true
    → (run_call t c log).1 ≡ log ++ r ∷ []
unfolding destructive_request confirmation_of run_call
confirmed_sends_one (spider (SpiderCall.delete_spider id confirmation)) r c log e p on =
    cc (delete_spider_sends id confirmation c log p on)
confirmed_sends_one (task (TaskCall.cancel_task id confirmation)) r c log e p on =
    cc (cancel_task_sends id confirmation c log p on)
confirmed_sends_one (task (TaskCall.delete_task id confirmation)) r c log e p on =
    cc (delete_task_sends id confirmation c log p on)
confirmed_sends_one (node (NodeCall.disable_node id confirmation)) r c log e p on =
    cc (disable_node_sends id confirmation c log p on)
confirmed_sends_one (schedule (ScheduleCall.delete_schedule id confirmation)) r c log e p on =
    cc (delete_schedule_sends id confirmation c log p on)
confirmed_sends_one (schedule (ScheduleCall.disable_schedule id confirmation)) r c log e p on =
    cc (disable_schedule_sends id confirmation c log p on)
confirmed_sends_one (project (ProjectCall.delete_project id confirmation)) r c log e p on =
    cc (delete_project_sends id confirmation c log p on)
confirmed_sends_one (database (DatabaseCall.delete_database id confirmation)) r c log e p on =
    cc (delete_database_sends id confirmation c log p on)
confirmed_sends_one (git (GitCall.delete_git_repo id confirmation)) r c log e p on =
    cc (delete_git_repo_sends id confirmation c log p on)
confirmed_sends_one (ai (AiCall.delete_llm_provider id confirmation)) r c log e p on =
    cc (delete_llm_provider_sends id confirmation c log p on)
confirmed_sends_one t r c log e p on = cc
