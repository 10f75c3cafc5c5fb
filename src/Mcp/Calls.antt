-- ===== src/Mcp/Calls.antt =====
-- mcp/src/tools.ts: every tool that the server registers, and a session that runs the tools which
-- it is asked to run, one after the other.
pub mod CrawlingCalls
pub mod AssetCalls
pub mod AiCalls
use CrawlingCalls.{
  SpiderCall, TaskCall, NodeCall, ScheduleCall, run_spider_call, run_task_call, run_node_call,
  run_schedule_call, spider_verb, task_verb, node_verb, schedule_verb, spider_confirmation,
  task_confirmation, node_confirmation, schedule_confirmation,
}
use AssetCalls.{
  ProjectCall, DatabaseCall, GitCall, run_project_call, run_database_call, run_git_call,
  project_verb, database_verb, git_verb, project_confirmation, database_confirmation,
  git_confirmation,
}
use AiCalls.{
  StatsCall, AiCall, SystemCall, run_stats_call, run_ai_call, run_system_call, stats_verb, ai_verb,
  stats_confirmation, ai_confirmation,
}
use astiango_hub.Mcp.Verb.{Verb}
use astiango_hub.Mcp.Session.{AstianGoHubClient, Request}
use astiango_hub.Mcp.Tools.{Handler, ToolResult}
use astiango_hub.Common.{String, Option, none, List, [], ◌∷◌}

pub data ToolCall : Type 0 where
  spider : SpiderCall → ToolCall
  task : TaskCall → ToolCall
  node : NodeCall → ToolCall
  schedule : ScheduleCall → ToolCall
  system : SystemCall → ToolCall
  project : ProjectCall → ToolCall
  database : DatabaseCall → ToolCall
  git : GitCall → ToolCall
  stats : StatsCall → ToolCall
  ai : AiCall → ToolCall

unfoldable pub run_call : ToolCall → Handler
run_call (spider t) = run_spider_call t
run_call (task t) = run_task_call t
run_call (node t) = run_node_call t
run_call (schedule t) = run_schedule_call t
run_call (system t) = run_system_call t
run_call (project t) = run_project_call t
run_call (database t) = run_database_call t
run_call (git t) = run_git_call t
run_call (stats t) = run_stats_call t
run_call (ai t) = run_ai_call t

-- The HTTP method of the requests that a call makes; the system's calls only read.
unfoldable pub verb_of : ToolCall → Verb
unfolding spider_verb task_verb node_verb schedule_verb project_verb database_verb git_verb
    stats_verb ai_verb
verb_of (spider t) = spider_verb t
verb_of (task t) = task_verb t
verb_of (node t) = node_verb t
verb_of (schedule t) = schedule_verb t
verb_of (system t) = Verb.get
verb_of (project t) = project_verb t
verb_of (database t) = database_verb t
verb_of (git t) = git_verb t
verb_of (stats t) = stats_verb t
verb_of (ai t) = ai_verb t

unfoldable pub confirmation_of : ToolCall → Option (String × String × String)
unfolding spider_confirmation task_confirmation node_confirmation schedule_confirmation
    project_confirmation database_confirmation git_confirmation stats_confirmation ai_confirmation
confirmation_of (spider t) = spider_confirmation t
confirmation_of (task t) = task_confirmation t
confirmation_of (node t) = node_confirmation t
confirmation_of (schedule t) = schedule_confirmation t
confirmation_of (system t) = none
confirmation_of (project t) = project_confirmation t
confirmation_of (database t) = database_confirmation t
confirmation_of (git t) = git_confirmation t
confirmation_of (stats t) = stats_confirmation t
confirmation_of (ai t) = ai_confirmation t

-- The results of the calls in turn, and the requests that left the process.
unfoldable pub run_calls :
    AstianGoHubClient → List ToolCall → List Request → List ToolResult × List Request
run_calls c [] log = ([], log)
run_calls c (t ∷ ts) log =
    let (r, log') = run_call t c log in let (rs, log'') = run_calls c ts log' in (r ∷ rs, log'')
