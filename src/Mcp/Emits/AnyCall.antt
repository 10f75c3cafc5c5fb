-- ===== src/Mcp/Emits/AnyCall.antt =====
-- What any tool call sends: requests of its verb, once its confirmation is right.
use astiango_hub.Mcp.Session.{AstianGoHubClient, Request}
use astiango_hub.Mcp.Calls.{
  ToolCall, run_call, verb_of, confirmation_of, spider, task, node, schedule, system, project,
  database, git, stats, ai,
}
use astiango_hub.Mcp.Emits.{Emits, Allows, Passes}
use astiango_hub.Mcp.Emits.System.{run_system_call-Emits}
use astiango_hub.Mcp.Emits.Crawling.{
  run_spider_call-Emits, run_task_call-Emits, run_node_call-Emits, run_schedule_call-Emits,
}
use astiango_hub.Mcp.Emits.Assets.{
  run_project_call-Emits, run_database_call-Emits, run_git_call-Emits,
}
use astiango_hub.Mcp.Emits.Ai.{run_stats_call-Emits, run_ai_call-Emits}

pub run_call-Emits :
    {P : AstianGoHubClient → Request → Type 0} (t : ToolCall)
    → (Passes (confirmation_of t) → Allows P (verb_of t))
    → Emits P (run_call t)
unfolding run_call verb_of confirmation_of
run_call-Emits (spider t) h = run_spider_call-Emits t h
run_call-Emits (task t) h = run_task_call-Emits t h
run_call-Emits (node t) h = run_node_call-Emits t h
run_call-Emits (schedule t) h = run_schedule_call-Emits t h
run_call-Emits (system t) h = run_system_call-Emits (h tt) t
run_call-Emits (project t) h = run_project_call-Emits t h
run_call-Emits (database t) h = run_database_call-Emits t h
run_call-Emits (git t) h = run_git_call-Emits t h
run_call-Emits (stats t) h = run_stats_call-Emits t h
run_call-Emits (ai t) h = run_ai_call-Emits t h
