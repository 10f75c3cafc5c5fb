-- ===== src/Mcp/Confirmation/Tools.antt =====
-- The destructive tools one by one.
use Prim.Native.String.{◌++◌ as concat}
use astiango_hub.Mcp.Session.{AstianGoHubClient, Request, Action, is_refused}
use astiango_hub.Mcp.Security.{expected_confirmation}
use astiango_hub.Mcp.Json.{Json, undefined}
use astiango_hub.Mcp.Client.{call, request, post, delete}
use astiango_hub.Mcp.Tools.{confirmed, report}
use astiango_hub.Mcp.Tools.Spiders
use astiango_hub.Mcp.Tools.Tasks
use astiango_hub.Mcp.Tools.Nodes
use astiango_hub.Mcp.Tools.Schedules
use astiango_hub.Mcp.Tools.Projects
use astiango_hub.Mcp.Tools.Databases
use astiango_hub.Mcp.Tools.Git
use astiango_hub.Mcp.Client.Crawling
use astiango_hub.Mcp.Client.Assets
use astiango_hub.Mcp.Calls.CrawlingCalls.{
  spider_confirmation, task_confirmation, node_confirmation, schedule_confirmation, run_spider_call,
  run_task_call, run_node_call, run_schedule_call, SpiderCall, TaskCall, NodeCall, ScheduleCall,
}
use astiango_hub.Mcp.Calls.AssetCalls.{
  project_confirmation, database_confirmation, git_confirmation, run_project_call,
  run_database_call, run_git_call, ProjectCall, DatabaseCall, GitCall,
}
use astiango_hub.Mcp.Calls.AiCalls.{
  stats_confirmation, ai_confirmation, run_ai_call, run_stats_call, AiCall, StatsCall,
}
use astiango_hub.Mcp.Emits.{Passes}
use astiango_hub.Common.{String, ◌≡◌, ◌∙◌, ◌≢◌, true, List, [], ◌∷◌, ◌++◌, arith, eq_iff}

module _ (prefix confirmation action id : String) (done : String) (m : Action Json) where
  report_refused :
      confirmation ≢ expected_confirmation action id
      → (c : AstianGoHubClient) (log : List Request)
      → ((report prefix (confirmed confirmation action id m) done c log).0.is_error ≡ true)
        × ((report prefix (confirmed confirmation action id m) done c log).1 ≡ log)
  unfolding report confirmed
  report_refused h c log = ground (arith, eq_iff confirmation (expected_confirmation action id))

  report-confirmed :
      confirmation ≡ expected_confirmation action id
      → (c : AstianGoHubClient) (log : List Request)
      → (report prefix (confirmed confirmation action id m) done c log).1 ≡ (m c log).1
  unfolding report confirmed
  report-confirmed h c log = ground (arith, eq_iff confirmation (expected_confirmation action id))

pub log-call :
    (r : Request) (c : AstianGoHubClient) (log : List Request)
    → c.allow_mutations ≡ true
    → (call r c log).1 ≡ log ++ r ∷ []
unfolding call is_refused
log-call r c log on = ground arith

pub spider_refused :
    (t : SpiderCall)
    → ¬ Passes (spider_confirmation t)
    → (c : AstianGoHubClient) (log : List Request)
    → ((run_spider_call t c log).0.is_error ≡ true) × ((run_spider_call t c log).1 ≡ log)
unfolding run_spider_call spider_confirmation Spiders.delete_spider
spider_refused (SpiderCall.delete_spider id confirmation) h c log =
    report_refused _ confirmation _ id _ _ h c log
spider_refused _ h c log = absurd (h tt)

pub task_refused :
    (t : TaskCall)
    → ¬ Passes (task_confirmation t)
    → (c : AstianGoHubClient) (log : List Request)
    → ((run_task_call t c log).0.is_error ≡ true) × ((run_task_call t c log).1 ≡ log)
unfolding run_task_call task_confirmation Tasks.cancel_task Tasks.delete_task
task_refused (TaskCall.cancel_task id confirmation) h c log =
    report_refused _ confirmation _ id _ _ h c log
task_refused (TaskCall.delete_task id confirmation) h c log =
    report_refused _ confirmation _ id _ _ h c log
task_refused _ h c log = absurd (h tt)

pub node_refused :
    (t : NodeCall)
    → ¬ Passes (node_confirmation t)
    → (c : AstianGoHubClient) (log : List Request)
    → ((run_node_call t c log).0.is_error ≡ true) × ((run_node_call t c log).1 ≡ log)
unfolding run_node_call node_confirmation Nodes.disable_node
node_refused (NodeCall.disable_node id confirmation) h c log =
    report_refused _ confirmation _ id _ _ h c log
node_refused _ h c log = absurd (h tt)

pub schedule_refused :
    (t : ScheduleCall)
    → ¬ Passes (schedule_confirmation t)
    → (c : AstianGoHubClient) (log : List Request)
    → ((run_schedule_call t c log).0.is_error ≡ true) × ((run_schedule_call t c log).1 ≡ log)
unfolding run_schedule_call schedule_confirmation Schedules.delete_schedule
    Schedules.disable_schedule
schedule_refused (ScheduleCall.delete_schedule id confirmation) h c log =
    report_refused _ confirmation _ id _ _ h c log
schedule_refused (ScheduleCall.disable_schedule id confirmation) h c log =
    report_refused _ confirmation _ id _ _ h c log
schedule_refused _ h c log = absurd (h tt)

pub project_refused :
    (t : ProjectCall)
    → ¬ Passes (project_confirmation t)
    → (c : AstianGoHubClient) (log : List Request)
    → ((run_project_call t c log).0.is_error ≡ true) × ((run_project_call t c log).1 ≡ log)
unfolding run_project_call project_confirmation Projects.delete_project
project_refused (ProjectCall.delete_project id confirmation) h c log =
    report_refused _ confirmation _ id _ _ h c log
project_refused _ h c log = absurd (h tt)

pub database_refused :
    (t : DatabaseCall)
    → ¬ Passes (database_confirmation t)
    → (c : AstianGoHubClient) (log : List Request)
    → ((run_database_call t c log).0.is_error ≡ true) × ((run_database_call t c log).1 ≡ log)
unfolding run_database_call database_confirmation Databases.delete_database
database_refused (DatabaseCall.delete_database id confirmation) h c log =
    report_refused _ confirmation _ id _ _ h c log
database_refused _ h c log = absurd (h tt)

pub git_refused :
    (t : GitCall)
    → ¬ Passes (git_confirmation t)
    → (c : AstianGoHubClient) (log : List Request)
    → ((run_git_call t c log).0.is_error ≡ true) × ((run_git_call t c log).1 ≡ log)
unfolding run_git_call git_confirmation Git.delete_git_repo
git_refused (GitCall.delete_git_repo id confirmation) h c log =
    report_refused _ confirmation _ id _ _ h c log
git_refused _ h c log = absurd (h tt)

pub ai_refused :
    (t : AiCall)
    → ¬ Passes (ai_confirmation t)
    → (c : AstianGoHubClient) (log : List Request)
    → ((run_ai_call t c log).0.is_error ≡ true) × ((run_ai_call t c log).1 ≡ log)
unfolding run_ai_call ai_confirmation astiango_hub.Mcp.Tools.Ai.delete_llm_provider
ai_refused (AiCall.delete_llm_provider id confirmation) h c log =
    report_refused _ confirmation _ id _ _ h c log
ai_refused _ h c log = absurd (h tt)

pub stats_refused :
    (t : StatsCall)
    → ¬ Passes (stats_confirmation t)
    → (c : AstianGoHubClient) (log : List Request)
    → ((run_stats_call t c log).0.is_error ≡ true) × ((run_stats_call t c log).1 ≡ log)
unfolding stats_confirmation
stats_refused (StatsCall.get_spider_stats id) h c log = absurd (h tt)
stats_refused _ h c log = absurd (h tt)

module _ (id confirmation : String) (c : AstianGoHubClient) (log : List Request) where
  pub delete_spider_sends :
      confirmation ≡ expected_confirmation "DELETE" id
      → c.allow_mutations ≡ true
      → (run_spider_call (SpiderCall.delete_spider id confirmation) c log).1
        ≡ log ++ request "delete" (concat "/spiders/" id) undefined undefined ∷ []
  unfolding run_spider_call Spiders.delete_spider Crawling.delete_spider delete
  delete_spider_sends p on = report-confirmed _ _ _ id _ _ p c log ∙ log-call _ c log on

  pub cancel_task_sends :
      confirmation ≡ expected_confirmation "CANCEL" id
      → c.allow_mutations ≡ true
      → (run_task_call (TaskCall.cancel_task id confirmation) c log).1
        ≡ log ++ request "post" (concat "/tasks/" (concat id "/cancel")) undefined undefined ∷ []
  unfolding run_task_call Tasks.cancel_task Crawling.cancel_task post
  cancel_task_sends p on = report-confirmed _ _ _ id _ _ p c log ∙ log-call _ c log on

  pub delete_task_sends :
      confirmation ≡ expected_confirmation "DELETE" id
      → c.allow_mutations ≡ true
      → (run_task_call (TaskCall.delete_task id confirmation) c log).1
        ≡ log ++ request "delete" (concat "/tasks/" id) undefined undefined ∷ []
  unfolding run_task_call Tasks.delete_task Crawling.delete_task delete
  delete_task_sends p on = report-confirmed _ _ _ id _ _ p c log ∙ log-call _ c log on

  pub disable_node_sends :
      confirmation ≡ expected_confirmation "DISABLE" id
      → c.allow_mutations ≡ true
      → (run_node_call (NodeCall.disable_node id confirmation) c log).1
        ≡ log ++ request "post" (concat "/nodes/" (concat id "/disable")) undefined undefined ∷ []
  unfolding run_node_call Nodes.disable_node Crawling.disable_node post
  disable_node_sends p on = report-confirmed _ _ _ id _ _ p c log ∙ log-call _ c log on

  pub delete_schedule_sends :
      confirmation ≡ expected_confirmation "DELETE" id
      → c.allow_mutations ≡ true
      → (run_schedule_call (ScheduleCall.delete_schedule id confirmation) c log).1
        ≡ log ++ request "delete" (concat "/schedules/" id) undefined undefined ∷ []
  unfolding run_schedule_call Schedules.delete_schedule Crawling.delete_schedule delete
  delete_schedule_sends p on = report-confirmed _ _ _ id _ _ p c log ∙ log-call _ c log on

  pub disable_schedule_sends :
      confirmation ≡ expected_confirmation "DISABLE" id
      → c.allow_mutations ≡ true
      → (run_schedule_call (ScheduleCall.disable_schedule id confirmation) c log).1
        ≡ log
          ++ request "post" (concat "/schedules/" (concat id "/disable")) undefined undefined ∷ []
  unfolding run_schedule_call Schedules.disable_schedule Crawling.disable_schedule post
  disable_schedule_sends p on = report-confirmed _ _ _ id _ _ p c log ∙ log-call _ c log on

  pub delete_project_sends :
      confirmation ≡ expected_confirmation "DELETE" id
      → c.allow_mutations ≡ true
      → (run_project_call (ProjectCall.delete_project id confirmation) c log).1
        ≡ log ++ request "delete" (concat "/projects/" id) undefined undefined ∷ []
  unfolding run_project_call Projects.delete_project Assets.delete_project delete
  delete_project_sends p on = report-confirmed _ _ _ id _ _ p c log ∙ log-call _ c log on

  pub delete_database_sends :
      confirmation ≡ expected_confirmation "DELETE" id
      → c.allow_mutations ≡ true
      → (run_database_call (DatabaseCall.delete_database id confirmation) c log).1
        ≡ log ++ request "delete" (concat "/databases/" id) undefined undefined ∷ []
  unfolding run_database_call Databases.delete_database Assets.delete_database delete
  delete_database_sends p on = report-confirmed _ _ _ id _ _ p c log ∙ log-call _ c log on

  pub delete_git_repo_sends :
      confirmation ≡ expected_confirmation "DELETE" id
      → c.allow_mutations ≡ true
      → (run_git_call (GitCall.delete_git_repo id confirmation) c log).1
        ≡ log ++ request "delete" (concat "/gits/" id) undefined undefined ∷ []
  unfolding run_git_call Git.delete_git_repo Assets.delete_git_repo delete
  delete_git_repo_sends p on = report-confirmed _ _ _ id _ _ p c log ∙ log-call _ c log on

  pub delete_llm_provider_sends :
      confirmation ≡ expected_confirmation "DELETE" id
      → c.allow_mutations ≡ true
      → (run_ai_call (AiCall.delete_llm_provider id confirmation) c log).1
        ≡ log ++ request "delete" (concat "/ai/llm/providers/" id) undefined undefined ∷ []
  unfolding run_ai_call astiango_hub.Mcp.Tools.Ai.delete_llm_provider
      astiango_hub.Mcp.Client.Ai.delete_llm_provider delete
  delete_llm_provider_sends p on = report-confirmed _ _ _ id _ _ p c log ∙ log-call _ c log on
