-- ===== src/Mcp/Deletes.antt =====
-- The DELETE requests of the tools of mcp/src/tools.
use astiango_hub.Mcp.Session.{AstianGoHubClient, Request}
use astiango_hub.Mcp.Verb.{Verb}
use astiango_hub.Mcp.Security.{expected_confirmation}
use astiango_hub.Mcp.Client.{get, post, put, patch, delete}
use astiango_hub.Mcp.Calls.{
  ToolCall, run_call, verb_of, confirmation_of, spider, task, node, schedule, system, project,
  database, git, stats, ai,
}
use astiango_hub.Mcp.Calls.CrawlingCalls.{
  spider_verb, spider_confirmation, task_verb, task_confirmation, node_verb, node_confirmation,
  schedule_verb, schedule_confirmation, SpiderCall, TaskCall, NodeCall, ScheduleCall,
}
use astiango_hub.Mcp.Calls.AssetCalls.{
  project_verb, project_confirmation, database_verb, database_confirmation, git_verb,
  git_confirmation, ProjectCall, DatabaseCall, GitCall,
}
use astiango_hub.Mcp.Calls.AiCalls.{
  stats_verb, stats_confirmation, ai_verb, ai_confirmation, AiCall, StatsCall,
}
use astiango_hub.Mcp.Emits.{Emits-call, Allows, Passes}
use astiango_hub.Mcp.Emits.AnyCall.{run_call-Emits}
use astiango_hub.Common.{
  String, ◌≡◌, refl, ◌⊎◌, inl, inr, Bool, false, Option, none, some, List, ◌++◌, str_eq, All,
}

-- The request deletes a resource.
abbrev pub is_delete : Request → Bool
is_delete r = str_eq r.method "delete"

-- The call has given the text that confirms the deletion of its resource.
abbrev pub ConfirmsDelete : Option (String × String × String) → Type 0
ConfirmsDelete none = ⊥
ConfirmsDelete (some (confirmation, action, id)) =
    (action ≡ "DELETE") × (confirmation ≡ expected_confirmation "DELETE" id)

abbrev Guarded : ToolCall → AstianGoHubClient → Request → Type 0
Guarded t c r = (is_delete r ≡ false) ⊎ ConfirmsDelete (confirmation_of t)

spider-delete_confirms :
    (t : SpiderCall)
    → spider_verb t ≡ Verb.delete
    → Passes (spider_confirmation t)
    → ConfirmsDelete (spider_confirmation t)
unfolding spider_verb spider_confirmation
spider-delete_confirms (SpiderCall.delete_spider id confirmation) v p = (refl, p)
spider-delete_confirms _ v p = cc

task-delete_confirms :
    (t : TaskCall)
    → task_verb t ≡ Verb.delete
    → Passes (task_confirmation t)
    → ConfirmsDelete (task_confirmation t)
unfolding task_verb task_confirmation
task-delete_confirms (TaskCall.delete_task id confirmation) v p = (refl, p)
task-delete_confirms _ v p = cc

node-delete_confirms :
    (t : NodeCall)
    → node_verb t ≡ Verb.delete
    → Passes (node_confirmation t)
    → ConfirmsDelete (node_confirmation t)
unfolding node_verb node_confirmation
node-delete_confirms (NodeCall.list_nodes page size) v p = cc
node-delete_confirms _ v p = cc

schedule-delete_confirms :
    (t : ScheduleCall)
    → schedule_verb t ≡ Verb.delete
    → Passes (schedule_confirmation t)
    → ConfirmsDelete (schedule_confirmation t)
unfolding schedule_verb schedule_confirmation
schedule-delete_confirms (ScheduleCall.delete_schedule id confirmation) v p = (refl, p)
schedule-delete_confirms _ v p = cc

project-delete_confirms :
    (t : ProjectCall)
    → project_verb t ≡ Verb.delete
    → Passes (project_confirmation t)
    → ConfirmsDelete (project_confirmation t)
unfolding project_verb project_confirmation
project-delete_confirms (ProjectCall.delete_project id confirmation) v p = (refl, p)
project-delete_confirms _ v p = cc

database-delete_confirms :
    (t : DatabaseCall)
    → database_verb t ≡ Verb.delete
    → Passes (database_confirmation t)
    → ConfirmsDelete (database_confirmation t)
unfolding database_verb database_confirmation
database-delete_confirms (DatabaseCall.delete_database id confirmation) v p = (refl, p)
database-delete_confirms _ v p = cc

git-delete_confirms :
    (t : GitCall)
    → git_verb t ≡ Verb.delete
    → Passes (git_confirmation t)
    → ConfirmsDelete (git_confirmation t)
unfolding git_verb git_confirmation
git-delete_confirms (GitCall.delete_git_repo id confirmation) v p = (refl, p)
git-delete_confirms _ v p = cc

stats-delete_confirms :
    (t : StatsCall)
    → stats_verb t ≡ Verb.delete
    → Passes (stats_confirmation t)
    → ConfirmsDelete (stats_confirmation t)
unfolding stats_verb stats_confirmation
stats-delete_confirms (StatsCall.get_spider_stats id) v p = cc
stats-delete_confirms _ v p = cc

ai-delete_confirms :
    (t : AiCall)
    → ai_verb t ≡ Verb.delete
    → Passes (ai_confirmation t)
    → ConfirmsDelete (ai_confirmation t)
unfolding ai_verb ai_confirmation
ai-delete_confirms (AiCall.delete_llm_provider id confirmation) v p = (refl, p)
ai-delete_confirms _ v p = cc

delete-confirms :
    (t : ToolCall)
    → verb_of t ≡ Verb.delete
    → Passes (confirmation_of t)
    → ConfirmsDelete (confirmation_of t)
unfolding verb_of confirmation_of
delete-confirms (spider t) v p = spider-delete_confirms t v p
delete-confirms (task t) v p = task-delete_confirms t v p
delete-confirms (node t) v p = node-delete_confirms t v p
delete-confirms (schedule t) v p = schedule-delete_confirms t v p
delete-confirms (project t) v p = project-delete_confirms t v p
delete-confirms (database t) v p = database-delete_confirms t v p
delete-confirms (git t) v p = git-delete_confirms t v p
delete-confirms (stats t) v p = stats-delete_confirms t v p
delete-confirms (ai t) v p = ai-delete_confirms t v p
delete-confirms (system t) v p = cc

Allows-Guarded :
    (t : ToolCall) (v : Verb)
    → (v ≡ Verb.delete → ConfirmsDelete (confirmation_of t))
    → Allows (Guarded t) v
unfolding get post put patch delete
Allows-Guarded t Verb.get h = λ path a. Emits-call _ (λ c _. inl refl)
Allows-Guarded t Verb.post h = λ path a. Emits-call _ (λ c _. inl refl)
Allows-Guarded t Verb.put h = λ path a. Emits-call _ (λ c _. inl refl)
Allows-Guarded t Verb.patch h = λ path a. Emits-call _ (λ c _. inl refl)
Allows-Guarded t Verb.delete h = λ path. Emits-call _ (λ c _. inr (h refl))

-- A tool call sends a DELETE request only if it was given the text "DELETE:" followed by the
-- identifier of its resource.
pub delete_needs_confirmation :
    (t : ToolCall) (c : AstianGoHubClient) (log : List Request)
    → (sent : List Request) × ((run_call t c log).1 ≡ log ++ sent)
      × All (λ r. (is_delete r ≡ false) ⊎ ConfirmsDelete (confirmation_of t)) sent
delete_needs_confirmation t c log =
    (run_call-Emits {P = Guarded t} t
        (λ p. Allows-Guarded t (verb_of t) (λ v. delete-confirms t v p))).at
      c log
