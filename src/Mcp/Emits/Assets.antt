-- ===== src/Mcp/Emits/Assets.antt =====
-- What the calls of Mcp/Calls/AssetCalls.antt send.
use astiango_hub.Mcp.Session.{AstianGoHubClient, Request}
use astiango_hub.Mcp.Tools.Projects
use astiango_hub.Mcp.Tools.Databases
use astiango_hub.Mcp.Tools.Git
use astiango_hub.Mcp.Client.Assets
use astiango_hub.Mcp.Emits.{
  Emits, Emits-handler, Emits-show_reply, Emits-report, Emits-confirmed, Allows, Passes,
}
use astiango_hub.Mcp.Calls.AssetCalls.{
  ProjectCall, run_project_call, project_verb, project_confirmation, DatabaseCall,
  run_database_call, database_verb, database_confirmation, GitCall, run_git_call, git_verb,
  git_confirmation, list_projects, get_project, create_project, update_project, delete_project,
  list_databases, get_database, create_database, update_database, delete_database,
  test_database_connection, list_git_repos, get_git_repo, create_git_repo, update_git_repo,
  delete_git_repo, clone_git_repo, pull_git_repo,
}

module _ {P : AstianGoHubClient → Request → Type 0} where
  pub run_project_call-Emits :
      (t : ProjectCall)
      → (Passes (project_confirmation t) → Allows P (project_verb t))
      → Emits P (run_project_call t)
  unfolding run_project_call project_verb project_confirmation Projects.list_projects
      Projects.get_project Projects.create_project Projects.update_project Projects.delete_project
      Assets.create_project Assets.delete_project Assets.get_project Assets.get_projects
      Assets.update_project
  run_project_call-Emits (list_projects page size) h = Emits-show_reply _ _ (h tt _ _)
  run_project_call-Emits (get_project project_id) h = Emits-show_reply _ _ (h tt _ _)
  run_project_call-Emits (create_project name description) h = Emits-show_reply _ _ (h tt _ _)
  run_project_call-Emits (update_project project_id name description) h =
      Emits-show_reply _ _ (h tt _ _)
  run_project_call-Emits (delete_project project_id confirmation) h =
      Emits-report _ _ _ (Emits-confirmed _ _ _ _ (λ e. h e _))

  pub run_database_call-Emits :
      (t : DatabaseCall)
      → (Passes (database_confirmation t) → Allows P (database_verb t))
      → Emits P (run_database_call t)
  unfolding run_database_call database_verb database_confirmation Databases.list_databases
      Databases.get_database Databases.create_database Databases.update_database
      Databases.delete_database Databases.test_database_connection Assets.create_database
      Assets.delete_database Assets.get_database Assets.get_databases
      Assets.test_database_connection Assets.update_database
  run_database_call-Emits (list_databases page size) h = Emits-show_reply _ _ (h tt _ _)
  run_database_call-Emits (get_database database_id) h = Emits-show_reply _ _ (h tt _ _)
  run_database_call-Emits
        (create_database name description data_source host port database username password uri) h =
      Emits-show_reply _ _ (h tt _ _)
  run_database_call-Emits
        (update_database database_id name description data_source host port database username
          password uri)
        h =
      Emits-show_reply _ _ (h tt _ _)
  run_database_call-Emits (delete_database database_id confirmation) h =
      Emits-report _ _ _ (Emits-confirmed _ _ _ _ (λ e. h e _))
  run_database_call-Emits (test_database_connection database_id) h = Emits-handler _ _ _ (h tt _ _)

  pub run_git_call-Emits :
      (t : GitCall)
      → (Passes (git_confirmation t) → Allows P (git_verb t))
      → Emits P (run_git_call t)
  unfolding run_git_call git_verb git_confirmation Git.list_git_repos Git.get_git_repo
      Git.create_git_repo Git.update_git_repo Git.delete_git_repo Git.clone_git_repo
      Git.pull_git_repo Assets.clone_git_repo Assets.create_git_repo Assets.delete_git_repo
      Assets.get_git_repo Assets.get_git_repos Assets.pull_git_repo Assets.update_git_repo
  run_git_call-Emits (list_git_repos page size) h = Emits-show_reply _ _ (h tt _ _)
  run_git_call-Emits (get_git_repo git_id) h = Emits-show_reply _ _ (h tt _ _)
  run_git_call-Emits (create_git_repo name url auth_type username password) h =
      Emits-show_reply _ _ (h tt _ _)
  run_git_call-Emits (update_git_repo git_id name url auth_type username password) h =
      Emits-show_reply _ _ (h tt _ _)
  run_git_call-Emits (delete_git_repo git_id confirmation) h =
      Emits-report _ _ _ (Emits-confirmed _ _ _ _ (λ e. h e _))
  run_git_call-Emits (clone_git_repo git_id) h = Emits-report _ _ _ (h tt _ _)
  run_git_call-Emits (pull_git_repo git_id) h = Emits-report _ _ _ (h tt _ _)
