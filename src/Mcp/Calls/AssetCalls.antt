-- ===== src/Mcp/Calls/AssetCalls.antt =====
-- The calls of the tools for projects, databases and Git repositories.
use astiango_hub.Mcp.Verb.{Verb}
use astiango_hub.Mcp.Tools.{Handler, AuthType}
use astiango_hub.Mcp.Tools.Projects
use astiango_hub.Mcp.Tools.Databases
use astiango_hub.Mcp.Tools.Git
use astiango_hub.Common.{ℕ, String, Option, none, some}

pub data ProjectCall : Type 0 where
  list_projects : (page size : Option ℕ) → ProjectCall
  get_project : (project_id : String) → ProjectCall
  create_project : (name : String) (description : Option String) → ProjectCall
  update_project : (project_id : String) (name description : Option String) → ProjectCall
  delete_project : (project_id confirmation : String) → ProjectCall

unfoldable pub run_project_call : ProjectCall → Handler
run_project_call (list_projects page size) = Projects.list_projects page size
run_project_call (get_project project_id) = Projects.get_project project_id
run_project_call (create_project name description) = Projects.create_project name description
run_project_call (update_project project_id name description) =
    Projects.update_project project_id name description
run_project_call (delete_project project_id confirmation) =
    Projects.delete_project project_id confirmation

-- The HTTP method of the request that a call makes.
unfoldable pub project_verb : ProjectCall → Verb
project_verb (create_project _ _) = Verb.post
project_verb (update_project _ _ _) = Verb.put
project_verb (delete_project _ _) = Verb.delete
project_verb _ = Verb.get

-- The confirmation that a call is given, the action and the resource, for the calls that need one.
unfoldable pub project_confirmation : ProjectCall → Option (String × String × String)
project_confirmation (delete_project project_id confirmation) =
    some (confirmation, "DELETE", project_id)
project_confirmation _ = none

pub data DatabaseCall : Type 0 where
  list_databases : (page size : Option ℕ) → DatabaseCall
  get_database : (database_id : String) → DatabaseCall
  create_database :
      (name : String) (description : Option String) (data_source host : String) (port : ℕ)
      (database username password uri : Option String)
      → DatabaseCall
  update_database :
      (database_id : String) (name description data_source host : Option String) (port : Option ℕ)
      (database username password uri : Option String)
      → DatabaseCall
  delete_database : (database_id confirmation : String) → DatabaseCall
  test_database_connection : (database_id : String) → DatabaseCall

unfoldable pub run_database_call : DatabaseCall → Handler
run_database_call (list_databases page size) = Databases.list_databases page size
run_database_call (get_database database_id) = Databases.get_database database_id
run_database_call
      (create_database name description data_source host port database username password uri) =
    Databases.create_database name description data_source host port database username password uri
run_database_call
      (update_database database_id name description data_source host port database username password
        uri) =
    Databases.update_database database_id name description data_source host port database username
      password uri
run_database_call (delete_database database_id confirmation) =
    Databases.delete_database database_id confirmation
run_database_call (test_database_connection database_id) =
    Databases.test_database_connection database_id

-- The HTTP method of the request that a call makes.
unfoldable pub database_verb : DatabaseCall → Verb
database_verb (create_database _ _ _ _ _ _ _ _ _) = Verb.post
database_verb (update_database _ _ _ _ _ _ _ _ _ _) = Verb.put
database_verb (delete_database _ _) = Verb.delete
database_verb (test_database_connection _) = Verb.post
database_verb _ = Verb.get

-- The confirmation that a call is given, the action and the resource, for the calls that need one.
unfoldable pub database_confirmation : DatabaseCall → Option (String × String × String)
database_confirmation (delete_database database_id confirmation) =
    some (confirmation, "DELETE", database_id)
database_confirmation _ = none

pub data GitCall : Type 0 where
  list_git_repos : (page size : Option ℕ) → GitCall
  get_git_repo : (git_id : String) → GitCall
  create_git_repo :
      (name url : String) (auth_type : Option AuthType) (username password : Option String)
      → GitCall
  update_git_repo :
      (git_id : String) (name url : Option String) (auth_type : Option AuthType)
      (username password : Option String)
      → GitCall
  delete_git_repo : (git_id confirmation : String) → GitCall
  clone_git_repo : (git_id : String) → GitCall
  pull_git_repo : (git_id : String) → GitCall

unfoldable pub run_git_call : GitCall → Handler
run_git_call (list_git_repos page size) = Git.list_git_repos page size
run_git_call (get_git_repo git_id) = Git.get_git_repo git_id
run_git_call (create_git_repo name url auth_type username password) =
    Git.create_git_repo name url auth_type username password
run_git_call (update_git_repo git_id name url auth_type username password) =
    Git.update_git_repo git_id name url auth_type username password
run_git_call (delete_git_repo git_id confirmation) = Git.delete_git_repo git_id confirmation
run_git_call (clone_git_repo git_id) = Git.clone_git_repo git_id
run_git_call (pull_git_repo git_id) = Git.pull_git_repo git_id

-- The HTTP method of the request that a call makes.
unfoldable pub git_verb : GitCall → Verb
git_verb (create_git_repo _ _ _ _ _) = Verb.post
git_verb (update_git_repo _ _ _ _ _ _) = Verb.put
git_verb (delete_git_repo _ _) = Verb.delete
git_verb (clone_git_repo _) = Verb.post
git_verb (pull_git_repo _) = Verb.post
git_verb _ = Verb.get

-- The confirmation that a call is given, the action and the resource, for the calls that need one.
unfoldable pub git_confirmation : GitCall → Option (String × String × String)
git_confirmation (delete_git_repo git_id confirmation) = some (confirmation, "DELETE", git_id)
git_confirmation _ = none
