-- ===== src/Mcp/Client/Assets.antt =====
-- The methods of mcp/src/client.ts for projects, databases, Git repositories, statistics and health.
use Prim.Native.String.{◌++◌}
use astiango_hub.Mcp.Client.{request, get, post, put, delete}
use astiango_hub.Mcp.Session.{Request, AstianGoHubClient, Action, try_catch, send}
use astiango_hub.Mcp.Json.{Json, undefined}
use astiango_hub.Common.{String, Bool, false, List, ◌==◌}

-- Projects

unfoldable pub get_projects : (params : Json) → Action Json
get_projects params = get "/projects" params

unfoldable pub get_project : (id : String) → Action Json
get_project id = get ("/projects/" ++ id) undefined

unfoldable pub create_project : (project : Json) → Action Json
create_project project = post "/projects" project

unfoldable pub update_project : (id : String) (project : Json) → Action Json
update_project id project = put ("/projects/" ++ id) project

unfoldable pub delete_project : (id : String) → Action Json
delete_project id = delete ("/projects/" ++ id)

-- Databases

unfoldable pub get_databases : (params : Json) → Action Json
get_databases params = get "/databases" params

unfoldable pub get_database : (id : String) → Action Json
get_database id = get ("/databases/" ++ id) undefined

unfoldable pub create_database : (database : Json) → Action Json
create_database database = post "/databases" database

unfoldable pub update_database : (id : String) (database : Json) → Action Json
update_database id database = put ("/databases/" ++ id) database

unfoldable pub delete_database : (id : String) → Action Json
delete_database id = delete ("/databases/" ++ id)

unfoldable pub test_database_connection : (id : String) → Action Json
test_database_connection id = post ("/databases/" ++ id ++ "/test") undefined

-- Git repositories

unfoldable pub get_git_repos : (params : Json) → Action Json
get_git_repos params = get "/gits" params

unfoldable pub get_git_repo : (id : String) → Action Json
get_git_repo id = get ("/gits/" ++ id) undefined

unfoldable pub create_git_repo : (git : Json) → Action Json
create_git_repo git = post "/gits" git

unfoldable pub update_git_repo : (id : String) (git : Json) → Action Json
update_git_repo id git = put ("/gits/" ++ id) git

unfoldable pub delete_git_repo : (id : String) → Action Json
delete_git_repo id = delete ("/gits/" ++ id)

unfoldable pub pull_git_repo : (id : String) → Action Json
pull_git_repo id = post ("/gits/" ++ id ++ "/pull") undefined

unfoldable pub clone_git_repo : (id : String) → Action Json
clone_git_repo id = post ("/gits/" ++ id ++ "/clone") undefined

-- Statistics

unfoldable pub get_spider_stats : (id : String) → Action Json
get_spider_stats id = get ("/spiders/" ++ id ++ "/stats") undefined

unfoldable pub get_task_stats : (id : String) → Action Json
get_task_stats id = get ("/tasks/" ++ id ++ "/stats") undefined

-- Health check: every failure means that the hub is not healthy.
unfoldable pub health_check : AstianGoHubClient → List Request → Bool × List Request
health_check =
    try_catch (send (request "get" "/health" undefined undefined)) (λ (status, _). status == 200)
      (λ _. false)
