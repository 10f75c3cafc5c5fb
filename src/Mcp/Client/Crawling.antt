-- ===== src/Mcp/Client/Crawling.antt =====
-- The methods of mcp/src/client.ts for spiders, tasks, nodes and schedules.
use Prim.Native.String.{◌++◌}
use astiango_hub.Mcp.Client.{get, post, put, delete}
use astiango_hub.Mcp.Session.{Action}
use astiango_hub.Mcp.Json.{Json, undefined, str, object}
use astiango_hub.Common.{String, Option, none, some, [], ◌∷◌, str_eq, if◌then◌else◌}

-- `path ? { path } : {}`
unfoldable pub path_params : Option String → Json
path_params none = object []
path_params (some path) = if str_eq path "" then object [] else object (("path", str path) ∷ [])

-- Spiders

unfoldable pub get_spiders : (params : Json) → Action Json
get_spiders params = get "/spiders" params

unfoldable pub get_spider : (id : String) → Action Json
get_spider id = get ("/spiders/" ++ id) undefined

unfoldable pub create_spider : (spider : Json) → Action Json
create_spider spider = post "/spiders" spider

unfoldable pub update_spider : (id : String) (spider : Json) → Action Json
update_spider id spider = put ("/spiders/" ++ id) spider

unfoldable pub delete_spider : (id : String) → Action Json
delete_spider id = delete ("/spiders/" ++ id)

unfoldable pub run_spider : (id : String) (params : Json) → Action Json
run_spider id params = post ("/spiders/" ++ id ++ "/run") params

unfoldable pub get_spider_files : (id : String) (path : Option String) → Action Json
get_spider_files id path =
    let params = path_params path in get ("/spiders/" ++ id ++ "/files") params

unfoldable pub get_spider_file_content : (id path : String) → Action Json
get_spider_file_content id path =
    get ("/spiders/" ++ id ++ "/files/content") (object (("path", str path) ∷ []))

unfoldable pub save_spider_file : (id path content : String) → Action Json
save_spider_file id path content =
    post ("/spiders/" ++ id ++ "/files/save")
      (object (("path", str path) ∷ ("content", str content) ∷ []))

-- Tasks

unfoldable pub get_tasks : (params : Json) → Action Json
get_tasks params = get "/tasks" params

unfoldable pub get_task : (id : String) → Action Json
get_task id = get ("/tasks/" ++ id) undefined

unfoldable pub cancel_task : (id : String) → Action Json
cancel_task id = post ("/tasks/" ++ id ++ "/cancel") undefined

unfoldable pub restart_task : (id : String) → Action Json
restart_task id = post ("/tasks/" ++ id ++ "/restart") undefined

unfoldable pub delete_task : (id : String) → Action Json
delete_task id = delete ("/tasks/" ++ id)

unfoldable pub get_task_logs : (id : String) (params : Json) → Action Json
get_task_logs id params = get ("/tasks/" ++ id ++ "/logs") params

unfoldable pub get_task_results : (id : String) (params : Json) → Action Json
get_task_results id params = get ("/tasks/" ++ id ++ "/results") params

-- Nodes

unfoldable pub get_nodes : (params : Json) → Action Json
get_nodes params = get "/nodes" params

unfoldable pub get_node : (id : String) → Action Json
get_node id = get ("/nodes/" ++ id) undefined

unfoldable pub update_node : (id : String) (node : Json) → Action Json
update_node id node = put ("/nodes/" ++ id) node

unfoldable pub enable_node : (id : String) → Action Json
enable_node id = post ("/nodes/" ++ id ++ "/enable") undefined

unfoldable pub disable_node : (id : String) → Action Json
disable_node id = post ("/nodes/" ++ id ++ "/disable") undefined

-- Schedules

unfoldable pub get_schedules : (params : Json) → Action Json
get_schedules params = get "/schedules" params

unfoldable pub get_schedule : (id : String) → Action Json
get_schedule id = get ("/schedules/" ++ id) undefined

unfoldable pub create_schedule : (schedule : Json) → Action Json
create_schedule schedule = post "/schedules" schedule

unfoldable pub update_schedule : (id : String) (schedule : Json) → Action Json
update_schedule id schedule = put ("/schedules/" ++ id) schedule

unfoldable pub delete_schedule : (id : String) → Action Json
delete_schedule id = delete ("/schedules/" ++ id)

unfoldable pub enable_schedule : (id : String) → Action Json
enable_schedule id = post ("/schedules/" ++ id ++ "/enable") undefined

unfoldable pub disable_schedule : (id : String) → Action Json
disable_schedule id = post ("/schedules/" ++ id ++ "/disable") undefined
