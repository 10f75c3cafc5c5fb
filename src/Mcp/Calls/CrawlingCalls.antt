-- ===== src/Mcp/Calls/CrawlingCalls.antt =====
-- The calls of the tools for spiders, tasks, nodes and schedules, one constructor for each
-- `server.tool(...)` of mcp/src/tools/{spiders,tasks,nodes,schedules}.ts, with its arguments.
use astiango_hub.Mcp.Verb.{Verb}
use astiango_hub.Mcp.Tools.{Handler, Mode}
use astiango_hub.Mcp.Tools.Spiders
use astiango_hub.Mcp.Tools.Tasks
use astiango_hub.Mcp.Tools.Nodes
use astiango_hub.Mcp.Tools.Schedules
use astiango_hub.Common.{ℕ, String, Bool, Option, none, some, List}

pub data SpiderCall : Type 0 where
  list_spiders : (page size : Option ℕ) → SpiderCall
  get_spider : (spider_id : String) → SpiderCall
  create_spider :
      (name : String) (description : Option String) (cmd : String)
      (param project_id database_id col_name db_name : Option String) (mode : Option Mode)
      (node_ids : Option (List String)) (git_id git_root_path template : Option String)
      (priority : Option ℕ)
      → SpiderCall
  update_spider :
      (spider_id : String)
      (name description cmd param project_id database_id col_name db_name : Option String)
      (mode : Option Mode) (node_ids : Option (List String))
      (git_id git_root_path template : Option String) (priority : Option ℕ)
      → SpiderCall
  delete_spider : (spider_id confirmation : String) → SpiderCall
  run_spider :
      (spider_id : String) (cmd param : Option String) (priority : Option ℕ) (mode : Option Mode)
      (node_ids : Option (List String))
      → SpiderCall
  list_spider_files : (spider_id : String) (path : Option String) → SpiderCall
  get_spider_file_content : (spider_id file_path : String) → SpiderCall
  save_spider_file : (spider_id file_path content : String) → SpiderCall

unfoldable pub run_spider_call : SpiderCall → Handler
run_spider_call (list_spiders page size) = Spiders.list_spiders page size
run_spider_call (get_spider spider_id) = Spiders.get_spider spider_id
run_spider_call
      (create_spider name description cmd param project_id database_id col_name db_name mode
        node_ids git_id git_root_path template priority) =
    Spiders.create_spider name description cmd param project_id database_id col_name db_name mode
      node_ids git_id git_root_path template priority
run_spider_call
      (update_spider spider_id name description cmd param project_id database_id col_name db_name
        mode node_ids git_id git_root_path template priority) =
    Spiders.update_spider spider_id name description cmd param project_id database_id col_name
      db_name mode node_ids git_id git_root_path template priority
run_spider_call (delete_spider spider_id confirmation) =
    Spiders.delete_spider spider_id confirmation
run_spider_call (run_spider spider_id cmd param priority mode node_ids) =
    Spiders.run_spider spider_id cmd param priority mode node_ids
run_spider_call (list_spider_files spider_id path) = Spiders.list_spider_files spider_id path
run_spider_call (get_spider_file_content spider_id file_path) =
    Spiders.get_spider_file_content spider_id file_path
run_spider_call (save_spider_file spider_id file_path content) =
    Spiders.save_spider_file spider_id file_path content

-- The HTTP method of the request that a call makes.
unfoldable pub spider_verb : SpiderCall → Verb
spider_verb (create_spider _ _ _ _ _ _ _ _ _ _ _ _ _ _) = Verb.post
spider_verb (update_spider _ _ _ _ _ _ _ _ _ _ _ _ _ _ _) = Verb.put
spider_verb (delete_spider _ _) = Verb.delete
spider_verb (run_spider _ _ _ _ _ _) = Verb.post
spider_verb (save_spider_file _ _ _) = Verb.post
spider_verb _ = Verb.get

-- The confirmation that a call is given, the action and the resource, for the calls that need one.
unfoldable pub spider_confirmation : SpiderCall → Option (String × String × String)
spider_confirmation (delete_spider spider_id confirmation) =
    some (confirmation, "DELETE", spider_id)
spider_confirmation _ = none

pub data TaskCall : Type 0 where
  list_tasks : (page size : Option ℕ) (spider_id status : Option String) → TaskCall
  get_task : (task_id : String) → TaskCall
  cancel_task : (task_id confirmation : String) → TaskCall
  restart_task : (task_id : String) → TaskCall
  delete_task : (task_id confirmation : String) → TaskCall
  get_task_logs : (task_id : String) (page size : Option ℕ) → TaskCall
  get_task_results : (task_id : String) (page size : Option ℕ) → TaskCall

unfoldable pub run_task_call : TaskCall → Handler
run_task_call (list_tasks page size spider_id status) = Tasks.list_tasks page size spider_id status
run_task_call (get_task task_id) = Tasks.get_task task_id
run_task_call (cancel_task task_id confirmation) = Tasks.cancel_task task_id confirmation
run_task_call (restart_task task_id) = Tasks.restart_task task_id
run_task_call (delete_task task_id confirmation) = Tasks.delete_task task_id confirmation
run_task_call (get_task_logs task_id page size) = Tasks.get_task_logs task_id page size
run_task_call (get_task_results task_id page size) = Tasks.get_task_results task_id page size

-- The HTTP method of the request that a call makes.
unfoldable pub task_verb : TaskCall → Verb
task_verb (cancel_task _ _) = Verb.post
task_verb (restart_task _) = Verb.post
task_verb (delete_task _ _) = Verb.delete
task_verb _ = Verb.get

-- The confirmation that a call is given, the action and the resource, for the calls that need one.
unfoldable pub task_confirmation : TaskCall → Option (String × String × String)
task_confirmation (cancel_task task_id confirmation) = some (confirmation, "CANCEL", task_id)
task_confirmation (delete_task task_id confirmation) = some (confirmation, "DELETE", task_id)
task_confirmation _ = none

pub data NodeCall : Type 0 where
  list_nodes : (page size : Option ℕ) → NodeCall
  get_node : (node_id : String) → NodeCall
  update_node :
      (node_id : String) (name description : Option String) (max_runners : Option ℕ)
      (enabled : Option Bool)
      → NodeCall
  enable_node : (node_id : String) → NodeCall
  disable_node : (node_id confirmation : String) → NodeCall

unfoldable pub run_node_call : NodeCall → Handler
run_node_call (list_nodes page size) = Nodes.list_nodes page size
run_node_call (get_node node_id) = Nodes.get_node node_id
run_node_call (update_node node_id name description max_runners enabled) =
    Nodes.update_node node_id name description max_runners enabled
run_node_call (enable_node node_id) = Nodes.enable_node node_id
run_node_call (disable_node node_id confirmation) = Nodes.disable_node node_id confirmation

-- The HTTP method of the request that a call makes.
unfoldable pub node_verb : NodeCall → Verb
node_verb (update_node _ _ _ _ _) = Verb.put
node_verb (enable_node _) = Verb.post
node_verb (disable_node _ _) = Verb.post
node_verb _ = Verb.get

-- The confirmation that a call is given, the action and the resource, for the calls that need one.
unfoldable pub node_confirmation : NodeCall → Option (String × String × String)
node_confirmation (disable_node node_id confirmation) = some (confirmation, "DISABLE", node_id)
node_confirmation _ = none

pub data ScheduleCall : Type 0 where
  list_schedules : (page size : Option ℕ) → ScheduleCall
  get_schedule : (schedule_id : String) → ScheduleCall
  create_schedule :
      (name : String) (description : Option String) (spider_id cron : String)
      (cmd param : Option String) (mode : Option Mode) (node_ids : Option (List String))
      (priority : Option ℕ) (enabled : Option Bool)
      → ScheduleCall
  update_schedule :
      (schedule_id : String) (name description spider_id cron cmd param : Option String)
      (mode : Option Mode) (node_ids : Option (List String)) (priority : Option ℕ)
      (enabled : Option Bool)
      → ScheduleCall
  delete_schedule : (schedule_id confirmation : String) → ScheduleCall
  enable_schedule : (schedule_id : String) → ScheduleCall
  disable_schedule : (schedule_id confirmation : String) → ScheduleCall

unfoldable pub run_schedule_call : ScheduleCall → Handler
run_schedule_call (list_schedules page size) = Schedules.list_schedules page size
run_schedule_call (get_schedule schedule_id) = Schedules.get_schedule schedule_id
run_schedule_call
      (create_schedule name description spider_id cron cmd param mode node_ids priority enabled) =
    Schedules.create_schedule name description spider_id cron cmd param mode node_ids priority
      enabled
run_schedule_call
      (update_schedule schedule_id name description spider_id cron cmd param mode node_ids priority
        enabled) =
    Schedules.update_schedule schedule_id name description spider_id cron cmd param mode node_ids
      priority enabled
run_schedule_call (delete_schedule schedule_id confirmation) =
    Schedules.delete_schedule schedule_id confirmation
run_schedule_call (enable_schedule schedule_id) = Schedules.enable_schedule schedule_id
run_schedule_call (disable_schedule schedule_id confirmation) =
    Schedules.disable_schedule schedule_id confirmation

-- The HTTP method of the request that a call makes.
unfoldable pub schedule_verb : ScheduleCall → Verb
schedule_verb (create_schedule _ _ _ _ _ _ _ _ _ _) = Verb.post
schedule_verb (update_schedule _ _ _ _ _ _ _ _ _ _ _) = Verb.put
schedule_verb (delete_schedule _ _) = Verb.delete
schedule_verb (enable_schedule _) = Verb.post
schedule_verb (disable_schedule _ _) = Verb.post
schedule_verb _ = Verb.get

-- The confirmation that a call is given, the action and the resource, for the calls that need one.
unfoldable pub schedule_confirmation : ScheduleCall → Option (String × String × String)
schedule_confirmation (delete_schedule schedule_id confirmation) =
    some (confirmation, "DELETE", schedule_id)
schedule_confirmation (disable_schedule schedule_id confirmation) =
    some (confirmation, "DISABLE", schedule_id)
schedule_confirmation _ = none
