-- ===== src/Mcp/Emits/Crawling.antt =====
-- What the calls of Mcp/Calls/CrawlingCalls.antt send.
use astiango_hub.Mcp.Session.{AstianGoHubClient, Request}
use astiango_hub.Mcp.Tools.Spiders
use astiango_hub.Mcp.Tools.Tasks
use astiango_hub.Mcp.Tools.Nodes
use astiango_hub.Mcp.Tools.Schedules
use astiango_hub.Mcp.Client.Crawling
use astiango_hub.Mcp.Emits.{
  Emits, Emits-bind, Emits-member, Emits-handler, Emits-show_reply, Emits-report, Emits-confirmed,
  Emits-reply_and_data, Allows, Passes,
}
use astiango_hub.Mcp.Calls.CrawlingCalls.{
  SpiderCall, run_spider_call, spider_verb, spider_confirmation, TaskCall, run_task_call, task_verb,
  task_confirmation, NodeCall, run_node_call, node_verb, node_confirmation, ScheduleCall,
  run_schedule_call, schedule_verb, schedule_confirmation, list_spiders, get_spider, create_spider,
  update_spider, delete_spider, run_spider, list_spider_files, get_spider_file_content,
  save_spider_file, list_tasks, get_task, cancel_task, restart_task, delete_task, get_task_logs,
  get_task_results, list_nodes, get_node, update_node, enable_node, disable_node, list_schedules,
  get_schedule, create_schedule, update_schedule, delete_schedule, enable_schedule,
  disable_schedule,
}

module _ {P : AstianGoHubClient → Request → Type 0} where
  pub run_spider_call-Emits :
      (t : SpiderCall)
      → (Passes (spider_confirmation t) → Allows P (spider_verb t))
      → Emits P (run_spider_call t)
  unfolding run_spider_call spider_verb spider_confirmation Spiders.list_spiders Spiders.get_spider
      Spiders.create_spider Spiders.update_spider Spiders.delete_spider Spiders.run_spider
      Spiders.list_spider_files Spiders.get_spider_file_content Spiders.save_spider_file
      Crawling.create_spider Crawling.delete_spider Crawling.get_spider
      Crawling.get_spider_file_content Crawling.get_spider_files Crawling.get_spiders
      Crawling.run_spider Crawling.save_spider_file Crawling.update_spider
  run_spider_call-Emits (list_spiders page size) h = Emits-show_reply _ _ (h tt _ _)
  run_spider_call-Emits (get_spider spider_id) h = Emits-show_reply _ _ (h tt _ _)
  run_spider_call-Emits
        (create_spider name description cmd param project_id database_id col_name db_name mode
          node_ids git_id git_root_path template priority)
        h =
      Emits-show_reply _ _ (h tt _ _)
  run_spider_call-Emits
        (update_spider spider_id name description cmd param project_id database_id col_name db_name
          mode node_ids git_id git_root_path template priority)
        h =
      Emits-show_reply _ _ (h tt _ _)
  run_spider_call-Emits (delete_spider spider_id confirmation) h =
      Emits-report _ _ _ (Emits-confirmed _ _ _ _ (λ e. h e _))
  run_spider_call-Emits (run_spider spider_id cmd param priority mode node_ids) h =
      Emits-show_reply _ _ (h tt _ _)
  run_spider_call-Emits (list_spider_files spider_id path) h = Emits-show_reply _ _ (h tt _ _)
  run_spider_call-Emits (get_spider_file_content spider_id file_path) h =
      Emits-handler _ _ _ (Emits-bind _ _ (h tt _ _) (λ v. Emits-member _ v))
  run_spider_call-Emits (save_spider_file spider_id file_path content) h =
      Emits-report _ _ _ (h tt _ _)

  pub run_task_call-Emits :
      (t : TaskCall)
      → (Passes (task_confirmation t) → Allows P (task_verb t))
      → Emits P (run_task_call t)
  unfolding run_task_call task_verb task_confirmation Tasks.list_tasks Tasks.get_task
      Tasks.cancel_task Tasks.restart_task Tasks.delete_task Tasks.get_task_logs
      Tasks.get_task_results Crawling.cancel_task Crawling.delete_task Crawling.get_task
      Crawling.get_task_logs Crawling.get_task_results Crawling.get_tasks Crawling.restart_task
  run_task_call-Emits (list_tasks page size spider_id status) h = Emits-show_reply _ _ (h tt _ _)
  run_task_call-Emits (get_task task_id) h = Emits-show_reply _ _ (h tt _ _)
  run_task_call-Emits (cancel_task task_id confirmation) h =
      Emits-report _ _ _ (Emits-confirmed _ _ _ _ (λ e. h e _ _))
  run_task_call-Emits (restart_task task_id) h = Emits-show_reply _ _ (h tt _ _)
  run_task_call-Emits (delete_task task_id confirmation) h =
      Emits-report _ _ _ (Emits-confirmed _ _ _ _ (λ e. h e _))
  run_task_call-Emits (get_task_logs task_id page size) h =
      Emits-handler _ _ _ (Emits-reply_and_data _ (h tt _ _))
  run_task_call-Emits (get_task_results task_id page size) h = Emits-show_reply _ _ (h tt _ _)

  pub run_node_call-Emits :
      (t : NodeCall)
      → (Passes (node_confirmation t) → Allows P (node_verb t))
      → Emits P (run_node_call t)
  unfolding run_node_call node_verb node_confirmation Nodes.list_nodes Nodes.get_node
      Nodes.update_node Nodes.enable_node Nodes.disable_node Crawling.disable_node
      Crawling.enable_node Crawling.get_node Crawling.get_nodes Crawling.update_node
  run_node_call-Emits (list_nodes page size) h = Emits-show_reply _ _ (h tt _ _)
  run_node_call-Emits (get_node node_id) h = Emits-show_reply _ _ (h tt _ _)
  run_node_call-Emits (update_node node_id name description max_runners enabled) h =
      Emits-show_reply _ _ (h tt _ _)
  run_node_call-Emits (enable_node node_id) h = Emits-report _ _ _ (h tt _ _)
  run_node_call-Emits (disable_node node_id confirmation) h =
      Emits-report _ _ _ (Emits-confirmed _ _ _ _ (λ e. h e _ _))

  pub run_schedule_call-Emits :
      (t : ScheduleCall)
      → (Passes (schedule_confirmation t) → Allows P (schedule_verb t))
      → Emits P (run_schedule_call t)
  unfolding run_schedule_call schedule_verb schedule_confirmation Schedules.list_schedules
      Schedules.get_schedule Schedules.create_schedule Schedules.update_schedule
      Schedules.delete_schedule Schedules.enable_schedule Schedules.disable_schedule
      Crawling.create_schedule Crawling.delete_schedule Crawling.disable_schedule
      Crawling.enable_schedule Crawling.get_schedule Crawling.get_schedules Crawling.update_schedule
  run_schedule_call-Emits (list_schedules page size) h = Emits-show_reply _ _ (h tt _ _)
  run_schedule_call-Emits (get_schedule schedule_id) h = Emits-show_reply _ _ (h tt _ _)
  run_schedule_call-Emits
        (create_schedule name description spider_id cron cmd param mode node_ids priority enabled)
        h =
      Emits-show_reply _ _ (h tt _ _)
  run_schedule_call-Emits
        (update_schedule schedule_id name description spider_id cron cmd param mode node_ids
          priority enabled)
        h =
      Emits-show_reply _ _ (h tt _ _)
  run_schedule_call-Emits (delete_schedule schedule_id confirmation) h =
      Emits-report _ _ _ (Emits-confirmed _ _ _ _ (λ e. h e _))
  run_schedule_call-Emits (enable_schedule schedule_id) h = Emits-report _ _ _ (h tt _ _)
  run_schedule_call-Emits (disable_schedule schedule_id confirmation) h =
      Emits-report _ _ _ (Emits-confirmed _ _ _ _ (λ e. h e _ _))
