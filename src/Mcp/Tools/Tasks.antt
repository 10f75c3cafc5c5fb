-- ===== src/Mcp/Tools/Tasks.antt =====
-- The handlers of mcp/src/tools/tasks.ts: tasks.
use Prim.Native.String.{◌++◌}
use astiango_hub.Mcp.Tools.{
  Content, Handler, handler, show_reply, report, confirmed, member, pretty, lines,
}
use astiango_hub.Mcp.Session.{Action, pure, ◌>>=◌}
use astiango_hub.Mcp.Json.{Json, arr}
use astiango_hub.Mcp.Json.{object, opt_str, opt_num}
use astiango_hub.Mcp.Client.Crawling
use astiango_hub.Common.{ℕ, String, Option, [], ◌∷◌}

unfoldable pub list_tasks : (page size : Option ℕ) (spider_id status : Option String) → Handler
list_tasks page size spider_id status = show_reply "Error listing tasks: " (
    Crawling.get_tasks (
      object (
        ("page", opt_num page)
        ∷ ("size", opt_num size)
        ∷ ("spider_id", opt_str spider_id)
        ∷ ("status", opt_str status)
        ∷ [])))

unfoldable pub get_task : (task_id : String) → Handler
get_task task_id = show_reply "Error getting task: " (Crawling.get_task task_id)

unfoldable pub cancel_task : (task_id confirmation : String) → Handler
cancel_task task_id confirmation =
    report "Error cancelling task: "
      (confirmed confirmation "CANCEL" task_id (Crawling.cancel_task task_id))
      ("Task " ++ task_id ++ " cancelled successfully.")

unfoldable pub restart_task : (task_id : String) → Handler
restart_task task_id = show_reply "Error restarting task: " (Crawling.restart_task task_id)

unfoldable pub delete_task : (task_id confirmation : String) → Handler
delete_task task_id confirmation =
    report "Error deleting task: "
      (confirmed confirmation "DELETE" task_id (Crawling.delete_task task_id))
      ("Task " ++ task_id ++ " deleted successfully.")

-- `Array.isArray(response.data) ? response.data.join('\n') : JSON.stringify(response, null, 2)`
unfoldable pub log_text : Json → Json → Content
log_text reply (arr xs) = lines xs
log_text reply _ = pretty "" reply

-- The reply with its `data`.
unfoldable pub reply_and_data : Action Json → Action (Json × Json)
unfolding ◌>>=◌ member
reply_and_data m = m >>= λ reply. member "data" reply >>= λ v. pure (reply, v)

unfoldable pub get_task_logs : (task_id : String) (page size : Option ℕ) → Handler
get_task_logs task_id page size =
    handler "Error getting task logs: "
      (reply_and_data (
        Crawling.get_task_logs task_id
          (object (("page", opt_num page) ∷ ("size", opt_num size) ∷ []))))
      (λ (reply, v). log_text reply v)

unfoldable pub get_task_results : (task_id : String) (page size : Option ℕ) → Handler
get_task_results task_id page size = show_reply "Error getting task results: " (
    Crawling.get_task_results task_id
      (object (("page", opt_num page) ∷ ("size", opt_num size) ∷ [])))
