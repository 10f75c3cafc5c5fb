-- ===== src/Mcp/Tools/Schedules.antt =====
-- The handlers of mcp/src/tools/schedules.ts: schedules.
use Prim.Native.String.{◌++◌}
use astiango_hub.Mcp.Tools.{Handler, show_reply, report, confirmed, Mode, opt_mode}
use astiango_hub.Mcp.Json.{str, bool}
use astiango_hub.Mcp.Json.{
  object, opt_str, opt_num, opt_bool, opt_strs, when_truthy, when_defined, spread,
}
use astiango_hub.Mcp.Client.Crawling
use astiango_hub.Common.{ℕ, String, Bool, true, Option, none, some, List, [], ◌∷◌}

unfoldable pub list_schedules : (page size : Option ℕ) → Handler
list_schedules page size =
    show_reply "Error listing schedules: "
      (Crawling.get_schedules (object (("page", opt_num page) ∷ ("size", opt_num size) ∷ [])))

unfoldable pub get_schedule : (schedule_id : String) → Handler
get_schedule schedule_id = show_reply "Error getting schedule: " (Crawling.get_schedule schedule_id)

-- A parameter with the default `true`.
abbrev pub default_true : Option Bool → Bool
default_true none = true
default_true (some b) = b

unfoldable pub create_schedule :
    (name : String) (description : Option String) (spider_id cron : String)
    (cmd param : Option String) (mode : Option Mode) (node_ids : Option (List String))
    (priority : Option ℕ) (enabled : Option Bool)
    → Handler
create_schedule name description spider_id cron cmd param mode node_ids priority enabled =
    show_reply "Error creating schedule: " (
      Crawling.create_schedule (
        object (
          ("name", str name)
          ∷ ("description", opt_str description)
          ∷ ("spider_id", str spider_id)
          ∷ ("cron", str cron)
          ∷ ("cmd", opt_str cmd)
          ∷ ("param", opt_str param)
          ∷ ("mode", opt_mode mode)
          ∷ ("node_ids", opt_strs node_ids)
          ∷ ("priority", opt_num priority)
          ∷ ("enabled", bool (default_true enabled))
          ∷ [])))

unfoldable pub update_schedule :
    (schedule_id : String) (name description spider_id cron cmd param : Option String)
    (mode : Option Mode) (node_ids : Option (List String)) (priority : Option ℕ)
    (enabled : Option Bool)
    → Handler
update_schedule schedule_id name description spider_id cron cmd param mode node_ids priority
      enabled =
    show_reply "Error updating schedule: " (
      Crawling.update_schedule schedule_id (
        spread (
          when_truthy "name" (opt_str name)
          ∷ when_truthy "description" (opt_str description)
          ∷ when_truthy "spider_id" (opt_str spider_id)
          ∷ when_truthy "cron" (opt_str cron)
          ∷ when_truthy "cmd" (opt_str cmd)
          ∷ when_truthy "param" (opt_str param)
          ∷ when_truthy "mode" (opt_mode mode)
          ∷ when_truthy "node_ids" (opt_strs node_ids)
          ∷ when_truthy "priority" (opt_num priority)
          ∷ when_defined "enabled" (opt_bool enabled)
          ∷ [])))

unfoldable pub delete_schedule : (schedule_id confirmation : String) → Handler
delete_schedule schedule_id confirmation =
    report "Error deleting schedule: "
      (confirmed confirmation "DELETE" schedule_id (Crawling.delete_schedule schedule_id))
      ("Schedule " ++ schedule_id ++ " deleted successfully.")

unfoldable pub enable_schedule : (schedule_id : String) → Handler
enable_schedule schedule_id =
    report "Error enabling schedule: " (Crawling.enable_schedule schedule_id)
      ("Schedule " ++ schedule_id ++ " enabled successfully.")

unfoldable pub disable_schedule : (schedule_id confirmation : String) → Handler
disable_schedule schedule_id confirmation =
    report "Error disabling schedule: "
      (confirmed confirmation "DISABLE" schedule_id (Crawling.disable_schedule schedule_id))
      ("Schedule " ++ schedule_id ++ " disabled successfully.")
