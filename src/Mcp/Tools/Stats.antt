-- ===== src/Mcp/Tools/Stats.antt =====
-- The handlers of mcp/src/tools/stats.ts: statistics.
use astiango_hub.Mcp.Tools.{Handler, show_reply}
use astiango_hub.Mcp.Client.Assets
use astiango_hub.Common.{String}

unfoldable pub get_spider_stats : (spider_id : String) → Handler
get_spider_stats spider_id =
    show_reply "Error getting spider statistics: " (Assets.get_spider_stats spider_id)

unfoldable pub get_task_stats : (task_id : String) → Handler
get_task_stats task_id =
    show_reply "Error getting task statistics: " (Assets.get_task_stats task_id)
