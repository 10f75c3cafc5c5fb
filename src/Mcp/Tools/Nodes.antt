-- ===== src/Mcp/Tools/Nodes.antt =====
-- The handlers of mcp/src/tools/nodes.ts: nodes.
use Prim.Native.String.{◌++◌}
use astiango_hub.Mcp.Tools.{Handler, show_reply, report, confirmed}
use astiango_hub.Mcp.Json.{object, opt_str, opt_num, opt_bool, when_truthy, when_defined, spread}
use astiango_hub.Mcp.Client.Crawling
use astiango_hub.Common.{ℕ, String, Bool, Option, [], ◌∷◌}

unfoldable pub list_nodes : (page size : Option ℕ) → Handler
list_nodes page size =
    show_reply "Error listing nodes: "
      (Crawling.get_nodes (object (("page", opt_num page) ∷ ("size", opt_num size) ∷ [])))

unfoldable pub get_node : (node_id : String) → Handler
get_node node_id = show_reply "Error getting node: " (Crawling.get_node node_id)

unfoldable pub update_node :
    (node_id : String) (name description : Option String) (max_runners : Option ℕ)
    (enabled : Option Bool)
    → Handler
update_node node_id name description max_runners enabled = show_reply "Error updating node: " (
    Crawling.update_node node_id (
      spread (
        when_truthy "name" (opt_str name)
        ∷ when_truthy "description" (opt_str description)
        ∷ when_truthy "max_runners" (opt_num max_runners)
        ∷ when_defined "enabled" (opt_bool enabled)
        ∷ [])))

unfoldable pub enable_node : (node_id : String) → Handler
enable_node node_id =
    report "Error enabling node: " (Crawling.enable_node node_id)
      ("Node " ++ node_id ++ " enabled successfully.")

unfoldable pub disable_node : (node_id confirmation : String) → Handler
disable_node node_id confirmation =
    report "Error disabling node: "
      (confirmed confirmation "DISABLE" node_id (Crawling.disable_node node_id))
      ("Node " ++ node_id ++ " disabled successfully.")
