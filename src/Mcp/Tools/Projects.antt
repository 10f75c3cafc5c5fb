-- ===== src/Mcp/Tools/Projects.antt =====
-- The handlers of mcp/src/tools/projects.ts: projects.
use Prim.Native.String.{◌++◌}
use astiango_hub.Mcp.Tools.{Handler, show_reply, report, confirmed}
use astiango_hub.Mcp.Json.{str}
use astiango_hub.Mcp.Json.{object, opt_str, opt_num, when_truthy, spread}
use astiango_hub.Mcp.Client.Assets
use astiango_hub.Common.{ℕ, String, Option, [], ◌∷◌}

unfoldable pub list_projects : (page size : Option ℕ) → Handler
list_projects page size =
    show_reply "Error listing projects: "
      (Assets.get_projects (object (("page", opt_num page) ∷ ("size", opt_num size) ∷ [])))

unfoldable pub get_project : (project_id : String) → Handler
get_project project_id = show_reply "Error getting project: " (Assets.get_project project_id)

unfoldable pub create_project : (name : String) (description : Option String) → Handler
create_project name description = show_reply "Error creating project: " (
    Assets.create_project (object (("name", str name) ∷ ("description", opt_str description) ∷ [])))

unfoldable pub update_project : (project_id : String) (name description : Option String) → Handler
update_project project_id name description = show_reply "Error updating project: " (
    Assets.update_project project_id (
      spread
        (when_truthy "name" (opt_str name) ∷ when_truthy "description" (opt_str description) ∷ [])))

unfoldable pub delete_project : (project_id confirmation : String) → Handler
delete_project project_id confirmation =
    report "Error deleting project: "
      (confirmed confirmation "DELETE" project_id (Assets.delete_project project_id))
      ("Project " ++ project_id ++ " deleted successfully.")
