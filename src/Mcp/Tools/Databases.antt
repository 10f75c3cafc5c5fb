-- ===== src/Mcp/Tools/Databases.antt =====
-- The handlers of mcp/src/tools/databases.ts: databases.
use Prim.Native.String.{◌++◌}
use astiango_hub.Mcp.Tools.{Handler, handler, show_reply, report, confirmed, pretty}
use astiango_hub.Mcp.Json.{str, num}
use astiango_hub.Mcp.Json.{object, opt_str, opt_num, when_truthy, spread}
use astiango_hub.Mcp.Client.Assets
use astiango_hub.Common.{ℕ, String, Option, [], ◌∷◌}

unfoldable pub list_databases : (page size : Option ℕ) → Handler
list_databases page size =
    show_reply "Error listing databases: "
      (Assets.get_databases (object (("page", opt_num page) ∷ ("size", opt_num size) ∷ [])))

unfoldable pub get_database : (database_id : String) → Handler
get_database database_id = show_reply "Error getting database: " (Assets.get_database database_id)

unfoldable pub create_database :
    (name : String) (description : Option String) (data_source host : String) (port : ℕ)
    (database username password uri : Option String)
    → Handler
create_database name description data_source host port database username password uri =
    show_reply "Error creating database: " (
      Assets.create_database (
        object (
          ("name", str name)
          ∷ ("description", opt_str description)
          ∷ ("data_source", str data_source)
          ∷ ("host", str host)
          ∷ ("port", num port)
          ∷ ("database", opt_str database)
          ∷ ("username", opt_str username)
          ∷ ("password", opt_str password)
          ∷ ("uri", opt_str uri)
          ∷ [])))

unfoldable pub update_database :
    (database_id : String) (name description data_source host : Option String) (port : Option ℕ)
    (database username password uri : Option String)
    → Handler
update_database database_id name description data_source host port database username password uri =
    show_reply "Error updating database: " (
      Assets.update_database database_id (
        spread (
          when_truthy "name" (opt_str name)
          ∷ when_truthy "description" (opt_str description)
          ∷ when_truthy "data_source" (opt_str data_source)
          ∷ when_truthy "host" (opt_str host)
          ∷ when_truthy "port" (opt_num port)
          ∷ when_truthy "database" (opt_str database)
          ∷ when_truthy "username" (opt_str username)
          ∷ when_truthy "password" (opt_str password)
          ∷ when_truthy "uri" (opt_str uri)
          ∷ [])))

unfoldable pub delete_database : (database_id confirmation : String) → Handler
delete_database database_id confirmation =
    report "Error deleting database: "
      (confirmed confirmation "DELETE" database_id (Assets.delete_database database_id))
      ("Database " ++ database_id ++ " deleted successfully.")

unfoldable pub test_database_connection : (database_id : String) → Handler
test_database_connection database_id =
    handler "Error testing database connection: " (Assets.test_database_connection database_id)
      (pretty "Database connection test result: ")
