-- ===== src/Mcp/Tools/Spiders.antt =====
-- The handlers of mcp/src/tools/spiders.ts: spiders.
use Prim.Native.String.{◌++◌}
use astiango_hub.Mcp.Tools.{
  Handler, handler, show_reply, report, confirmed, member, or_else, Mode, opt_mode, value,
}
use astiango_hub.Mcp.Session.{◌>>=◌}
use astiango_hub.Mcp.Json.{str, num}
use astiango_hub.Mcp.Json.{object, opt_str, opt_num, opt_strs, when_truthy, spread}
use astiango_hub.Mcp.Client.Crawling
use astiango_hub.Common.{ℕ, String, Option, List, [], ◌∷◌}

unfoldable pub list_spiders : (page size : Option ℕ) → Handler
list_spiders page size =
    show_reply "Error listing spiders: "
      (Crawling.get_spiders (object (("page", opt_num page) ∷ ("size", opt_num size) ∷ [])))

unfoldable pub get_spider : (spider_id : String) → Handler
get_spider spider_id = show_reply "Error getting spider: " (Crawling.get_spider spider_id)

unfoldable pub create_spider :
    (name : String) (description : Option String) (cmd : String)
    (param project_id database_id col_name db_name : Option String) (mode : Option Mode)
    (node_ids : Option (List String)) (git_id git_root_path template : Option String)
    (priority : Option ℕ)
    → Handler
create_spider name description cmd param project_id database_id col_name db_name mode node_ids
      git_id git_root_path template priority =
    show_reply "Error creating spider: " (
      Crawling.create_spider (
        object (
          ("name", str name)
          ∷ ("description", opt_str description)
          ∷ ("cmd", str cmd)
          ∷ ("param", opt_str param)
          ∷ ("project_id", opt_str project_id)
          ∷ ("database_id", opt_str database_id)
          ∷ ("col_name", opt_str col_name)
          ∷ ("db_name", opt_str db_name)
          ∷ ("mode", opt_mode mode)
          ∷ ("node_ids", opt_strs node_ids)
          ∷ ("git_id", opt_str git_id)
          ∷ ("git_root_path", opt_str git_root_path)
          ∷ ("template", opt_str template)
          ∷ ("priority", or_else (opt_num priority) (num 5))
          ∷ [])))

unfoldable pub update_spider :
    (spider_id : String)
    (name description cmd param project_id database_id col_name db_name : Option String)
    (mode : Option Mode) (node_ids : Option (List String))
    (git_id git_root_path template : Option String) (priority : Option ℕ)
    → Handler
update_spider spider_id name description cmd param project_id database_id col_name db_name mode
      node_ids git_id git_root_path template priority =
    show_reply "Error updating spider: " (
      Crawling.update_spider spider_id (
        spread (
          when_truthy "name" (opt_str name)
          ∷ when_truthy "description" (opt_str description)
          ∷ when_truthy "cmd" (opt_str cmd)
          ∷ when_truthy "param" (opt_str param)
          ∷ when_truthy "project_id" (opt_str project_id)
          ∷ when_truthy "database_id" (opt_str database_id)
          ∷ when_truthy "col_name" (opt_str col_name)
          ∷ when_truthy "db_name" (opt_str db_name)
          ∷ when_truthy "mode" (opt_mode mode)
          ∷ when_truthy "node_ids" (opt_strs node_ids)
          ∷ when_truthy "git_id" (opt_str git_id)
          ∷ when_truthy "git_root_path" (opt_str git_root_path)
          ∷ when_truthy "template" (opt_str template)
          ∷ when_truthy "priority" (opt_num priority)
          ∷ [])))

unfoldable pub delete_spider : (spider_id confirmation : String) → Handler
delete_spider spider_id confirmation =
    report "Error deleting spider: "
      (confirmed confirmation "DELETE" spider_id (Crawling.delete_spider spider_id))
      ("Spider " ++ spider_id ++ " deleted successfully.")

unfoldable pub run_spider :
    (spider_id : String) (cmd param : Option String) (priority : Option ℕ) (mode : Option Mode)
    (node_ids : Option (List String))
    → Handler
run_spider spider_id cmd param priority mode node_ids = show_reply "Error running spider: " (
    Crawling.run_spider spider_id (
      spread (
        when_truthy "cmd" (opt_str cmd)
        ∷ when_truthy "param" (opt_str param)
        ∷ when_truthy "priority" (opt_num priority)
        ∷ when_truthy "mode" (opt_mode mode)
        ∷ when_truthy "node_ids" (opt_strs node_ids)
        ∷ [])))

unfoldable pub list_spider_files : (spider_id : String) (path : Option String) → Handler
list_spider_files spider_id path =
    show_reply "Error listing spider files: " (Crawling.get_spider_files spider_id path)

unfoldable pub get_spider_file_content : (spider_id file_path : String) → Handler
get_spider_file_content spider_id file_path =
    handler "Error getting file content: "
      ((Crawling.get_spider_file_content spider_id file_path) >>= member "data")
      (λ v. value (or_else v (str "File is empty")))

unfoldable pub save_spider_file : (spider_id file_path content : String) → Handler
save_spider_file spider_id file_path content =
    report "Error saving file: " (Crawling.save_spider_file spider_id file_path content)
      ("File " ++ file_path ++ " saved successfully for spider " ++ spider_id ++ ".")
