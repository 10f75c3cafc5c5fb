-- ===== src/Mcp/Tools/Ai.antt =====
-- The handlers of mcp/src/tools/ai.ts: LLM providers, conversations and AutoProbe.
use Prim.Native.String.{◌++◌}
use astiango_hub.Mcp.Tools.{Handler, show_reply, report, confirmed}
use astiango_hub.Mcp.Json.{str}
use astiango_hub.Mcp.Json.{opt_str, opt_num, opt_strs, opt_object, when_defined, spread}
use astiango_hub.Mcp.Client.Ai
use astiango_hub.Common.{ℕ, String, Option, List, [], ◌∷◌}

unfoldable pub list_llm_providers : (page page_size : Option ℕ) (filter : Option String) → Handler
list_llm_providers page page_size filter = show_reply "Error listing LLM providers: " (
    Ai.get_llm_providers (
      spread (
        when_defined "page" (opt_num page)
        ∷ when_defined "page_size" (opt_num page_size)
        ∷ when_defined "filter" (opt_str filter)
        ∷ [])))

unfoldable pub get_llm_provider : (id : String) → Handler
get_llm_provider id = show_reply "Error getting LLM provider: " (Ai.get_llm_provider id)

unfoldable pub create_llm_provider :
    (name type_name api_key : String) (api_base_url api_version default_model : Option String)
    (models : Option (List String)) (deployment_name : Option String)
    → Handler
create_llm_provider name type_name api_key api_base_url api_version default_model models
      deployment_name =
    show_reply "Error creating LLM provider: " (
      Ai.create_llm_provider (
        spread (
          (("name", str name) ∷ ("type", str type_name) ∷ ("api_key", str api_key) ∷ [])
          ∷ when_defined "api_base_url" (opt_str api_base_url)
          ∷ when_defined "api_version" (opt_str api_version)
          ∷ when_defined "default_model" (opt_str default_model)
          ∷ when_defined "models" (opt_strs models)
          ∷ when_defined "deployment_name" (opt_str deployment_name)
          ∷ [])))

unfoldable pub update_llm_provider :
    (id : String) (name type_name api_key api_base_url api_version default_model : Option String)
    (models : Option (List String)) (deployment_name : Option String)
    → Handler
update_llm_provider id name type_name api_key api_base_url api_version default_model models
      deployment_name =
    show_reply "Error updating LLM provider: " (
      Ai.update_llm_provider id (
        spread (
          when_defined "name" (opt_str name)
          ∷ when_defined "type" (opt_str type_name)
          ∷ when_defined "api_key" (opt_str api_key)
          ∷ when_defined "api_base_url" (opt_str api_base_url)
          ∷ when_defined "api_version" (opt_str api_version)
          ∷ when_defined "default_model" (opt_str default_model)
          ∷ when_defined "models" (opt_strs models)
          ∷ when_defined "deployment_name" (opt_str deployment_name)
          ∷ [])))

unfoldable pub delete_llm_provider : (id confirmation : String) → Handler
delete_llm_provider id confirmation =
    report "Error deleting LLM provider: "
      (confirmed confirmation "DELETE" id (Ai.delete_llm_provider id))
      ("LLM provider " ++ id ++ " deleted successfully")

unfoldable pub list_conversations : (page page_size : Option ℕ) (filter : Option String) → Handler
list_conversations page page_size filter = show_reply "Error listing conversations: " (
    Ai.get_conversations (
      spread (
        when_defined "page" (opt_num page)
        ∷ when_defined "page_size" (opt_num page_size)
        ∷ when_defined "filter" (opt_str filter)
        ∷ [])))

unfoldable pub get_conversation : (id : String) → Handler
get_conversation id = show_reply "Error getting conversation: " (Ai.get_conversation id)

unfoldable pub get_conversation_messages : (id : String) → Handler
get_conversation_messages id =
    show_reply "Error getting conversation messages: " (Ai.get_conversation_messages id)

unfoldable pub list_autoprobes_v2 : (page page_size : Option ℕ) (filter : Option String) → Handler
list_autoprobes_v2 page page_size filter = show_reply "Error listing AutoProbes V2: " (
    Ai.get_auto_probes_v2 (
      spread (
        when_defined "page" (opt_num page)
        ∷ when_defined "page_size" (opt_num page_size)
        ∷ when_defined "filter" (opt_str filter)
        ∷ [])))

unfoldable pub get_autoprobe_v2 : (id : String) → Handler
get_autoprobe_v2 id = show_reply "Error getting AutoProbe V2: " (Ai.get_auto_probe_v2 id)

unfoldable pub create_autoprobe_v2 :
    (name url : String) (description query : Option String) (settings : Option (Unit {0})) → Handler
create_autoprobe_v2 name url description query settings =
    show_reply "Error creating AutoProbe V2: " (
      Ai.create_auto_probe_v2 (
        spread (
          (("name", str name) ∷ ("url", str url) ∷ [])
          ∷ when_defined "description" (opt_str description)
          ∷ when_defined "query" (opt_str query)
          ∷ when_defined "settings" (opt_object settings)
          ∷ [])))

unfoldable pub run_autoprobe_v2_task :
    (id : String) (query : Option String) (view_port : Option (Unit {0})) → Handler
run_autoprobe_v2_task id query view_port = show_reply "Error running AutoProbe V2 task: " (
    Ai.run_auto_probe_v2_task id (
      spread (
        when_defined "query" (opt_str query)
        ∷ when_defined "view_port" (opt_object view_port)
        ∷ [])))

unfoldable pub get_autoprobe_v2_preview : (id : String) → Handler
get_autoprobe_v2_preview id =
    show_reply "Error getting AutoProbe V2 preview: " (Ai.get_auto_probe_v2_preview id)

unfoldable pub get_autoprobe_v2_pattern : (id : String) → Handler
get_autoprobe_v2_pattern id =
    show_reply "Error getting AutoProbe V2 pattern: " (Ai.get_auto_probe_v2_pattern id)

unfoldable pub list_autoprobes : (page page_size : Option ℕ) (filter : Option String) → Handler
list_autoprobes page page_size filter = show_reply "Error listing AutoProbes V1: " (
    Ai.get_auto_probes (
      spread (
        when_defined "page" (opt_num page)
        ∷ when_defined "page_size" (opt_num page_size)
        ∷ when_defined "filter" (opt_str filter)
        ∷ [])))

unfoldable pub get_autoprobe : (id : String) → Handler
get_autoprobe id = show_reply "Error getting AutoProbe V1: " (Ai.get_auto_probe id)

unfoldable pub create_autoprobe : (name url : String) (description query : Option String) → Handler
create_autoprobe name url description query = show_reply "Error creating AutoProbe V1: " (
    Ai.create_auto_probe (
      spread (
        (("name", str name) ∷ ("url", str url) ∷ [])
        ∷ when_defined "description" (opt_str description)
        ∷ when_defined "query" (opt_str query)
        ∷ [])))
