-- ===== src/Mcp/Calls/AiCalls.antt =====
-- The calls of the tools for statistics, the system, LLM providers, conversations and AutoProbe.
use astiango_hub.Mcp.Verb.{Verb}
use astiango_hub.Mcp.Tools.{Handler}
use astiango_hub.Mcp.Tools.Stats
use astiango_hub.Mcp.Tools.Ai
use astiango_hub.Mcp.Tools.System
use astiango_hub.Common.{ℕ, String, Option, none, some, List}

pub data StatsCall : Type 0 where
  get_spider_stats : (spider_id : String) → StatsCall
  get_task_stats : (task_id : String) → StatsCall

unfoldable pub run_stats_call : StatsCall → Handler
run_stats_call (get_spider_stats spider_id) = Stats.get_spider_stats spider_id
run_stats_call (get_task_stats task_id) = Stats.get_task_stats task_id

-- The HTTP method of the request that a call makes.
unfoldable pub stats_verb : StatsCall → Verb
stats_verb _ = Verb.get

-- The confirmation that a call is given, the action and the resource, for the calls that need one.
unfoldable pub stats_confirmation : StatsCall → Option (String × String × String)
stats_confirmation _ = none

pub data AiCall : Type 0 where
  list_llm_providers : (page page_size : Option ℕ) (filter : Option String) → AiCall
  get_llm_provider : (id : String) → AiCall
  create_llm_provider :
      (name type_name api_key : String) (api_base_url api_version default_model : Option String)
      (models : Option (List String)) (deployment_name : Option String)
      → AiCall
  update_llm_provider :
      (id : String) (name type_name api_key api_base_url api_version default_model : Option String)
      (models : Option (List String)) (deployment_name : Option String)
      → AiCall
  delete_llm_provider : (id confirmation : String) → AiCall
  list_conversations : (page page_size : Option ℕ) (filter : Option String) → AiCall
  get_conversation : (id : String) → AiCall
  get_conversation_messages : (id : String) → AiCall
  list_autoprobes_v2 : (page page_size : Option ℕ) (filter : Option String) → AiCall
  get_autoprobe_v2 : (id : String) → AiCall
  create_autoprobe_v2 :
      (name url : String) (description query : Option String) (settings : Option (Unit {0}))
      → AiCall
  run_autoprobe_v2_task :
      (id : String) (query : Option String) (view_port : Option (Unit {0})) → AiCall
  get_autoprobe_v2_preview : (id : String) → AiCall
  get_autoprobe_v2_pattern : (id : String) → AiCall
  list_autoprobes : (page page_size : Option ℕ) (filter : Option String) → AiCall
  get_autoprobe : (id : String) → AiCall
  create_autoprobe : (name url : String) (description query : Option String) → AiCall

unfoldable pub run_ai_call : AiCall → Handler
run_ai_call (list_llm_providers page page_size filter) = Ai.list_llm_providers page page_size filter
run_ai_call (get_llm_provider id) = Ai.get_llm_provider id
run_ai_call
      (create_llm_provider name type_name api_key api_base_url api_version default_model models
        deployment_name) =
    Ai.create_llm_provider name type_name api_key api_base_url api_version default_model models
      deployment_name
run_ai_call
      (update_llm_provider id name type_name api_key api_base_url api_version default_model models
        deployment_name) =
    Ai.update_llm_provider id name type_name api_key api_base_url api_version default_model models
      deployment_name
run_ai_call (delete_llm_provider id confirmation) = Ai.delete_llm_provider id confirmation
run_ai_call (list_conversations page page_size filter) = Ai.list_conversations page page_size filter
run_ai_call (get_conversation id) = Ai.get_conversation id
run_ai_call (get_conversation_messages id) = Ai.get_conversation_messages id
run_ai_call (list_autoprobes_v2 page page_size filter) = Ai.list_autoprobes_v2 page page_size filter
run_ai_call (get_autoprobe_v2 id) = Ai.get_autoprobe_v2 id
run_ai_call (create_autoprobe_v2 name url description query settings) =
    Ai.create_autoprobe_v2 name url description query settings
run_ai_call (run_autoprobe_v2_task id query view_port) = Ai.run_autoprobe_v2_task id query view_port
run_ai_call (get_autoprobe_v2_preview id) = Ai.get_autoprobe_v2_preview id
run_ai_call (get_autoprobe_v2_pattern id) = Ai.get_autoprobe_v2_pattern id
run_ai_call (list_autoprobes page page_size filter) = Ai.list_autoprobes page page_size filter
run_ai_call (get_autoprobe id) = Ai.get_autoprobe id
run_ai_call (create_autoprobe name url description query) =
    Ai.create_autoprobe name url description query

-- The HTTP method of the request that a call makes.
unfoldable pub ai_verb : AiCall → Verb
ai_verb (create_llm_provider _ _ _ _ _ _ _ _) = Verb.post
ai_verb (update_llm_provider _ _ _ _ _ _ _ _ _) = Verb.put
ai_verb (delete_llm_provider _ _) = Verb.delete
ai_verb (create_autoprobe_v2 _ _ _ _ _) = Verb.post
ai_verb (run_autoprobe_v2_task _ _ _) = Verb.post
ai_verb (create_autoprobe _ _ _ _) = Verb.post
ai_verb _ = Verb.get

-- The confirmation that a call is given, the action and the resource, for the calls that need one.
unfoldable pub ai_confirmation : AiCall → Option (String × String × String)
ai_confirmation (delete_llm_provider id confirmation) = some (confirmation, "DELETE", id)
ai_confirmation _ = none

-- The calls of mcp/src/tools/system.ts, with the time at which the handler reads the clock.
pub data SystemCall : Type 0 where
  health_check system_status get_system_overview : (now : String) → SystemCall

unfoldable pub run_system_call : SystemCall → Handler
run_system_call (health_check now) = System.health_check now
run_system_call (system_status now) = System.system_status now
run_system_call (get_system_overview now) = System.get_system_overview now
