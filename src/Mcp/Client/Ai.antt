-- ===== src/Mcp/Client/Ai.antt =====
-- The methods of mcp/src/client.ts for LLM providers, conversations and AutoProbe.
use Prim.Native.String.{◌++◌}
use astiango_hub.Mcp.Client.{get, post, put, patch, delete}
use astiango_hub.Mcp.Session.{Action}
use astiango_hub.Mcp.Json.{Json, undefined, object}
use astiango_hub.Common.{String, [], ◌∷◌}

-- AI/LLM Features

unfoldable pub get_llm_providers : (params : Json) → Action Json
get_llm_providers params = get "/ai/llm/providers" params

unfoldable pub get_llm_provider : (id : String) → Action Json
get_llm_provider id = get ("/ai/llm/providers/" ++ id) undefined

unfoldable pub create_llm_provider : (provider : Json) → Action Json
create_llm_provider provider = post "/ai/llm/providers" (object (("data", provider) ∷ []))

unfoldable pub update_llm_provider : (id : String) (provider : Json) → Action Json
update_llm_provider id provider =
    put ("/ai/llm/providers/" ++ id) (object (("data", provider) ∷ []))

unfoldable pub delete_llm_provider : (id : String) → Action Json
delete_llm_provider id = delete ("/ai/llm/providers/" ++ id)

-- Chat Conversations

unfoldable pub get_conversations : (params : Json) → Action Json
get_conversations params = get "/ai/conversations" params

unfoldable pub get_conversation : (id : String) → Action Json
get_conversation id = get ("/ai/conversations/" ++ id) undefined

unfoldable pub create_conversation : (conversation : Json) → Action Json
create_conversation conversation = post "/ai/conversations" (object (("data", conversation) ∷ []))

unfoldable pub update_conversation : (id : String) (conversation : Json) → Action Json
update_conversation id conversation =
    put ("/ai/conversations/" ++ id) (object (("data", conversation) ∷ []))

unfoldable pub delete_conversation : (id : String) → Action Json
delete_conversation id = delete ("/ai/conversations/" ++ id)

unfoldable pub get_conversation_messages : (id : String) → Action Json
get_conversation_messages id = get ("/ai/conversations/" ++ id ++ "/messages") undefined

unfoldable pub get_chat_message : (conversation_id message_id : String) → Action Json
get_chat_message conversation_id message_id =
    get ("/ai/conversations/" ++ conversation_id ++ "/messages/" ++ message_id) undefined

-- AutoProbe V2

unfoldable pub get_auto_probes_v2 : (params : Json) → Action Json
get_auto_probes_v2 params = get "/ai/autoprobes" params

unfoldable pub get_auto_probe_v2 : (id : String) → Action Json
get_auto_probe_v2 id = get ("/ai/autoprobes/" ++ id) undefined

unfoldable pub create_auto_probe_v2 : (autoprobe : Json) → Action Json
create_auto_probe_v2 autoprobe = post "/ai/autoprobes" (object (("data", autoprobe) ∷ []))

unfoldable pub update_auto_probe_v2 : (id : String) (autoprobe : Json) → Action Json
update_auto_probe_v2 id autoprobe =
    patch ("/ai/autoprobes/" ++ id) (object (("data", autoprobe) ∷ []))

unfoldable pub delete_auto_probe_v2 : (id : String) → Action Json
delete_auto_probe_v2 id = delete ("/ai/autoprobes/" ++ id)

unfoldable pub run_auto_probe_v2_task : (id : String) (params : Json) → Action Json
run_auto_probe_v2_task id params = post ("/ai/autoprobes/" ++ id ++ "/tasks") params

unfoldable pub get_auto_probe_v2_tasks : (id : String) (params : Json) → Action Json
get_auto_probe_v2_tasks id params = get ("/ai/autoprobes/" ++ id ++ "/tasks") params

unfoldable pub get_auto_probe_v2_preview : (id : String) → Action Json
get_auto_probe_v2_preview id = get ("/ai/autoprobes/" ++ id ++ "/preview") undefined

unfoldable pub get_auto_probe_v2_pattern : (id : String) → Action Json
get_auto_probe_v2_pattern id = get ("/ai/autoprobes/" ++ id ++ "/pattern") undefined

unfoldable pub get_auto_probe_v2_pattern_results : (id : String) → Action Json
get_auto_probe_v2_pattern_results id = get ("/ai/autoprobes/" ++ id ++ "/pattern/results") undefined

-- AutoProbe V1 (legacy)

unfoldable pub get_auto_probes : (params : Json) → Action Json
get_auto_probes params = get "/ai/autoprobes/v1" params

unfoldable pub get_auto_probe : (id : String) → Action Json
get_auto_probe id = get ("/ai/autoprobes/v1/" ++ id) undefined

unfoldable pub create_auto_probe : (autoprobe : Json) → Action Json
create_auto_probe autoprobe = post "/ai/autoprobes/v1" (object (("data", autoprobe) ∷ []))

unfoldable pub run_auto_probe_task : (id : String) (params : Json) → Action Json
run_auto_probe_task id params = post ("/ai/autoprobes/v1/" ++ id ++ "/tasks") params

unfoldable pub get_auto_probe_preview : (id : String) → Action Json
get_auto_probe_preview id = get ("/ai/autoprobes/v1/" ++ id ++ "/preview") undefined
