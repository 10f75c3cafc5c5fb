-- ===== src/Mcp/Emits/Ai.antt =====
-- What the calls of Mcp/Calls/AiCalls.antt send.
use astiango_hub.Mcp.Session.{AstianGoHubClient, Request}
use astiango_hub.Mcp.Tools.Stats
use astiango_hub.Mcp.Client.Assets
use astiango_hub.Mcp.Emits.{Emits, Emits-show_reply, Emits-report, Emits-confirmed, Allows, Passes}
use astiango_hub.Mcp.Calls.AiCalls.{
  StatsCall, run_stats_call, stats_verb, stats_confirmation, AiCall, run_ai_call, ai_verb,
  ai_confirmation, get_spider_stats, get_task_stats, list_llm_providers, get_llm_provider,
  create_llm_provider, update_llm_provider, delete_llm_provider, list_conversations,
  get_conversation, get_conversation_messages, list_autoprobes_v2, get_autoprobe_v2,
  create_autoprobe_v2, run_autoprobe_v2_task, get_autoprobe_v2_preview, get_autoprobe_v2_pattern,
  list_autoprobes, get_autoprobe, create_autoprobe,
}

module _ {P : AstianGoHubClient → Request → Type 0} where
  pub run_stats_call-Emits :
      (t : StatsCall)
      → (Passes (stats_confirmation t) → Allows P (stats_verb t))
      → Emits P (run_stats_call t)
  unfolding run_stats_call stats_verb stats_confirmation Stats.get_spider_stats Stats.get_task_stats
      Assets.get_spider_stats Assets.get_task_stats
  run_stats_call-Emits (get_spider_stats spider_id) h = Emits-show_reply _ _ (h tt _ _)
  run_stats_call-Emits (get_task_stats task_id) h = Emits-show_reply _ _ (h tt _ _)

  pub run_ai_call-Emits :
      (t : AiCall) → (Passes (ai_confirmation t) → Allows P (ai_verb t)) → Emits P (run_ai_call t)
  unfolding run_ai_call ai_verb ai_confirmation astiango_hub.Mcp.Tools.Ai.list_llm_providers
      astiango_hub.Mcp.Tools.Ai.get_llm_provider astiango_hub.Mcp.Tools.Ai.create_llm_provider
      astiango_hub.Mcp.Tools.Ai.update_llm_provider astiango_hub.Mcp.Tools.Ai.delete_llm_provider
      astiango_hub.Mcp.Tools.Ai.list_conversations astiango_hub.Mcp.Tools.Ai.get_conversation
      astiango_hub.Mcp.Tools.Ai.get_conversation_messages
      astiango_hub.Mcp.Tools.Ai.list_autoprobes_v2 astiango_hub.Mcp.Tools.Ai.get_autoprobe_v2
      astiango_hub.Mcp.Tools.Ai.create_autoprobe_v2 astiango_hub.Mcp.Tools.Ai.run_autoprobe_v2_task
      astiango_hub.Mcp.Tools.Ai.get_autoprobe_v2_preview
      astiango_hub.Mcp.Tools.Ai.get_autoprobe_v2_pattern astiango_hub.Mcp.Tools.Ai.list_autoprobes
      astiango_hub.Mcp.Tools.Ai.get_autoprobe astiango_hub.Mcp.Tools.Ai.create_autoprobe
      astiango_hub.Mcp.Client.Ai.create_auto_probe astiango_hub.Mcp.Client.Ai.create_auto_probe_v2
      astiango_hub.Mcp.Client.Ai.create_llm_provider astiango_hub.Mcp.Client.Ai.delete_llm_provider
      astiango_hub.Mcp.Client.Ai.get_auto_probe astiango_hub.Mcp.Client.Ai.get_auto_probe_v2
      astiango_hub.Mcp.Client.Ai.get_auto_probe_v2_pattern
      astiango_hub.Mcp.Client.Ai.get_auto_probe_v2_preview
      astiango_hub.Mcp.Client.Ai.get_auto_probes astiango_hub.Mcp.Client.Ai.get_auto_probes_v2
      astiango_hub.Mcp.Client.Ai.get_conversation
      astiango_hub.Mcp.Client.Ai.get_conversation_messages
      astiango_hub.Mcp.Client.Ai.get_conversations astiango_hub.Mcp.Client.Ai.get_llm_provider
      astiango_hub.Mcp.Client.Ai.get_llm_providers astiango_hub.Mcp.Client.Ai.run_auto_probe_v2_task
      astiango_hub.Mcp.Client.Ai.update_llm_provider
  run_ai_call-Emits (list_llm_providers page page_size filter) h = Emits-show_reply _ _ (h tt _ _)
  run_ai_call-Emits (get_llm_provider id) h = Emits-show_reply _ _ (h tt _ _)
  run_ai_call-Emits
        (create_llm_provider name type_name api_key api_base_url api_version default_model models
          deployment_name)
        h =
      Emits-show_reply _ _ (h tt _ _)
  run_ai_call-Emits
        (update_llm_provider id name type_name api_key api_base_url api_version default_model models
          deployment_name)
        h =
      Emits-show_reply _ _ (h tt _ _)
  run_ai_call-Emits (delete_llm_provider id confirmation) h =
      Emits-report _ _ _ (Emits-confirmed _ _ _ _ (λ e. h e _))
  run_ai_call-Emits (list_conversations page page_size filter) h = Emits-show_reply _ _ (h tt _ _)
  run_ai_call-Emits (get_conversation id) h = Emits-show_reply _ _ (h tt _ _)
  run_ai_call-Emits (get_conversation_messages id) h = Emits-show_reply _ _ (h tt _ _)
  run_ai_call-Emits (list_autoprobes_v2 page page_size filter) h = Emits-show_reply _ _ (h tt _ _)
  run_ai_call-Emits (get_autoprobe_v2 id) h = Emits-show_reply _ _ (h tt _ _)
  run_ai_call-Emits (create_autoprobe_v2 name url description query settings) h =
      Emits-show_reply _ _ (h tt _ _)
  run_ai_call-Emits (run_autoprobe_v2_task id query view_port) h = Emits-show_reply _ _ (h tt _ _)
  run_ai_call-Emits (get_autoprobe_v2_preview id) h = Emits-show_reply _ _ (h tt _ _)
  run_ai_call-Emits (get_autoprobe_v2_pattern id) h = Emits-show_reply _ _ (h tt _ _)
  run_ai_call-Emits (list_autoprobes page page_size filter) h = Emits-show_reply _ _ (h tt _ _)
  run_ai_call-Emits (get_autoprobe id) h = Emits-show_reply _ _ (h tt _ _)
  run_ai_call-Emits (create_autoprobe name url description query) h =
      Emits-show_reply _ _ (h tt _ _)
