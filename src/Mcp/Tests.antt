-- ===== src/Mcp/Tests.antt =====
-- Runs of the server of mcp/src, and its theorems at inputs that meet their hypotheses.
use astiango_hub.Mcp.Session.{AstianGoHubClient, Request, response, ok}
use astiango_hub.Mcp.Security.{expected_confirmation, require_destructive_confirmation}
use astiango_hub.Mcp.Security.Laws.{confirmation_binds}
use astiango_hub.Mcp.Json.{Json, undefined, bool, num, obj, end, object}
use astiango_hub.Mcp.Client.{request}
use astiango_hub.Mcp.Config.{
  Platform, Environment, McpConfiguration, is_space, trim, load_mcp_configuration, IsSafe,
}
use astiango_hub.Mcp.Config.Laws.{load_mcp_configuration-IsSafe}
use astiango_hub.Mcp.Calls.{
  ToolCall, run_call, run_calls, confirmation_of, verb_of, task, spider, node, schedule,
}
use astiango_hub.Mcp.Calls.CrawlingCalls.{SpiderCall, TaskCall, NodeCall, ScheduleCall}
use astiango_hub.Mcp.Emits.{Passes}
use astiango_hub.Mcp.Safety.{IsHarmless, read_only_session, read_tool_sends_reads}
use astiango_hub.Mcp.Deletes.{is_delete, ConfirmsDelete, delete_needs_confirmation}
use astiango_hub.Mcp.Confirmation.{unconfirmed_refused, destructive_request, confirmed_sends_one}
use astiango_hub.Mcp.Paths.{route_path, restart_reaches_cancel}
use astiango_hub.Mcp.Updates.{update_disables_unconfirmed}
use astiango_hub.Common.{
  String, ◌≡◌, refl, ◌⊎◌, Bool, true, false, none, some, List, [], ◌∷◌, ◌++◌, arith, eq_iff, All,
}

-- A hub that answers every request with an empty object.
abbrev hub : Bool → AstianGoHubClient
hub allow = record {
  base_url = "http://hub";
  api_token = some "t";
  timeout = 30000;
  allow_mutations = allow;
  transport = λ _ _. response 200 (obj end);
}

abbrev script : List ToolCall
script =
    spider (SpiderCall.delete_spider "s1" "DELETE:s1")
    ∷ spider (SpiderCall.list_spiders none (some 5))
    ∷ task (TaskCall.restart_task "t1")
    ∷ []

read_only_session_example : All IsHarmless (run_calls (hub false) script []).1
read_only_session_example = read_only_session (hub false) script refl

read_tool_sends_reads_example :
    (sent : List Request) × ((run_call (task (TaskCall.get_task "t1")) (hub true) []).1
      ≡ [] ++ sent)
    × All IsHarmless sent
unfolding verb_of
read_tool_sends_reads_example =
    read_tool_sends_reads (task (TaskCall.get_task "t1")) (hub true) [] refl

abbrev deletion : ToolCall
deletion = spider (SpiderCall.delete_spider "s1" "DELETE:s1")

delete_needs_confirmation_example :
    (sent : List Request) × ((run_call deletion (hub true) []).1 ≡ [] ++ sent)
    × All (λ r. (is_delete r ≡ false) ⊎ ConfirmsDelete (confirmation_of deletion)) sent
delete_needs_confirmation_example = delete_needs_confirmation deletion (hub true) []

abbrev slip : ToolCall
slip = spider (SpiderCall.delete_spider "s1" "DELETE:s2")

slip-not-Passes : ¬ Passes (confirmation_of slip)
unfolding confirmation_of expected_confirmation
slip-not-Passes p = cc ((eq_iff "DELETE:s2" "DELETE:s1").1 p)

unconfirmed_refused_example :
    ((run_call slip (hub true) []).0.is_error ≡ true) × ((run_call slip (hub true) []).1 ≡ [])
unconfirmed_refused_example = unconfirmed_refused slip (hub true) [] slip-not-Passes

confirmed_sends_one_example :
    (run_call deletion (hub true) []).1
    ≡ [] ++ request "delete" "/spiders/s1" undefined undefined ∷ []
unfolding destructive_request confirmation_of expected_confirmation
confirmed_sends_one_example =
    confirmed_sends_one deletion (request "delete" "/spiders/s1" undefined undefined) (hub true) []
      refl refl refl

confirmation_binds_example : (◌≡◌ {A = String} "A" "A") × (◌≡◌ {A = String} "x:y" "x:y")
unfolding require_destructive_confirmation expected_confirmation
confirmation_binds_example =
    confirmation_binds "A:x:y" "A" "A" "x:y" "x:y" (omega arith, tt) (omega arith, tt) refl refl

abbrev platform : Platform
platform = record {
  is_posix = true;
  stat = λ _. ok (record { is_file = true; mode = 0o400 });
  read_file = λ _. ok " secret ";
}

abbrev environment : Environment
environment = record {
  api_url = none;
  api_endpoint = some "http://hub";
  api_token_file = some "/run/token";
  allow_mutations = some "TRUE";
}

abbrev configuration : McpConfiguration
configuration = record {
  api_endpoint = "http://hub";
  api_token = "secret";
  allow_mutations = false;
}

load_test : load_mcp_configuration platform [] environment ≡ ok configuration
unfolding load_mcp_configuration trim is_space
load_test = refl

load_mcp_configuration-IsSafe_example : IsSafe platform [] environment configuration
load_mcp_configuration-IsSafe_example =
    load_mcp_configuration-IsSafe platform [] environment configuration load_test

abbrev schedules : List Json
schedules = object (("enabled", bool true) ∷ []) ∷ object [] ∷ object (("enabled", num 1) ∷ []) ∷ []

restart_reaches_cancel_example :
    (confirmation_of (task (TaskCall.restart_task "t1/cancel?")) ≡ none)
    × ((r : Request) × ((run_call (task (TaskCall.restart_task "t1/cancel?")) (hub true) []).1
          ≡ [] ++ r ∷ [])
        × (r.method ≡ "post")
        × (route_path r.path ≡ "/tasks/t1/cancel"))
restart_reaches_cancel_example = restart_reaches_cancel "t1" (hub true) [] (refl, (refl, tt)) refl

update_disables_unconfirmed_example :
    let off_node = node (NodeCall.update_node "n" none none none (some false)) in
    let off_schedule = schedule (
      ScheduleCall.update_schedule "n" none none none none none none none none none (some false)) in
    let off = object (("enabled", bool false) ∷ []) in
    (confirmation_of off_node ≡ none)
    × ((run_call off_node (hub true) []).1 ≡ [] ++ request "put" "/nodes/n" undefined off ∷ [])
    × (confirmation_of off_schedule ≡ none)
    × ((run_call off_schedule (hub true) []).1
        ≡ [] ++ request "put" "/schedules/n" undefined off ∷ [])
update_disables_unconfirmed_example = update_disables_unconfirmed "n" (hub true) [] refl
