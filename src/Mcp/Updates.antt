-- ===== src/Mcp/Updates.antt =====
-- What the update tools of mcp/src/tools leave out of their requests, and what they can do without
-- a confirmation.
use mathlib.Core.List.{flatten}
use Prim.Native.String.{◌++◌ as concat}
use astiango_hub.Mcp.Session.{AstianGoHubClient, Request}
use astiango_hub.Mcp.Json.{undefined, bool, object, when_truthy, when_defined}
use astiango_hub.Mcp.Tools.Projects
use astiango_hub.Mcp.Tools.Nodes
use astiango_hub.Mcp.Tools.Databases
use astiango_hub.Mcp.Tools.Schedules
use astiango_hub.Mcp.Client.Crawling
use astiango_hub.Mcp.Client.{request, put}
use astiango_hub.Mcp.Tools.{show_reply}
use astiango_hub.Mcp.Calls.{run_call, confirmation_of, node, schedule}
use astiango_hub.Mcp.Calls.CrawlingCalls.{NodeCall, ScheduleCall, run_node_call, run_schedule_call}
use astiango_hub.Mcp.Confirmation.Tools.{log-call}
use astiango_hub.Common.{
  String, ◌≡◌, refl, Bool, true, false, Option, none, some, List, [], ◌∷◌, ◌++◌,
}

-- An update with an empty text, or with the number 0, is the update without that field: the tools
-- cannot clear the description of a project, or set the runners of a node or the port of a database to 0.
pub empty_update_is_none :
    (id : String) (name description host data_source database username password uri : Option String)
    (enabled : Option Bool)
    → (Projects.update_project id name (some "") ≡ Projects.update_project id name none)
      × (Nodes.update_node id name description (some 0) enabled
          ≡ Nodes.update_node id name description none enabled)
      × (Databases.update_database id name description data_source host
            (some 0)
            database
            username
            password
            uri
          ≡ Databases.update_database id name description data_source host none database username
              password uri)
unfolding Projects.update_project Nodes.update_node Databases.update_database when_truthy
empty_update_is_none id name description host data_source database username password uri enabled =
    (refl, refl, refl)

-- Where mutations are allowed, `update_node` and `update_schedule` switch a node or a schedule off by
-- one PUT request and with no confirmation, though the tools that disable them ask for one.
pub update_disables_unconfirmed :
    (id : String) (c : AstianGoHubClient) (log : List Request)
    → c.allow_mutations ≡ true
    → let off_node = node (NodeCall.update_node id none none none (some false)) in
      let off_schedule = schedule (
        ScheduleCall.update_schedule id none none none none none none none none none
          (some false)) in
      let off = object (("enabled", bool false) ∷ []) in
      (confirmation_of off_node ≡ none)
      × ((run_call off_node c log).1
          ≡ log ++ request "put" (concat "/nodes/" id) undefined off ∷ [])
      × (confirmation_of off_schedule ≡ none)
      × ((run_call off_schedule c log).1
          ≡ log ++ request "put" (concat "/schedules/" id) undefined off ∷ [])
unfolding confirmation_of run_call run_node_call run_schedule_call Nodes.update_node
    Schedules.update_schedule Crawling.update_node Crawling.update_schedule put show_reply
    when_truthy when_defined flatten
update_disables_unconfirmed id c log on = (refl, log-call _ c log on, refl, log-call _ c log on)
