-- ===== src/Mcp/Emits/System.antt =====
-- What the handlers of Mcp/Tools/System.antt send: reads alone.
use astiango_hub.Common.{String, Bool, List, [], ◌∷◌}
use astiango_hub.Mcp.Session.{Request, AstianGoHubClient, Action}
use astiango_hub.Mcp.Json.{Json, undefined, null, arr}
use astiango_hub.Mcp.Json.{elements}
use astiango_hub.Mcp.Client.Crawling
use astiango_hub.Mcp.Client.Assets
use astiango_hub.Mcp.Client.Assets.{health_check as hub_is_healthy}
use astiango_hub.Mcp.Client.{get}
use astiango_hub.Mcp.Tools.System.{
  both, join, settled, total_of, count_elements, count_data, count_of, has_status, has_flag,
  lacks_flag, health_check, count_statuses, node_counts, schedule_counts, status_summary,
  system_status, totals, nodes_detail, overview, get_system_overview,
}
use astiango_hub.Mcp.Calls.AiCalls.{SystemCall, run_system_call}
use astiango_hub.Mcp.Verb.{Verb}
use astiango_hub.Mcp.Emits.{
  Emits, Emits-pure, Emits-raise, Emits-then, Emits-bind, Emits-try_catch, Emits-send_of_call,
  Emits-member, Emits-handler, Emits-show_reply, Allows,
}

module _ {P : AstianGoHubClient → Request → Type 0} where
  pub Emits-both :
      {A B : Type 0} (m : Action A) (n : Action B) → Emits P m → Emits P n → Emits P (both m n)
  unfolding both
  Emits-both m n hm hn = record {
    at =
        (Emits-then m (λ r c log. (join r (n c log).0, (n c log).1)) hm
          (λ r. record { at = hn.at })).at;
  }

  pub Emits-settled :
      {A : Type 0} (m : AstianGoHubClient → List Request → A × List Request)
      → Emits P m
      → Emits P (settled m)
  unfolding settled
  Emits-settled m hm = record { at = hm.at }

  Emits-total_of : (reply : Json) → Emits P (total_of reply)
  unfolding total_of
  Emits-total_of reply = Emits-bind _ _ (Emits-member "total" reply) (λ v. Emits-pure _)

  -- A test of an element reads its fields and sends nothing.
  module _ (test : Json → Action Bool) (quiet : (x : Json) → Emits P (test x)) where
    Emits-count_elements : (xs : List Json) → Emits P (count_elements test xs)
    unfolding count_elements
    Emits-count_elements [] = Emits-pure 0
    Emits-count_elements (x ∷ xs) =
        Emits-bind _ _ (quiet x)
          (λ keep. Emits-bind _ _ (Emits-count_elements xs) (λ n. Emits-pure _))

    Emits-count_data : (name : String) (v : Json) → Emits P (count_data name test v)
    unfolding count_data
    Emits-count_data name undefined = Emits-pure _
    Emits-count_data name null = Emits-pure _
    Emits-count_data name (arr xs) =
        Emits-bind _ _ (Emits-count_elements (elements xs)) (λ n. Emits-pure _)
    Emits-count_data name _ = Emits-raise _

    Emits-count_of : (name : String) (reply : Json) → Emits P (count_of name test reply)
    unfolding count_of
    Emits-count_of name reply = Emits-bind _ _ (Emits-member "data" reply) (Emits-count_data name)

  Emits-has_status : (s : String) (x : Json) → Emits P (has_status s x)
  unfolding has_status
  Emits-has_status s x = Emits-bind _ _ (Emits-member "status" x) (λ v. Emits-pure _)

  Emits-has_flag : (k : String) (x : Json) → Emits P (has_flag k x)
  unfolding has_flag
  Emits-has_flag k x = Emits-bind _ _ (Emits-member k x) (λ v. Emits-pure _)

  Emits-lacks_flag : (k : String) (x : Json) → Emits P (lacks_flag k x)
  unfolding lacks_flag
  Emits-lacks_flag k x = Emits-bind _ _ (Emits-member k x) (λ v. Emits-pure _)

  Emits-count_statuses :
      (name : String) (ss : List String) (reply : Json) → Emits P (count_statuses name ss reply)
  unfolding count_statuses
  Emits-count_statuses name [] reply = Emits-pure _
  Emits-count_statuses name (s ∷ rest) reply =
      Emits-bind _ _ (Emits-count_of (has_status s) (Emits-has_status s) name reply)
        (λ n. Emits-bind _ _ (Emits-count_statuses name rest reply) (λ more. Emits-pure _))

  ruleset quiet_rules = (
    Emits-bind, Emits-pure, Emits-total_of, Emits-count_of, Emits-has_flag, Emits-lacks_flag,
    Emits-count_statuses,
  )

  Emits-node_counts : (nodes : Json) → Emits P (node_counts nodes)
  unfolding node_counts
  Emits-node_counts nodes = search quiet_rules

  Emits-schedule_counts : (schedules : Json) → Emits P (schedule_counts schedules)
  unfolding schedule_counts
  Emits-schedule_counts schedules = search quiet_rules depth 8

  Emits-totals : (p s n t e : Json) → Emits P (totals p s n t e)
  unfolding totals
  Emits-totals p s n t e = search quiet_rules depth 8

  Emits-nodes_detail : (nodes : Json) → Emits P (nodes_detail nodes)
  unfolding nodes_detail
  Emits-nodes_detail nodes = search quiet_rules depth 9

  module _ (reads : Allows P Verb.get) where
    Emits-hub_is_healthy : Emits P hub_is_healthy
    unfolding hub_is_healthy get
    Emits-hub_is_healthy = Emits-try_catch _ _ _ (Emits-send_of_call _ (reads "/health" undefined))

    Emits-status_summary : (now : String) → Emits P (status_summary now)
    unfolding status_summary Crawling.get_nodes Crawling.get_tasks Crawling.get_schedules
    Emits-status_summary now =
        Emits-bind _ _ (Emits-both _ _ (reads _ _) (Emits-both _ _ (reads _ _) (reads _ _)))
          (λ (nodes, (tasks, schedules)). Emits-bind _ _ (Emits-node_counts nodes) (λ n.
            Emits-bind _ _ (Emits-total_of tasks) (λ t.
              Emits-bind _ _ (Emits-count_statuses _ _ tasks) (λ k.
                Emits-bind _ _ (Emits-schedule_counts schedules) (λ s.
                  Emits-bind _ _ (Emits-settled _ Emits-hub_is_healthy) (λ h. Emits-pure _))))))

    Emits-overview : (now : String) → Emits P (overview now)
    unfolding overview Assets.get_projects Crawling.get_spiders Crawling.get_nodes
        Crawling.get_tasks Crawling.get_schedules
    Emits-overview now =
        Emits-bind _ _
          (Emits-both _ _ (reads _ _) (
            Emits-both _ _ (reads _ _)
              (Emits-both _ _ (reads _ _) (Emits-both _ _ (reads _ _) (reads _ _)))))
          (λ (projects, (spiders, (nodes, (tasks, schedules)))).
            Emits-bind _ _ (Emits-settled _ Emits-hub_is_healthy) (λ h.
              Emits-bind _ _ (Emits-totals projects spiders nodes tasks schedules) (λ s.
                Emits-bind _ _ (Emits-nodes_detail nodes) (λ n.
                  Emits-bind _ _ (Emits-count_statuses _ _ tasks)
                    (λ k. Emits-bind _ _ (Emits-schedule_counts schedules) (λ e. Emits-pure _))))))

    pub run_system_call-Emits : (t : SystemCall) → Emits P (run_system_call t)
    unfolding run_system_call health_check system_status get_system_overview
    run_system_call-Emits (SystemCall.health_check now) =
        Emits-handler _ _ _ (Emits-settled _ Emits-hub_is_healthy)
    run_system_call-Emits (SystemCall.system_status now) =
        Emits-show_reply _ _ (Emits-status_summary now)
    run_system_call-Emits (SystemCall.get_system_overview now) =
        Emits-show_reply _ _ (Emits-overview now)
