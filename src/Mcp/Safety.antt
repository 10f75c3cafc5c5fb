-- ===== src/Mcp/Safety.antt =====
-- The gate of the request interceptor of mcp/src/client.ts, over every tool of mcp/src/tools.
use astiango_hub.Mcp.Session.{AstianGoHubClient, Request, is_refused}
use astiango_hub.Mcp.Verb.{Verb}
use astiango_hub.Mcp.Json.{undefined}
use astiango_hub.Mcp.Security.{is_read_only_method}
use astiango_hub.Mcp.Client.{call, request, get, post, put, patch, delete}
use astiango_hub.Mcp.Calls.{ToolCall, run_call, run_calls, verb_of}
use astiango_hub.Mcp.Emits.{Emits, Emits-then, Emits-call, Allows}
use astiango_hub.Mcp.Emits.AnyCall.{run_call-Emits}
use astiango_hub.Common.{
  ◌≡◌, refl, sym, true, false, some, List, [], ◌∷◌, ◌++◌, append-nil, arith, All, All-mono,
}

abbrev pub IsHarmless : Request → Type 0
IsHarmless r = is_read_only_method (some r.method) ≡ true

-- What the request interceptor lets through.
abbrev PassesGate : AstianGoHubClient → Request → Type 0
PassesGate c r = c.allow_mutations ≡ false → IsHarmless r

gate : (c : AstianGoHubClient) (r : Request) → is_refused c r ≡ false → PassesGate c r
unfolding is_refused
gate c r passed off = ground arith

Emits-gated : (r : Request) → Emits PassesGate (call r)
Emits-gated r = Emits-call r (λ c. gate c r)

Allows-PassesGate : (v : Verb) → Allows PassesGate v
unfolding get post put patch delete
Allows-PassesGate Verb.get = λ path a. Emits-gated _
Allows-PassesGate Verb.post = λ path a. Emits-gated _
Allows-PassesGate Verb.put = λ path a. Emits-gated _
Allows-PassesGate Verb.patch = λ path a. Emits-gated _
Allows-PassesGate Verb.delete = λ path. Emits-gated _

run_calls-Emits :
    {P : AstianGoHubClient → Request → Type 0}
    → ((t : ToolCall) → Emits P (run_call t))
    → (ts : List ToolCall) → Emits P (λ c. run_calls c ts)
unfolding run_calls
run_calls-Emits h [] = record { at = λ c log. ([], sym (append-nil log), tt) }
run_calls-Emits h (t ∷ ts) = record {
  at =
      (Emits-then (run_call t) (λ r c log. (r ∷ (run_calls c ts log).0, (run_calls c ts log).1))
        (h t) (λ r. record { at = (run_calls-Emits h ts).at })).at;
}

-- While mutations are off, no sequence of tool calls makes the client send a request whose method
-- is not GET, HEAD or OPTIONS, whatever the hub answers.
pub read_only_session :
    (c : AstianGoHubClient) (ts : List ToolCall)
    → c.allow_mutations ≡ false
    → All IsHarmless (run_calls c ts []).1
read_only_session c ts off =
    let (sent, e, p) =
      (run_calls-Emits (λ t. run_call-Emits t (λ _. Allows-PassesGate (verb_of t))) ts).at c [] in
    rw e (All-mono sent (λ r q. q off) p)

abbrev SendsRead : AstianGoHubClient → Request → Type 0
SendsRead c r = IsHarmless r

-- A tool whose HTTP method is GET sends reads alone, also where mutations are allowed.
pub read_tool_sends_reads :
    (t : ToolCall) (c : AstianGoHubClient) (log : List Request)
    → verb_of t ≡ Verb.get
    → (sent : List Request) × ((run_call t c log).1 ≡ log ++ sent) × All IsHarmless sent
unfolding get is_read_only_method
read_tool_sends_reads t c log reads =
    (run_call-Emits {P = SendsRead} t (λ _.
        rw reads
          (λ path a. Emits-call {P = SendsRead} (request "get" path a undefined) (λ _ _. refl)))).at
      c log
