-- ===== src/Ui/Debounce/Tests.antt =====
-- The debounced function of frontend/astiango-hub-ui/src/utils/debounce.ts in concrete runs.
use astiango_hub.Common.{ℕ, String, ◌≡◌, refl, true, [], ◌∷◌}
use astiango_hub.Ui.Debounce.{Debounced, call, fire, returns, debounced, run}
use astiango_hub.Ui.Debounce.Laws.{IsServed, run-IsServed, late_call}

run-IsServed_example :
    IsServed {A = String} {R = ℕ}
      (run (call "a" ∷ fire ∷ call "b" ∷ returns 0 5 ∷ call "c" ∷ []) (debounced true))
run-IsServed_example = run-IsServed true (call "a" ∷ fire ∷ call "b" ∷ returns 0 5 ∷ call "c" ∷ [])

-- A call of the function runs.
abbrev busy : Debounced String ℕ
busy = record (debounced true) { running = "a" ∷ []; invoked = "a" ∷ [] }

late_call_example :
    let before = run (call "b" ∷ returns 0 5 ∷ []) busy in
    let after = run (fire ∷ returns 0 6 ∷ []) before in
    (before.settled ≡ (0, 5) ∷ [])
    × (before.invoked ≡ "a" ∷ [])
    × (after.invoked ≡ "a" ∷ "b" ∷ [])
    × (after.settled ≡ before.settled)
unfolding debounced
late_call_example = late_call "a" "b" 5 6 busy refl refl
