-- ===== src/Ui/Debounce/Laws.antt =====
-- Which promises the calls of a function that frontend/astiango-hub-ui/src/utils/debounce.ts makes are
-- given, and with what they are resolved.
use astiango_hub.Common.{
  ℕ, zero, suc, ◌≡◌, refl, sym, ap, ◌∙◌, inl, inr, true, Bool, Bool-cases, some, Option-cases, List,
  [], ◌∷◌, ◌++◌, map, append_assoc, append-nil, length, get_elem?, remove_at,
}
use mathlib.Core.List.{map-append}
use astiango_hub.Ui.Debounce.{
  Debounced, Event, call, fire, returns, throws, debounced, on_call, on_fire, on_return, on_throw,
  step, run, resolve_all,
}

-- The numbers below a bound.
abbrev pub up_to : ℕ → List ℕ
up_to zero = []
up_to (suc n) = up_to n ++ n ∷ []

map_first :
    {R : Type 0} (r : R) (queue : List ℕ) → map (λ (p : ℕ × R). p.0) (resolve_all r queue) ≡ queue
map_first r [] = refl
map_first r (p ∷ queue) = ap (λ l. p ∷ l) (map_first r queue)

-- `n` numbers from `k` on.
abbrev pub count_from : ℕ → ℕ → List ℕ
count_from k zero = []
count_from k (suc n) = k ∷ count_from (suc k) n

module _ {A R : Type 0} where
  abbrev pub promises : Debounced A R → List ℕ
  promises d = map (λ p. p.0) d.settled ++ d.resolve_queue

  abbrev pub IsServed : Debounced A R → Type 0
  IsServed d = promises d ≡ up_to d.calls

  call-IsServed : (args : A) (d : Debounced A R) → IsServed d → IsServed (on_call args d)
  unfolding on_call
  call-IsServed args d h = elim (Bool-cases d.is_async) [
    | inl async ↦ rw async (
        sym (append_assoc (map (λ p. p.0) d.settled) d.resolve_queue (d.calls ∷ []))
        ∙ ap (λ l. l ++ d.calls ∷ []) h)
    | inr plain ↦ rw plain h
  ]

  fire-IsServed : (d : Debounced A R) → IsServed d → IsServed (on_fire d)
  unfolding on_fire
  fire-IsServed d h = elim (Option-cases d.timeout) [
    | inl missing ↦ rw missing h
    | inr (args, set) ↦ rw set h
  ]

  return-IsServed : (i : ℕ) (r : R) (d : Debounced A R) → IsServed d → IsServed (on_return i r d)
  unfolding on_return
  return-IsServed i r d h = elim (Option-cases (get_elem? d.running i)) [
    | inl missing ↦ rw missing h
    | inr (args, found) ↦
        rw
          (
            found,
            append-nil (map (λ (p : ℕ × R). p.0) (d.settled ++ resolve_all r d.resolve_queue)),
          )
          (map-append (λ (p : ℕ × R). p.0) d.settled (resolve_all r d.resolve_queue)
            ∙ ap (λ l. map (λ p. p.0) d.settled ++ l) (map_first r d.resolve_queue)
            ∙ h)
  ]

  throw-IsServed : (i : ℕ) (d : Debounced A R) → IsServed d → IsServed (on_throw i d)
  unfolding on_throw
  throw-IsServed i d h = elim (Option-cases (get_elem? d.running i)) [
    | inl missing ↦ rw missing h
    | inr (args, found) ↦ rw found h
  ]

  step-IsServed : (e : Event A R) (d : Debounced A R) → IsServed d → IsServed (step e d)
  unfolding step
  step-IsServed (call args) d h = call-IsServed args d h
  step-IsServed fire d h = fire-IsServed d h
  step-IsServed (returns i r) d h = return-IsServed i r d h
  step-IsServed (throws i) d h = throw-IsServed i d h

  run-IsServed' :
      (events : List (Event A R)) (d : Debounced A R) → IsServed d → IsServed (run events d)
  unfolding run
  run-IsServed' [] d h = h
  run-IsServed' (e ∷ events) d h = run-IsServed' events (step e d) (step-IsServed e d h)

  -- Through every sequence of calls, timers, returns and errors the promises that were resolved,
  -- followed by those that wait, are those of all calls, each of them once and in the order of the
  -- calls.
  pub run-IsServed :
      (is_async : Bool) (events : List (Event A R)) → IsServed (run events (debounced is_async))
  unfolding debounced
  run-IsServed is_async events = run-IsServed' events (debounced is_async) refl

  -- A promise is made while one older call of an asynchronous function runs, which returns before the
  -- timer ends: the promise is resolved with the result of that one, and the function was not called with
  -- the new arguments yet. If then the timer ends and the function returns for them, and nothing else
  -- happened, it was called with them, and its result resolves no promise.
  pub late_call :
      (old args : A) (r r' : R) (d : Debounced A R)
      → d.is_async ≡ true
      → d.running ≡ old ∷ []
      → let before = run (call args ∷ returns 0 r ∷ []) d in
        let after = run (fire ∷ returns 0 r' ∷ []) before in
        (before.settled ≡ d.settled ++ resolve_all r (d.resolve_queue ++ d.calls ∷ []))
        × (before.invoked ≡ d.invoked)
        × (after.invoked ≡ d.invoked ++ args ∷ [])
        × (after.settled ≡ before.settled)
  unfolding run on_call on_fire on_return remove_at get_elem?
  late_call old args r r' d async one = rw (async, one) (refl, refl, refl, append-nil _)

  on_call_async :
      (args : A) (d : Debounced A R)
      → d.is_async ≡ true
      → on_call args d ≡ record d {
        timeout = some args;
        resolve_queue = d.resolve_queue ++ d.calls ∷ [];
        calls = suc d.calls;
      }
  unfolding on_call
  on_call_async args d async = rw async refl

  -- Calls in a row: the queue grows, and the last arguments are those of the timer.
  calls_queued :
      (earlier : List A) (last : A) (d : Debounced A R)
      → d.is_async ≡ true
      → (calls : ℕ) × (run (map call (earlier ++ last ∷ [])) d ≡ record d {
        timeout = some last;
        resolve_queue = d.resolve_queue ++ count_from d.calls (suc (length earlier));
        calls = calls;
      })
  unfolding run on_call
  calls_queued [] last d async = (suc d.calls, rw async refl)
  calls_queued (a ∷ earlier) last d async =
      let (calls, e) =
        calls_queued earlier last
          (record d {
            timeout = some a;
            resolve_queue = d.resolve_queue ++ d.calls ∷ [];
            calls = suc d.calls;
          })
          async in
      (
        calls,
        ap (run (map call (earlier ++ last ∷ []))) (on_call_async a d async)
            ∙ e
            ∙ ap (λ queue. record d { timeout = some last; resolve_queue = queue; calls = calls })
                (append_assoc d.resolve_queue (d.calls ∷ [])
                  (count_from (suc d.calls) (suc (length earlier)))),
      )

  run-append :
      (first then_these : List (Event A R)) (d : Debounced A R)
      → run (first ++ then_these) d ≡ run then_these (run first d)
  unfolding run
  run-append [] then_these d = refl
  run-append (e ∷ first) then_these d = run-append first then_these (step e d)

  -- Calls of an asynchronous function in a row, with no older one running, lead to one call of it,
  -- with the last arguments; when it returns, the promises that waited and those of these calls are
  -- resolved with its result, and none waits any more.
  pub run-burst :
      (earlier : List A) (last : A) (r : R) (d : Debounced A R)
      → d.is_async ≡ true
      → d.running ≡ []
      → let after = run (map call (earlier ++ last ∷ []) ++ fire ∷ returns 0 r ∷ []) d in
        (after.invoked ≡ d.invoked ++ last ∷ [])
        × (after.settled
            ≡ d.settled
              ++ resolve_all r (d.resolve_queue ++ count_from d.calls (suc (length earlier))))
        × (after.resolve_queue ≡ [])
  unfolding run on_fire on_return get_elem?
  run-burst earlier last r d async idle =
      let (calls, e) = calls_queued earlier last d async in
      rw (run-append (map call (earlier ++ last ∷ [])) (fire ∷ returns 0 r ∷ []) d, e, async, idle)
        (refl, refl, refl)
