-- ===== src/Ui/Debounce.antt =====
-- `debounce` of frontend/astiango-hub-ui/src/utils/debounce.ts, as a state machine: what happens to the
-- returned function and to its timer. `A` is the type of the arguments, `R` that of the results.
pub mod Laws
mod Tests
use astiango_hub.Common.{
  ℕ, suc, Bool, Option, none, some, List, [], ◌∷◌, ◌++◌, map, get_elem?, remove_at, if◌then◌else◌,
}

module _ (A R : Type 0) where
  -- The closure: the arguments of the timer that is set, the resolvers that wait, named by the number
  -- of the call, and the calls of an asynchronous `func` that have not returned. `invoked` has what
  -- `func` was called with, and `settled` which promise was resolved with what, both in their order.
  pub record Debounced : Type 0 where
    pub is_async : Bool
    pub timeout : Option A
    pub resolve_queue : List ℕ
    pub running : List A
    pub calls : ℕ
    pub invoked : List A
    pub settled : List (ℕ × R)

  pub data Event : Type 0 where
    call : A → Event
    fire : Event
    returns : ℕ → R → Event
    throws : ℕ → Event

-- The promises of a queue, each with the result.
abbrev pub resolve_all : {R : Type 0} → R → List ℕ → List (ℕ × R)
resolve_all r queue = map (λ p. (p, r)) queue

module _ {A R : Type 0} where
  unfoldable pub debounced : Bool → Debounced A R
  debounced is_async = record {
    is_async = is_async;
    timeout = none;
    resolve_queue = [];
    running = [];
    calls = 0;
    invoked = [];
    settled = [];
  }

  -- A call of the returned function. Setting the timer clears the one that was set.
  unfoldable pub on_call : A → Debounced A R → Debounced A R
  on_call args d =
      if d.is_async
      then record d {
        timeout = some args;
        resolve_queue = d.resolve_queue ++ d.calls ∷ [];
        calls = suc d.calls;
      }
      else record d { timeout = some args }

  abbrev start : Option A → Debounced A R → Debounced A R
  start none d = d
  start (some args) d = record d {
    timeout = none;
    invoked = d.invoked ++ args ∷ [];
    running = if d.is_async then d.running ++ args ∷ [] else d.running;
  }

  -- The timer ends, if one is set.
  unfoldable pub on_fire : Debounced A R → Debounced A R
  on_fire d = start d.timeout d

  abbrev leave : Option A → ℕ → Debounced A R → Debounced A R
  leave none i d = d
  leave (some args) i d = record d { running = remove_at i d.running }

  -- `while (resolveQueue.length) { … resolve(result) }`
  abbrev flush : R → Debounced A R → Debounced A R
  flush r d = record d { resolve_queue = []; settled = d.settled ++ resolve_all r d.resolve_queue }

  abbrev finish : Option A → ℕ → R → Debounced A R → Debounced A R
  finish none i r d = d
  finish (some args) i r d = flush r (leave (some args) i d)

  -- The `i`th of the calls of `func` that have not returned does so.
  unfoldable pub on_return : ℕ → R → Debounced A R → Debounced A R
  on_return i r d = finish (get_elem? d.running i) i r d

  -- It throws: nothing catches that, and the queue stays.
  unfoldable pub on_throw : ℕ → Debounced A R → Debounced A R
  on_throw i d = leave (get_elem? d.running i) i d

  unfoldable pub step : Event A R → Debounced A R → Debounced A R
  unfolding on_call on_fire on_return on_throw
  step (call args) d = on_call args d
  step fire d = on_fire d
  step (returns i r) d = on_return i r d
  step (throws i) d = on_throw i d

  unfoldable pub run : List (Event A R) → Debounced A R → Debounced A R
  unfolding step
  run [] d = d
  run (e ∷ events) d = run events (step e d)
