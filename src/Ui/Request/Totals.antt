-- ===== src/Ui/Request/Totals.antt =====
-- Sums over the requests of frontend/astiango-hub-ui/src/services/request.ts, and what the handlers
-- of a lost session leave alone.
use astiango_hub.Common.{
  ℕ, zero, suc, ◌+◌, ◌≡◌, refl, ap, ◌∙◌, length, inl, inr, some, List, [], ◌∷◌, ◌++◌, arith,
  Bool-cases, get_elem?, set_at,
}
use mathlib.Core.Option.{some-injective}
use astiango_hub.Ui.Request.{
  Status, sent, waiting, responded, undefined, rejected, BrowserTab, truthy, clear_session,
  unauthorized, retry_all, give_up_all, close_sessions,
}

module _ (w : Status → ℕ) where
  abbrev pub total : List Status → ℕ
  total [] = 0
  total (s ∷ rest) = w s + total rest

  pub total-append : (xs ys : List Status) → total (xs ++ ys) ≡ total xs + total ys
  total-append [] ys = omega arith
  total-append (x ∷ xs) ys = omega (arith, total-append xs ys)

  -- A request that changes.
  pub total-set_at :
      (i : ℕ) (s u : Status) (xs : List Status)
      → get_elem? xs i ≡ some s
      → total (set_at i u xs) + w s ≡ total xs + w u
  unfolding set_at get_elem?
  total-set_at i s u [] h = cc
  total-set_at zero s u (x ∷ xs) h = rw (some-injective x s h) (omega arith)
  total-set_at (suc i) s u (x ∷ xs) h = omega (arith, total-set_at i s u xs h)

-- One for each request in wait.
abbrev pub waits : Status → ℕ
waits waiting = 1
waits _ = 0

-- What the handlers of a lost session leave as it was.
abbrev pub SameWork : BrowserTab → BrowserTab → Type 0
SameWork t u =
    (t.refreshing ≡ u.refreshing)
    × (t.refreshes ≡ u.refreshes)
    × (t.refreshed ≡ u.refreshed)
    × (t.requests ≡ u.requests)
    × (t.sends ≡ u.sends)
    × (t.timers ≡ u.timers)

pub unauthorized-SameWork : (t : BrowserTab) → SameWork (unauthorized t) t
unfolding unauthorized
unauthorized-SameWork t = elim (Bool-cases (truthy t.token)) [
  | inl present ↦ elim (Bool-cases t.msg_box_visible) [
    | inl shown ↦ rw (present, shown) (refl, refl, refl, refl, refl, refl)
    | inr hidden ↦ rw (present, hidden) (refl, refl, refl, refl, refl, refl)
  ]
  | inr missing ↦ rw missing (refl, refl, refl, refl, refl, refl)
]

SameWork-trans : (t u v : BrowserTab) → SameWork t u → SameWork u v → SameWork t v
SameWork-trans t u v (a, b, c, d, e, f) (a', b', c', d', e', f') =
    (a ∙ a', b ∙ b', c ∙ c', d ∙ d', e ∙ e', f ∙ f')

pub close_sessions-SameWork : (xs : List Status) (t : BrowserTab) → SameWork (close_sessions xs t) t
unfolding close_sessions clear_session
close_sessions-SameWork [] t = (refl, refl, refl, refl, refl, refl)
close_sessions-SameWork (waiting ∷ xs) t =
    SameWork-trans (close_sessions xs (unauthorized (clear_session t)))
      (unauthorized (clear_session t)) t
      (close_sessions-SameWork xs (unauthorized (clear_session t)))
      (unauthorized-SameWork (clear_session t))
close_sessions-SameWork (sent b ∷ xs) t = close_sessions-SameWork xs t
close_sessions-SameWork (responded ∷ xs) t = close_sessions-SameWork xs t
close_sessions-SameWork (undefined ∷ xs) t = close_sessions-SameWork xs t
close_sessions-SameWork (rejected ∷ xs) t = close_sessions-SameWork xs t

-- Nothing waits after the end of a refresh.
pub retry_all-none : (xs : List Status) → total waits (retry_all xs) ≡ 0
unfolding retry_all
retry_all-none [] = refl
retry_all-none (waiting ∷ xs) = omega (arith, retry_all-none xs)
retry_all-none (sent b ∷ xs) = omega (arith, retry_all-none xs)
retry_all-none (responded ∷ xs) = omega (arith, retry_all-none xs)
retry_all-none (undefined ∷ xs) = omega (arith, retry_all-none xs)
retry_all-none (rejected ∷ xs) = omega (arith, retry_all-none xs)

pub give_up_all-none : (xs : List Status) → total waits (give_up_all xs) ≡ 0
unfolding give_up_all
give_up_all-none [] = refl
give_up_all-none (waiting ∷ xs) = omega (arith, give_up_all-none xs)
give_up_all-none (sent b ∷ xs) = omega (arith, give_up_all-none xs)
give_up_all-none (responded ∷ xs) = omega (arith, give_up_all-none xs)
give_up_all-none (undefined ∷ xs) = omega (arith, give_up_all-none xs)
give_up_all-none (rejected ∷ xs) = omega (arith, give_up_all-none xs)

pub length-set_at : (i : ℕ) (u : Status) (xs : List Status) → length (set_at i u xs) ≡ length xs
unfolding set_at
length-set_at i u [] = refl
length-set_at zero u (x ∷ xs) = refl
length-set_at (suc i) u (x ∷ xs) = ap suc (length-set_at i u xs)
