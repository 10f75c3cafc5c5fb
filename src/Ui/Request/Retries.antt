-- ===== src/Ui/Request/Retries.antt =====
-- How often frontend/astiango-hub-ui/src/services/request.ts sends a request.
use astiango_hub.Common.{
  ℕ, ◌+◌, ◌*◌, ◌≤◌, String, Bool, true, false, ◌≡◌, refl, inl, inr, not, ◌&&◌, Option, some, none,
  List, [], ◌∷◌, ◌==◌, arith, Bool-cases, if◌then◌else◌, get_elem?, length, length-append,
}
use astiango_hub.Ui.Request
use astiango_hub.Ui.Request.{
  Status, sent, waiting, responded, undefined, rejected, BrowserTab, Event, truthy, unauthorized,
  refresh_access_token, on_error, fail_refresh, on_refreshed, on_refresh_error, step, run, open_tab,
  give_up_all, retry_all, count_waiting, close_sessions, end_refresh,
}
use astiango_hub.Ui.Request.Totals.{
  total, total-append, total-set_at, length-set_at, SameWork, unauthorized-SameWork,
  close_sessions-SameWork,
}

-- How often a request may still be sent.
abbrev pub left : Status → ℕ
left (sent false) = 1
left waiting = 1
left _ = 0

-- What was sent and may still be sent is at most twice the number of the requests.
abbrev pub IsBounded : BrowserTab → Type 0
IsBounded t = t.sends + total left t.requests ≤ 2 * length t.requests

SameWork-IsBounded : (t u : BrowserTab) → SameWork t u → IsBounded u → IsBounded t
SameWork-IsBounded t u (_, _, _, d, e, _) h = rw (d, e) h

retry_all-left :
    (xs : List Status)
    → (total left (retry_all xs) + count_waiting xs ≡ total left xs)
      × (length (retry_all xs) ≡ length xs)
unfolding retry_all count_waiting
retry_all-left [] = (refl, refl)
retry_all-left (waiting ∷ xs) =
    let (a, b) = retry_all-left xs in (omega (arith, a), omega (arith, b))
retry_all-left (sent true ∷ xs) =
    let (a, b) = retry_all-left xs in (omega (arith, a), omega (arith, b))
retry_all-left (sent false ∷ xs) =
    let (a, b) = retry_all-left xs in (omega (arith, a), omega (arith, b))
retry_all-left (responded ∷ xs) =
    let (a, b) = retry_all-left xs in (omega (arith, a), omega (arith, b))
retry_all-left (undefined ∷ xs) =
    let (a, b) = retry_all-left xs in (omega (arith, a), omega (arith, b))
retry_all-left (rejected ∷ xs) =
    let (a, b) = retry_all-left xs in (omega (arith, a), omega (arith, b))

give_up_all-left :
    (xs : List Status)
    → (total left (give_up_all xs) ≤ total left xs) × (length (give_up_all xs) ≡ length xs)
unfolding give_up_all
give_up_all-left [] = (omega arith, refl)
give_up_all-left (waiting ∷ xs) =
    let (a, b) = give_up_all-left xs in (omega (arith, a), omega (arith, b))
give_up_all-left (sent true ∷ xs) =
    let (a, b) = give_up_all-left xs in (omega (arith, a), omega (arith, b))
give_up_all-left (sent false ∷ xs) =
    let (a, b) = give_up_all-left xs in (omega (arith, a), omega (arith, b))
give_up_all-left (responded ∷ xs) =
    let (a, b) = give_up_all-left xs in (omega (arith, a), omega (arith, b))
give_up_all-left (undefined ∷ xs) =
    let (a, b) = give_up_all-left xs in (omega (arith, a), omega (arith, b))
give_up_all-left (rejected ∷ xs) =
    let (a, b) = give_up_all-left xs in (omega (arith, a), omega (arith, b))

fail_refresh-IsBounded : (t : BrowserTab) → IsBounded t → IsBounded (fail_refresh t)
unfolding fail_refresh
fail_refresh-IsBounded t h =
    let (less, same) = give_up_all-left t.requests in
    SameWork-IsBounded (close_sessions t.requests (end_refresh t)) (end_refresh t)
      (close_sessions-SameWork t.requests (end_refresh t)) (omega (arith, less, same, h))

on_refreshed-IsBounded :
    (token refresh_token : Option String) (t : BrowserTab)
    → IsBounded t
    → IsBounded (on_refreshed token refresh_token t)
unfolding on_refreshed
on_refreshed-IsBounded token refresh_token t h =
    let (less, same) = retry_all-left t.requests in
    elim (Bool-cases (truthy token && truthy refresh_token)) [
      | inl valid ↦ rw valid (omega (arith, less, same, h))
      | inr invalid ↦ rw invalid (fail_refresh-IsBounded t h)
    ]

on_refresh_error-IsBounded :
    (status : ℕ) (t : BrowserTab) → IsBounded t → IsBounded (on_refresh_error status t)
unfolding on_refresh_error
on_refresh_error-IsBounded status t h = elim (Bool-cases (status == 401)) [
  | inl lost ↦ rw lost (
      fail_refresh-IsBounded (unauthorized t)
        (SameWork-IsBounded (unauthorized t) t (unauthorized-SameWork t) h))
  | inr other ↦ rw other (fail_refresh-IsBounded t h)
]

settle-IsBounded :
    (i : ℕ) (old s : Status) (t u : BrowserTab)
    → get_elem? t.requests i ≡ some old
    → left s ≤ left old
    → (u.requests ≡ t.requests) × (u.sends ≡ t.sends)
    → IsBounded t
    → IsBounded (Request.settle i (s, u))
settle-IsBounded i old s t u at less (d, e) h =
    rw (d, e)
      (omega
        (arith, total-set_at left i old s t.requests at, length-set_at i s t.requests, less, h))

unauthorized-work :
    (t : BrowserTab) → ((unauthorized t).requests ≡ t.requests) × ((unauthorized t).sends ≡ t.sends)
unauthorized-work t = let (_, _, _, d, e, _) = unauthorized-SameWork t in (d, e)

refresh_access_token-work :
    (t : BrowserTab)
    → ((refresh_access_token t).requests ≡ t.requests) × ((refresh_access_token t).sends ≡ t.sends)
unfolding refresh_access_token
refresh_access_token-work t = elim (Bool-cases t.refreshing) [
  | inl on ↦ rw on (refl, refl)
  | inr off ↦ rw off (refl, refl)
]

-- A refresh is joined or begun; the request is not one that was retried.
wait-IsBounded :
    (i : ℕ) (retried : Bool) (t : BrowserTab)
    → get_elem? t.requests i ≡ some (sent retried)
    → retried ≡ false
    → IsBounded t
    → IsBounded (Request.settle i (waiting, refresh_access_token t))
wait-IsBounded i retried t at first h =
    settle-IsBounded i (sent retried) waiting t (refresh_access_token t) at (rw first (omega arith))
      (refresh_access_token-work t) h

on_error-IsBounded :
    (i : ℕ) (retried : Bool) (status : ℕ) (t : BrowserTab)
    → get_elem? t.requests i ≡ some (sent retried)
    → IsBounded t
    → IsBounded (Request.settle i (on_error retried status t))
unfolding on_error
on_error-IsBounded i retried status t at h =
    elim (Bool-cases (status == 401 && not retried && truthy t.refresh_token)) [
      | inl retry ↦ rw retry (wait-IsBounded i retried t at (ground arith) h)
      | inr over ↦ elim (Bool-cases (status == 401)) [
        | inl lost ↦ rw over (
            rw lost (
              settle-IsBounded i (sent retried) undefined t (unauthorized t) at (omega arith)
                (unauthorized-work t) h))
        | inr other ↦ rw over (
            rw other
              (settle-IsBounded i (sent retried) rejected t t at (omega arith) (refl, refl) h))
      ]
    ]

fail-IsBounded :
    (o : Option Status) (i status : ℕ) (t : BrowserTab)
    → get_elem? t.requests i ≡ o
    → IsBounded t
    → IsBounded (Request.fail o i status t)
fail-IsBounded (some (sent retried)) i status t at h = on_error-IsBounded i retried status t at h
fail-IsBounded (some waiting) i status t at h = h
fail-IsBounded (some responded) i status t at h = h
fail-IsBounded (some undefined) i status t at h = h
fail-IsBounded (some rejected) i status t at h = h
fail-IsBounded none i status t at h = h

respond-IsBounded :
    (o : Option Status) (i : ℕ) (t : BrowserTab)
    → get_elem? t.requests i ≡ o
    → IsBounded t
    → IsBounded (Request.respond o i t)
respond-IsBounded (some (sent retried)) i t at h =
    settle-IsBounded i (sent retried) responded t t at (omega arith) (refl, refl) h
respond-IsBounded (some waiting) i t at h = h
respond-IsBounded (some responded) i t at h = h
respond-IsBounded (some undefined) i t at h = h
respond-IsBounded (some rejected) i t at h = h
respond-IsBounded none i t at h = h

start-IsBounded : (t : BrowserTab) → IsBounded t → IsBounded (step Event.start t)
unfolding step
start-IsBounded t h =
    let added = sent false ∷ [] in
    omega (arith, total-append left t.requests added, length-append t.requests added, h)

if-IsBounded :
    (b : Bool) (u t : BrowserTab) → IsBounded u → IsBounded t → IsBounded (if b then u else t)
if-IsBounded true u t hu h = hu
if-IsBounded false u t hu h = h

step-IsBounded : (e : Event) (t : BrowserTab) → IsBounded t → IsBounded (step e t)
unfolding step
step-IsBounded Event.start t h = start-IsBounded t h
step-IsBounded (Event.response i) t h = respond-IsBounded _ i t refl h
step-IsBounded (Event.error i status) t h = fail-IsBounded _ i status t refl h
step-IsBounded (Event.refreshed token refresh_token) t h =
    if-IsBounded t.refreshing (on_refreshed token refresh_token t) t
      (on_refreshed-IsBounded token refresh_token t h) h
step-IsBounded (Event.refresh_error status) t h =
    if-IsBounded t.refreshing (on_refresh_error status t) t (on_refresh_error-IsBounded status t h)
      h
step-IsBounded Event.timer t h = h

run-keeps : (es : List Event) (t : BrowserTab) → IsBounded t → IsBounded (run es t)
unfolding run
run-keeps [] t h = h
run-keeps (e ∷ es) t h = run-keeps es (step e t) (step-IsBounded e t h)

-- Through every sequence of events the requests that went out, with those that may still go out again,
-- are at most twice the requests that were started.
pub run-IsBounded :
    (token refresh_token : Option String) (es : List Event)
    → IsBounded (run es (open_tab token refresh_token))
unfolding open_tab
run-IsBounded token refresh_token es = run-keeps es _ (omega arith)
