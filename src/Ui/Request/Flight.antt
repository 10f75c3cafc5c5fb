-- ===== src/Ui/Request/Flight.antt =====
-- At most one refresh is under way in frontend/astiango-hub-ui/src/services/request.ts.
use astiango_hub.Common.{
  ℕ, ◌+◌, String, Bool, true, false, ◌≡◌, refl, ◌∙◌, ◌⊎◌, inl, inr, not, ◌&&◌, Option, some, none,
  List, [], ◌∷◌, ◌==◌, arith, Bool-cases, if◌then◌else◌, get_elem?,
}
use astiango_hub.Ui.Request
use astiango_hub.Ui.Request.{
  Status, sent, waiting, responded, undefined, rejected, BrowserTab, Event, truthy, unauthorized,
  refresh_access_token, on_error, fail_refresh, on_refreshed, on_refresh_error, step, run, open_tab,
  give_up_all, retry_all, close_sessions, end_refresh,
}
use astiango_hub.Ui.Request.Totals.{
  total, waits, total-append, total-set_at, SameWork, unauthorized-SameWork,
  close_sessions-SameWork, retry_all-none, give_up_all-none,
}

-- One if a refresh is under way.
abbrev pub under_way : Bool → ℕ
under_way true = 1
under_way false = 0

-- All refreshes but the one that is under way have ended, and requests wait only for that one.
abbrev pub IsSingle : BrowserTab → Type 0
IsSingle t =
    (t.refreshes ≡ t.refreshed + under_way t.refreshing)
    × ((t.refreshing ≡ true) ⊎ (total waits t.requests ≡ 0))

SameWork-IsSingle : (t u : BrowserTab) → SameWork t u → IsSingle u → IsSingle t
SameWork-IsSingle t u (a, b, c, d, _, _) h = rw (a, b, c, d) h

ends-single :
    (t : BrowserTab) → t.refreshing ≡ true → IsSingle t → t.refreshes ≡ t.refreshed + 1 + 0
ends-single t on (count, _) =
    let before : t.refreshes ≡ t.refreshed + 1 = rw on at count in omega (arith, before)

fail_refresh-IsSingle :
    (t : BrowserTab) → t.refreshing ≡ true → IsSingle t → IsSingle (fail_refresh t)
unfolding fail_refresh
fail_refresh-IsSingle t on h =
    SameWork-IsSingle (close_sessions t.requests (end_refresh t)) (end_refresh t)
      (close_sessions-SameWork t.requests (end_refresh t))
      (ends-single t on h, inr (give_up_all-none t.requests))

on_refreshed-IsSingle :
    (token refresh_token : Option String) (t : BrowserTab)
    → t.refreshing ≡ true
    → IsSingle t
    → IsSingle (on_refreshed token refresh_token t)
unfolding on_refreshed
on_refreshed-IsSingle token refresh_token t on h =
    elim (Bool-cases (truthy token && truthy refresh_token)) [
      | inl valid ↦ rw valid (ends-single t on h, inr (retry_all-none t.requests))
      | inr invalid ↦ rw invalid (fail_refresh-IsSingle t on h)
    ]

on_refresh_error-IsSingle :
    (status : ℕ) (t : BrowserTab)
    → t.refreshing ≡ true
    → IsSingle t
    → IsSingle (on_refresh_error status t)
unfolding on_refresh_error
on_refresh_error-IsSingle status t on h = elim (Bool-cases (status == 401)) [
  | inl lost ↦
      let same = unauthorized-SameWork t in
      rw lost (
        fail_refresh-IsSingle (unauthorized t) (same.0 ∙ on)
          (SameWork-IsSingle (unauthorized t) t same h))
  | inr other ↦ rw other (fail_refresh-IsSingle t on h)
]

settle-IsSingle :
    (i : ℕ) (retried : Bool) (s : Status) (t u : BrowserTab)
    → get_elem? t.requests i ≡ some (sent retried)
    → waits s ≡ 0
    → SameWork u t
    → IsSingle t
    → IsSingle (Request.settle i (s, u))
settle-IsSingle i retried s t u at idle_after same h =
    let (count, wait) = SameWork-IsSingle u t same h in
    let (_, _, _, requests, _, _) = same in
    let there : get_elem? u.requests i ≡ some (sent retried) = rw requests at in
    (
      count,
      elim wait [
        | inl on ↦ inl on
        | inr idle ↦ inr (
            omega (arith, total-set_at waits i (sent retried) s u.requests there, idle, idle_after))
      ],
    )

refresh_access_token-IsSingle :
    (i : ℕ) (t : BrowserTab)
    → IsSingle t
    → IsSingle (Request.settle i (waiting, refresh_access_token t))
unfolding refresh_access_token
refresh_access_token-IsSingle i t (count, wait) = elim (Bool-cases t.refreshing) [
  | inl on ↦ rw on (rw on at count, inl refl)
  | inr off ↦ rw off (omega (arith, rw off at count), inl refl)
]

on_error-IsSingle :
    (i : ℕ) (retried : Bool) (status : ℕ) (t : BrowserTab)
    → get_elem? t.requests i ≡ some (sent retried)
    → IsSingle t
    → IsSingle (Request.settle i (on_error retried status t))
unfolding on_error
on_error-IsSingle i retried status t at h =
    elim (Bool-cases (status == 401 && not retried && truthy t.refresh_token)) [
      | inl retry ↦ rw retry (refresh_access_token-IsSingle i t h)
      | inr over ↦ elim (Bool-cases (status == 401)) [
        | inl lost ↦ rw over (
            rw lost (
              settle-IsSingle i retried undefined t (unauthorized t) at refl
                (unauthorized-SameWork t) h))
        | inr other ↦ rw over (
            rw other (
              settle-IsSingle i retried rejected t t at refl (refl, refl, refl, refl, refl, refl)
                h))
      ]
    ]

fail-IsSingle :
    (o : Option Status) (i status : ℕ) (t : BrowserTab)
    → get_elem? t.requests i ≡ o
    → IsSingle t
    → IsSingle (Request.fail o i status t)
fail-IsSingle (some (sent retried)) i status t at h = on_error-IsSingle i retried status t at h
fail-IsSingle (some waiting) i status t at h = h
fail-IsSingle (some responded) i status t at h = h
fail-IsSingle (some undefined) i status t at h = h
fail-IsSingle (some rejected) i status t at h = h
fail-IsSingle none i status t at h = h

respond-IsSingle :
    (o : Option Status) (i : ℕ) (t : BrowserTab)
    → get_elem? t.requests i ≡ o
    → IsSingle t
    → IsSingle (Request.respond o i t)
respond-IsSingle (some (sent retried)) i t at h =
    settle-IsSingle i retried responded t t at refl (refl, refl, refl, refl, refl, refl) h
respond-IsSingle (some waiting) i t at h = h
respond-IsSingle (some responded) i t at h = h
respond-IsSingle (some undefined) i t at h = h
respond-IsSingle (some rejected) i t at h = h
respond-IsSingle none i t at h = h

start-IsSingle : (t : BrowserTab) → IsSingle t → IsSingle (step Event.start t)
unfolding step
start-IsSingle t (count, wait) = (
  count,
  elim wait [
    | inl on ↦ inl on
    | inr idle ↦ inr (omega (arith, total-append waits t.requests (sent false ∷ []), idle))
  ],
)

if-IsSingle :
    (b : Bool) (u t : BrowserTab)
    → (b ≡ true → IsSingle u)
    → IsSingle t
    → IsSingle (if b then u else t)
if-IsSingle true u t hu h = hu refl
if-IsSingle false u t hu h = h

step-IsSingle : (e : Event) (t : BrowserTab) → IsSingle t → IsSingle (step e t)
unfolding step
step-IsSingle Event.start t h = start-IsSingle t h
step-IsSingle (Event.response i) t h = respond-IsSingle _ i t refl h
step-IsSingle (Event.error i status) t h = fail-IsSingle _ i status t refl h
step-IsSingle (Event.refreshed token refresh_token) t h =
    if-IsSingle t.refreshing (on_refreshed token refresh_token t) t
      (λ on. on_refreshed-IsSingle token refresh_token t on h) h
step-IsSingle (Event.refresh_error status) t h =
    if-IsSingle t.refreshing (on_refresh_error status t) t
      (λ on. on_refresh_error-IsSingle status t on h) h
step-IsSingle Event.timer t h = h

run-keeps : (es : List Event) (t : BrowserTab) → IsSingle t → IsSingle (run es t)
unfolding run
run-keeps [] t h = h
run-keeps (e ∷ es) t h = run-keeps es (step e t) (step-IsSingle e t h)

-- Through every sequence of events all requests for a refresh but at most one have ended, however
-- many requests failed with 401 at the same time, and a request waits only while a refresh is under
-- way.
pub run-IsSingle :
    (token refresh_token : Option String) (es : List Event)
    → IsSingle (run es (open_tab token refresh_token))
unfolding open_tab
run-IsSingle token refresh_token es = run-keeps es _ (refl, inr refl)
