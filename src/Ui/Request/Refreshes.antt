-- ===== src/Ui/Request/Refreshes.antt =====
-- What the end of a refresh does in frontend/astiango-hub-ui/src/services/request.ts.
use astiango_hub.Common.{
  ℕ, ◌<◌, String, Bool, true, false, ◌≡◌, refl, inl, inr, ◌&&◌, Option, none, List, [], ◌∷◌, ◌==◌,
  arith, Bool-cases, if◌then◌else◌,
}
use astiango_hub.Ui.Request.{
  Status, sent, waiting, responded, undefined, rejected, BrowserTab, Event, truthy, clear_session,
  unauthorized, fail_refresh, on_refreshed, on_refresh_error, step, close_sessions, end_refresh,
}
use astiango_hub.Ui.Request.Totals.{
  total, waits, close_sessions-SameWork, unauthorized-SameWork, retry_all-none, give_up_all-none,
}

-- Nothing waits any more, and no refresh is under way.
abbrev pub IsIdle : BrowserTab → Type 0
IsIdle t = (t.refreshing ≡ false) × (total waits t.requests ≡ 0)

-- The session has no tokens.
abbrev pub LoggedOut : BrowserTab → Type 0
LoggedOut t = (t.token ≡ none) × (t.refresh_token ≡ none)

unauthorized-tokens :
    (t : BrowserTab)
    → ((unauthorized t).token ≡ t.token) × ((unauthorized t).refresh_token ≡ t.refresh_token)
unfolding unauthorized
unauthorized-tokens t = elim (Bool-cases (truthy t.token)) [
  | inl present ↦ elim (Bool-cases t.msg_box_visible) [
    | inl shown ↦ rw (present, shown) (refl, refl)
    | inr hidden ↦ rw (present, hidden) (refl, refl)
  ]
  | inr missing ↦ rw missing (refl, refl)
]

closed : (t : BrowserTab) → LoggedOut (unauthorized (clear_session t))
unfolding clear_session
closed t = unauthorized-tokens (clear_session t)

close_sessions-keeps :
    (xs : List Status) (t : BrowserTab) → LoggedOut t → LoggedOut (close_sessions xs t)
unfolding close_sessions
close_sessions-keeps [] t h = h
close_sessions-keeps (waiting ∷ xs) t h = close_sessions-keeps xs _ (closed t)
close_sessions-keeps (sent b ∷ xs) t h = close_sessions-keeps xs t h
close_sessions-keeps (responded ∷ xs) t h = close_sessions-keeps xs t h
close_sessions-keeps (undefined ∷ xs) t h = close_sessions-keeps xs t h
close_sessions-keeps (rejected ∷ xs) t h = close_sessions-keeps xs t h

close_sessions-LoggedOut :
    (xs : List Status) (t : BrowserTab) → 0 < total waits xs → LoggedOut (close_sessions xs t)
unfolding close_sessions
close_sessions-LoggedOut [] t h = absurd (omega arith)
close_sessions-LoggedOut (waiting ∷ xs) t h = close_sessions-keeps xs _ (closed t)
close_sessions-LoggedOut (sent b ∷ xs) t h = close_sessions-LoggedOut xs t (omega (arith, h))
close_sessions-LoggedOut (responded ∷ xs) t h = close_sessions-LoggedOut xs t (omega (arith, h))
close_sessions-LoggedOut (undefined ∷ xs) t h = close_sessions-LoggedOut xs t (omega (arith, h))
close_sessions-LoggedOut (rejected ∷ xs) t h = close_sessions-LoggedOut xs t (omega (arith, h))

fail_refresh-LoggedOut :
    (t : BrowserTab)
    → 0 < total waits t.requests
    → IsIdle (fail_refresh t) × LoggedOut (fail_refresh t)
unfolding fail_refresh
fail_refresh-LoggedOut t h =
    let (on, _, _, requests, _, _) = close_sessions-SameWork t.requests (end_refresh t) in
    (
      (on, rw requests (give_up_all-none t.requests)),
      close_sessions-LoggedOut t.requests (end_refresh t) h,
    )

on_refresh_error-LoggedOut :
    (status : ℕ) (t : BrowserTab)
    → 0 < total waits t.requests
    → IsIdle (on_refresh_error status t) × LoggedOut (on_refresh_error status t)
unfolding on_refresh_error
on_refresh_error-LoggedOut status t h = elim (Bool-cases (status == 401)) [
  | inl lost ↦
      let (_, _, _, requests, _, _) = unauthorized-SameWork t in
      rw lost (fail_refresh-LoggedOut (unauthorized t) (rw requests h))
  | inr other ↦ rw other (fail_refresh-LoggedOut t h)
]

on_refreshed-LoggedOut :
    (token refresh_token : Option String) (t : BrowserTab)
    → 0 < total waits t.requests
    → (truthy token && truthy refresh_token) ≡ false
    → IsIdle (on_refreshed token refresh_token t) × LoggedOut (on_refreshed token refresh_token t)
unfolding on_refreshed
on_refreshed-LoggedOut token refresh_token t h lacks = rw lacks (fail_refresh-LoggedOut t h)

while-refreshing :
    (P : BrowserTab → Type 0) (b : Bool) (u t : BrowserTab)
    → b ≡ true
    → P u
    → P (if b then u else t)
while-refreshing P true u t on h = h
while-refreshing P false u t on h = cc

-- The reply to a refresh with two tokens stores them, and every request that waited goes on.
pub refreshed-stores :
    (token refresh_token : Option String) (t : BrowserTab)
    → t.refreshing ≡ true
    → truthy token ≡ true
    → truthy refresh_token ≡ true
    → let after = step (Event.refreshed token refresh_token) t in
      IsIdle after × (after.token ≡ token) × (after.refresh_token ≡ refresh_token)
unfolding step on_refreshed
refreshed-stores token refresh_token t on e f =
    rw on (rw (e, f) ((refl, retry_all-none t.requests), refl, refl))

-- If a refresh for which requests wait ends with an error, or with a reply that lacks a token, the
-- session is logged out, and no request waits any more.
pub refresh_failed-LoggedOut :
    (status : ℕ) (token refresh_token : Option String) (t : BrowserTab)
    → t.refreshing ≡ true
    → 0 < total waits t.requests
    → (truthy token && truthy refresh_token) ≡ false
    → let after_error = step (Event.refresh_error status) t in
      let after_reply = step (Event.refreshed token refresh_token) t in
      (IsIdle after_error × LoggedOut after_error) × (IsIdle after_reply × LoggedOut after_reply)
unfolding step
refresh_failed-LoggedOut status token refresh_token t on some_wait lacks =
    let ends : BrowserTab → Type 0 = λ u. IsIdle u × LoggedOut u in
    (
      while-refreshing ends t.refreshing (on_refresh_error status t) t on
          (on_refresh_error-LoggedOut status t some_wait),
      while-refreshing ends t.refreshing (on_refreshed token refresh_token t) t on
          (on_refreshed-LoggedOut token refresh_token t some_wait lacks),
    )
