-- ===== src/Ui/Request.antt =====
-- The response interceptor of frontend/astiango-hub-ui/src/services/request.ts: the refresh of the
-- access token, the retry of requests, and the way to the login page. What the browser does next is
-- an event; the handlers run between two events, with the navigation that they wait for. Requests are
-- numbered in the order of their start.
pub mod Totals
pub mod Flight
pub mod Retries
pub mod Refreshes
mod Tests
use astiango_hub.Common.{
  ℕ, ◌+◌, String, Bool, true, false, not, ◌&&◌, Option, none, some, List, [], ◌∷◌, ◌++◌, ◌==◌,
  str_eq, if◌then◌else◌, get_elem?, set_at,
}

-- A request: under way, with `_jwtRetried`; in wait for the refresh; or at its end, with a response,
-- with `undefined` or with an error.
pub data Status : Type 0 where
  sent : Bool → Status
  waiting : Status
  responded undefined rejected : Status

-- `token` and `refresh_token` are those of `localStorage`, and `refreshing` tells whether
-- `refreshPromise` is set. The rest counts what the code does: requests that go out, requests to
-- '/refresh' and those that have ended, notifications, calls of `push('/login')`, and timers that ran.
pub record BrowserTab : Type 0 where
  pub token : Option String
  pub refresh_token : Option String
  pub refreshing : Bool
  pub msg_box_visible : Bool
  pub requests : List Status
  pub sends : ℕ
  pub refreshes : ℕ
  pub refreshed : ℕ
  pub notices : ℕ
  pub pushes : ℕ
  pub timers : ℕ

-- A text that is there and not empty.
abbrev pub truthy : Option String → Bool
truthy none = false
truthy (some s) = not (str_eq s "")

unfoldable pub clear_session : BrowserTab → BrowserTab
clear_session t = record t { token = none; refresh_token = none }

-- The branch for the status 401.
unfoldable pub unauthorized : BrowserTab → BrowserTab
unauthorized t =
    if truthy t.token
    then (if t.msg_box_visible
        then t
        else record t { msg_box_visible = true; notices = t.notices + 1; pushes = t.pushes + 1 })
    else record t { pushes = t.pushes + 1 }

-- `refreshAccessToken` up to its first wait; its caller has tested the refresh token.
unfoldable pub refresh_access_token : BrowserTab → BrowserTab
refresh_access_token t =
    if t.refreshing then t else record t { refreshing = true; refreshes = t.refreshes + 1 }

-- The error of a request, which is no request for a refresh.
unfoldable pub on_error : Bool → ℕ → BrowserTab → Status × BrowserTab
unfolding refresh_access_token unauthorized
on_error retried status t =
    if status == 401 && not retried && truthy t.refresh_token
    then (waiting, refresh_access_token t)
    else if status == 401
    then (undefined, unauthorized t)
    else (rejected, t)

-- The requests in wait go out again, each with `_jwtRetried`.
unfoldable pub retry_all : List Status → List Status
retry_all [] = []
retry_all (waiting ∷ rest) = sent true ∷ retry_all rest
retry_all (s ∷ rest) = s ∷ retry_all rest

unfoldable pub count_waiting : List Status → ℕ
count_waiting [] = 0
count_waiting (waiting ∷ rest) = count_waiting rest + 1
count_waiting (s ∷ rest) = count_waiting rest

-- The requests in wait end with `undefined`, each with its turn at the session.
unfoldable pub give_up_all : List Status → List Status
give_up_all [] = []
give_up_all (waiting ∷ rest) = undefined ∷ give_up_all rest
give_up_all (s ∷ rest) = s ∷ give_up_all rest

unfoldable pub close_sessions : List Status → BrowserTab → BrowserTab
unfolding clear_session unauthorized
close_sessions [] t = t
close_sessions (waiting ∷ rest) t = close_sessions rest (unauthorized (clear_session t))
close_sessions (s ∷ rest) t = close_sessions rest t

abbrev pub end_refresh : BrowserTab → BrowserTab
end_refresh t = record t {
  refreshing = false;
  refreshed = t.refreshed + 1;
  requests = give_up_all t.requests;
}

-- The end of a refresh that failed.
unfoldable pub fail_refresh : BrowserTab → BrowserTab
unfolding close_sessions give_up_all
fail_refresh t = close_sessions t.requests (end_refresh t)

-- The reply to the request for a refresh, with the two tokens of its data.
unfoldable pub on_refreshed : Option String → Option String → BrowserTab → BrowserTab
unfolding fail_refresh retry_all count_waiting
on_refreshed token refresh_token t =
    if truthy token && truthy refresh_token
    then record t {
      token = token;
      refresh_token = refresh_token;
      refreshing = false;
      refreshed = t.refreshed + 1;
      requests = retry_all t.requests;
      sends = t.sends + count_waiting t.requests;
    }
    else fail_refresh t

-- The error of the request for a refresh, which goes through the interceptor too.
unfoldable pub on_refresh_error : ℕ → BrowserTab → BrowserTab
unfolding unauthorized fail_refresh
on_refresh_error status t = fail_refresh (if status == 401 then unauthorized t else t)

pub data Event : Type 0 where
  start : Event
  response : (i : ℕ) → Event
  error : (i status : ℕ) → Event
  refreshed : (token refresh_token : Option String) → Event
  refresh_error : (status : ℕ) → Event
  timer : Event

abbrev pub respond : Option Status → ℕ → BrowserTab → BrowserTab
respond (some (sent _)) i t = record t { requests = set_at i responded t.requests }
respond _ i t = t

abbrev pub settle : ℕ → Status × BrowserTab → BrowserTab
settle i (s, t) = record t { requests = set_at i s t.requests }

abbrev pub fail : Option Status → ℕ → ℕ → BrowserTab → BrowserTab
fail (some (sent retried)) i status t = settle i (on_error retried status t)
fail _ i status t = t

-- One event; a reply comes only to what is under way.
unfoldable pub step : Event → BrowserTab → BrowserTab
unfolding on_error on_refreshed on_refresh_error
step start t = record t { requests = t.requests ++ sent false ∷ []; sends = t.sends + 1 }
step (response i) t = respond (get_elem? t.requests i) i t
step (error i status) t = fail (get_elem? t.requests i) i status t
step (refreshed token refresh_token) t =
    if t.refreshing then on_refreshed token refresh_token t else t
step (refresh_error status) t = if t.refreshing then on_refresh_error status t else t
step timer t = record t { msg_box_visible = false; timers = t.timers + 1 }

unfoldable pub run : List Event → BrowserTab → BrowserTab
run [] t = t
run (e ∷ es) t = run es (step e t)

-- A tab of the browser that was just opened.
unfoldable pub open_tab : Option String → Option String → BrowserTab
open_tab token refresh_token = record {
  token = token;
  refresh_token = refresh_token;
  refreshing = false;
  msg_box_visible = false;
  requests = [];
  sends = 0;
  refreshes = 0;
  refreshed = 0;
  notices = 0;
  pushes = 0;
  timers = 0;
}
