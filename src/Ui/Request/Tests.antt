-- ===== src/Ui/Request/Tests.antt =====
-- The theorems on frontend/astiango-hub-ui/src/services/request.ts at concrete events.
use astiango_hub.Common.{
  ◌≡◌, refl, arith, true, false, some, none, List, [], ◌∷◌, get_elem?, set_at,
}
use astiango_hub.Ui.Request.{waiting, responded, BrowserTab, Event, step, run, open_tab}
use astiango_hub.Ui.Request.Flight.{IsSingle, run-IsSingle}
use astiango_hub.Ui.Request.Retries.{IsBounded, run-IsBounded}
use astiango_hub.Ui.Request.Refreshes.{IsIdle, LoggedOut, refresh_failed-LoggedOut}

-- Two requests fail at the same time, and one refresh serves both.
abbrev both_fail : List Event
both_fail =
    Event.start
    ∷ Event.start
    ∷ Event.error 0 401
    ∷ Event.error 1 401
    ∷ Event.refreshed (some "t2") (some "r2")
    ∷ Event.response 0
    ∷ Event.error 1 401
    ∷ []

both_fail_test :
    ((run both_fail (open_tab (some "t") (some "r"))).refreshes ≡ 1)
    × ((run both_fail (open_tab (some "t") (some "r"))).sends ≡ 4)
unfolding run step open_tab get_elem? set_at
both_fail_test = (refl, refl)

run-IsSingle_example : IsSingle (run both_fail (open_tab (some "t") (some "r")))
run-IsSingle_example = run-IsSingle (some "t") (some "r") both_fail

run-IsBounded_example : IsBounded (run both_fail (open_tab (some "t") (some "r")))
run-IsBounded_example = run-IsBounded (some "t") (some "r") both_fail

abbrev refreshing_tab : BrowserTab
refreshing_tab = record {
  token = some "t";
  refresh_token = some "r";
  refreshing = true;
  msg_box_visible = false;
  requests = responded ∷ waiting ∷ [];
  sends = 2;
  refreshes = 1;
  refreshed = 0;
  notices = 0;
  pushes = 0;
  timers = 0;
}

refresh_failed-LoggedOut_example :
    let after_error = step (Event.refresh_error 401) refreshing_tab in
    let after_reply = step (Event.refreshed (some "t2") none) refreshing_tab in
    (IsIdle after_error × LoggedOut after_error) × (IsIdle after_reply × LoggedOut after_reply)
refresh_failed-LoggedOut_example =
    refresh_failed-LoggedOut 401 (some "t2") none refreshing_tab refl (omega arith) refl
