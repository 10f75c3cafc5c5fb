-- ===== src/Ui/Form/Laws.antt =====
-- When the button of a dialog shows that it is loading, and what confirming does:
-- frontend/astiango-hub-ui/src/components/ui/form/useForm.ts.
use astiango_hub.Common.{
  ℕ, zero, suc, Bool, true, false, ◌≡◌, refl, sym, ap, ◌∙◌, inl, inr, some, List, [], ◌∷◌, ◌++◌,
  All, get_elem?, modify_at, Bool-cases, Option-cases, append_assoc,
}
use mathlib.Core.Option.{some-injective}
use astiango_hub.Ui.BaseStore.Mutations.{set_confirm_loading, hide_dialog}
use astiango_hub.Ui.Form.{
  Confirmation, Form, Sent, listed, Ending, accepted, rejected, thrown, Validity, valid, invalid,
  refused, FormEvent, confirm_clicked, timed, replied, new_confirmation, end_timer, request_of,
  on_confirm, on_timer, close, on_reply, step, run,
}

abbrev IsFinished : Confirmation → Type 0
IsFinished c = c.is_request_finished ≡ true

All-last :
    (c : Confirmation) (cs : List Confirmation) → All IsFinished (cs ++ c ∷ []) → IsFinished c
All-last c [] (h, _) = h
All-last c (d ∷ cs) (_, h) = All-last c cs h

All-at :
    (cs : List Confirmation) (i : ℕ) (c : Confirmation)
    → All IsFinished cs
    → get_elem? cs i ≡ some c
    → IsFinished c
unfolding get_elem?
All-at [] i c h e = cc
All-at (d ∷ cs) zero c (here, h) e =
    ap (λ (x : Confirmation). x.is_request_finished) (sym (some-injective d c e)) ∙ here
All-at (d ∷ cs) (suc i) c (here, h) e = All-at cs i c h e

All-end_timer :
    (cs : List Confirmation) (i : ℕ) → All IsFinished (modify_at i end_timer cs) → All IsFinished cs
unfolding modify_at
All-end_timer [] i h = h
All-end_timer (d ∷ cs) zero (here, h) = (here, h)
All-end_timer (d ∷ cs) (suc i) (here, h) = (here, All-end_timer cs i h)

-- The reply to the first confirmation comes after its timer, or before it.
abbrev pub arrival : Bool → Ending → List FormEvent
arrival true e = timed 0 ∷ replied 0 e ∷ []
arrival false e = replied 0 e ∷ timed 0 ∷ []

module _ {T C : Type 0} where
  -- The button does not show that it is loading when every request has ended.
  abbrev pub IsQuiet : Form T C → Type 0
  IsQuiet f = All IsFinished f.confirmations → f.store.confirm_loading ≡ false

module _ {T C : Type 0} (is_set : T → Bool) where
  confirm-IsQuiet : (v : Validity) (f : Form T C) → IsQuiet f → IsQuiet (on_confirm is_set v f)
  unfolding on_confirm set_confirm_loading
  confirm-IsQuiet valid f h = elim (Bool-cases (is_set f.store.form)) [
    | inr missing ↦ rw missing h
    | inl there ↦ elim (Option-cases (request_of f.store)) [
      | inl nothing ↦ rw (there, nothing) (λ _. refl)
      | inr (r, made) ↦
          rw (there, made) (λ all. absurd (cc (All-last new_confirmation f.confirmations all)))
    ]
  ]
  confirm-IsQuiet invalid f h = h
  confirm-IsQuiet refused f h = h

  timer-IsQuiet : (i : ℕ) (f : Form T C) → IsQuiet f → IsQuiet (on_timer i f)
  unfolding on_timer set_confirm_loading
  timer-IsQuiet i f h = elim (Option-cases (get_elem? f.confirmations i)) [
    | inl nothing ↦ rw nothing h
    | inr (c, at) ↦ rw at (elim (Bool-cases c.timer_set) [
      | inl is_set ↦ rw is_set (elim (Bool-cases c.is_request_finished) [
        | inl ended ↦ rw ended (λ all. h (All-end_timer f.confirmations i all))
        | inr waiting ↦ rw waiting (λ all.
            absurd
              (cc (All-at f.confirmations i c (All-end_timer f.confirmations i all) at, waiting)))
      ])
      | inr off ↦ rw off h
    ])
  ]

  close-quiet :
      (e : Ending) (f : Form T C)
      → f.store.confirm_loading ≡ false
      → (close e f).store.confirm_loading ≡ false
  unfolding hide_dialog
  close-quiet accepted f h = refl
  close-quiet rejected f h = h
  close-quiet thrown f h = h

  reply-IsQuiet : (i : ℕ) (e : Ending) (f : Form T C) → IsQuiet f → IsQuiet (on_reply i e f)
  unfolding on_reply set_confirm_loading hide_dialog
  reply-IsQuiet i e f h = elim (Option-cases (get_elem? f.confirmations i)) [
    | inl nothing ↦ rw nothing h
    | inr (c, at) ↦ rw at (elim (Bool-cases c.is_request_finished) [
      | inl ended ↦ rw ended h
      | inr waiting ↦ rw waiting (λ _. close-quiet e _ refl)
    ])
  ]

  step-IsQuiet : (e : FormEvent) (f : Form T C) → IsQuiet f → IsQuiet (step is_set e f)
  unfolding step
  step-IsQuiet (confirm_clicked v) f h = confirm-IsQuiet v f h
  step-IsQuiet (timed i) f h = timer-IsQuiet i f h
  step-IsQuiet (replied i e) f h = reply-IsQuiet i e f h

  -- Through every sequence of confirmations, timers and replies, in any order, the button does not show
  -- that it is loading once every request has ended, if this held at the start.
  pub run-IsQuiet :
      (events : List FormEvent) (f : Form T C) → IsQuiet f → IsQuiet (run is_set events f)
  unfolding run
  run-IsQuiet [] f h = h
  run-IsQuiet (e ∷ events) f h = run-IsQuiet events (step is_set e f) (step-IsQuiet e f h)

  -- A dialog that has a form, creates or edits, and does not show that it is loading is confirmed twice
  -- before its timer ends. After each of the two confirmations it does not show that it is loading, and
  -- has sent one request more: the second click sends the same request again.
  pub confirm_twice :
      (f : Form T C) (r : Sent T)
      → is_set f.store.form ≡ true
      → request_of f.store ≡ some r
      → f.store.confirm_loading ≡ false
      → let once = run is_set (confirm_clicked valid ∷ []) f in
        let twice = run is_set (confirm_clicked valid ∷ confirm_clicked valid ∷ []) f in
        (once.store.confirm_loading ≡ false)
        × (once.sent ≡ f.sent ++ r ∷ [])
        × (twice.store.confirm_loading ≡ false)
        × (twice.sent ≡ f.sent ++ r ∷ r ∷ [])
  unfolding run step on_confirm
  confirm_twice f r there made quiet =
      rw (there, made, there, made) (quiet, refl, quiet, append_assoc f.sent (r ∷ []) (r ∷ []))

  -- The reply to the first confirmation of a dialog that has a form and creates or edits, before or after its timer:
  -- without an error the dialog closes and the list is requested; with one the dialog stays and nothing
  -- else is sent. Neither shows as loading.
  pub confirm_replied :
      (f : Form T C) (r : Sent T) (late : Bool)
      → f.confirmations ≡ []
      → is_set f.store.form ≡ true
      → request_of f.store ≡ some r
      → let after : Ending → Form T C =
          λ e. run is_set (confirm_clicked valid ∷ arrival late e) f in
        ((after accepted).store ≡ hide_dialog (set_confirm_loading false f.store))
        × ((after accepted).sent ≡ f.sent ++ r ∷ listed ∷ [])
        × ((after rejected).store ≡ set_confirm_loading false f.store)
        × ((after rejected).sent ≡ f.sent ++ r ∷ [])
        × ((after thrown).store ≡ set_confirm_loading false f.store)
        × ((after thrown).sent ≡ f.sent ++ r ∷ [])
  unfolding run step on_confirm on_timer on_reply get_elem? modify_at set_confirm_loading
      hide_dialog
  confirm_replied f r true none_yet there made =
      rw (none_yet, there, made)
        (refl, append_assoc f.sent (r ∷ []) (listed ∷ []), refl, refl, refl, refl)
  confirm_replied f r false none_yet there made =
      rw (none_yet, there, made)
        (refl, append_assoc f.sent (r ∷ []) (listed ∷ []), refl, refl, refl, refl)
