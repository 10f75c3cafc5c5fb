-- ===== src/Ui/Form.antt =====
-- `useForm` of frontend/astiango-hub-ui/src/components/ui/form/useForm.ts: the dialog that creates or
-- edits an entity. What happens to it is a sequence of events: confirmations, the end of the timer of
-- each, and the reply to its request. `T` is the type of the form.
pub mod Laws
mod Tests
use astiango_hub.Common.{
  ℕ, String, Bool, true, false, not, ◌&&◌, ◌||◌, Option, none, some, List, [], ◌∷◌, ◌++◌, get_elem?,
  modify_at, str_eq, suc, ◌+◌, if◌then◌else◌,
}
use astiango_hub.Ui.Menu.{includes}
use astiango_hub.Ui.BaseStore.{BaseStoreState}
use astiango_hub.Ui.BaseStore.Mutations.{set_confirm_loading, hide_dialog}

abbrev is_nil : List String → Bool
is_nil [] = true
is_nil (x ∷ xs) = false

-- The two closures of a confirmation: whether its timer is set, and the flag `isRequestFinished`.
pub record Confirmation : Type 0 where
  pub timer_set : Bool
  pub is_request_finished : Bool

-- A request that was sent.
pub data Sent (T : Type 0) : Type 0 where
  created : T → Sent T
  updated : T → Sent T
  listed : Sent T

module _ (T C : Type 0) where
  pub record Form : Type 0 where
    pub store : BaseStoreState T C
    pub confirmations : List Confirmation
    pub sent : List (Sent T)

-- How a request ends: with a response that has no error, with one that has, or by an exception.
pub data Ending : Type 0 where
  accepted rejected thrown : Ending

-- `validate()` gives true or false, or throws.
pub data Validity : Type 0 where
  valid invalid refused : Validity

pub data FormEvent : Type 0 where
  confirm_clicked : Validity → FormEvent
  timed : ℕ → FormEvent
  replied : ℕ → Ending → FormEvent

abbrev pub new_confirmation : Confirmation
new_confirmation = record { timer_set = true; is_request_finished = false }

abbrev pub end_timer : Confirmation → Confirmation
end_timer c = record c { timer_set = false }

abbrev pub finish : Confirmation → Confirmation
finish c = record c { is_request_finished = true }

module _ {T C : Type 0} where
  unfoldable pub is_form_item_disabled : String → BaseStoreState T C → Bool
  unfolding includes
  is_form_item_disabled prop s =
      if includes s.readonly_form_fields prop
      then true
      else if not s.is_selective_form
      then false
      else if str_eq prop ""
      then false
      else not (includes s.selected_form_fields prop)

  unfoldable pub confirm_disabled : BaseStoreState T C → Bool
  confirm_disabled s = s.is_selective_form && is_nil s.selected_form_fields

  unfoldable pub create_edit_dialog_visible : BaseStoreState T C → Bool
  unfolding includes
  create_edit_dialog_visible s = elim s.active_dialog_key [
    | none ↦ false
    | some key ↦ includes ("create" ∷ "edit" ∷ []) key
  ]

  -- The request of a confirmation, by the key of the dialog.
  unfoldable pub request_of : BaseStoreState T C → Option (Sent T)
  request_of s = elim s.active_dialog_key [
    | none ↦ none
    | some key ↦
        if str_eq key "create"
        then some (created s.form)
        else if str_eq key "edit"
        then some (updated s.form)
        else none
  ]

  -- Without a request the `finally` runs at once.
  abbrev send_or_stop : Option (Sent T) → Form T C → Form T C
  send_or_stop none f = record f {
    store = set_confirm_loading false f.store;
    confirmations = f.confirmations ++ finish new_confirmation ∷ [];
  }
  send_or_stop (some r) f = record f {
    confirmations = f.confirmations ++ new_confirmation ∷ [];
    sent = f.sent ++ r ∷ [];
  }

  -- `onConfirm()` up to its request. `is_set` is the test of the form, `!!form.value`.
  unfoldable pub on_confirm : (T → Bool) → Validity → Form T C → Form T C
  unfolding request_of
  on_confirm is_set valid f = if is_set f.store.form then send_or_stop (request_of f.store) f else f
  on_confirm is_set invalid f = f
  on_confirm is_set refused f = f

  abbrev time_out : Option Confirmation → ℕ → Form T C → Form T C
  time_out none i f = f
  time_out (some c) i f =
      if c.timer_set
      then record f {
        confirmations = modify_at i end_timer f.confirmations;
        store = if c.is_request_finished then f.store else set_confirm_loading true f.store;
      }
      else f

  -- The timer of 50 ms of the confirmation at an index ends.
  unfoldable pub on_timer : ℕ → Form T C → Form T C
  on_timer i f = time_out (get_elem? f.confirmations i) i f

  -- `hideDialog`, and the request for the list.
  abbrev pub close : Ending → Form T C → Form T C
  close accepted f = record f { store = hide_dialog f.store; sent = f.sent ++ listed ∷ [] }
  close rejected f = f
  close thrown f = f

  abbrev settle : Option Confirmation → ℕ → Ending → Form T C → Form T C
  settle none i e f = f
  settle (some c) i e f =
      if c.is_request_finished
      then f
      else close e (record f {
        store = set_confirm_loading false f.store;
        confirmations = modify_at i finish f.confirmations;
      })

  -- The rest of `onConfirm()`, when the request of the confirmation at an index ends, which it does once.
  unfoldable pub on_reply : ℕ → Ending → Form T C → Form T C
  on_reply i e f = settle (get_elem? f.confirmations i) i e f

  unfoldable pub step : (T → Bool) → FormEvent → Form T C → Form T C
  unfolding on_confirm on_timer on_reply
  step is_set (confirm_clicked v) f = on_confirm is_set v f
  step is_set (timed i) f = on_timer i f
  step is_set (replied i e) f = on_reply i e f

  unfoldable pub run : (T → Bool) → List FormEvent → Form T C → Form T C
  unfolding step
  run is_set [] f = f
  run is_set (e ∷ events) f = run is_set events (step is_set e f)
