-- ===== src/Ui/Form/Tests.antt =====
-- The dialog at concrete states.
use astiango_hub.Common.{Bool, not, str_eq, ◌≡◌, refl, String, true, false, some, List, [], ◌∷◌}
use astiango_hub.Ui.BaseStore.Mutations.{set_confirm_loading, hide_dialog}
use astiango_hub.Ui.Form.{
  Form, Ending, accepted, rejected, thrown, FormEvent, confirm_clicked, valid, timed, replied,
  created, listed, request_of, run, is_form_item_disabled,
}
use astiango_hub.Ui.Form.Laws.{IsQuiet, run-IsQuiet, confirm_twice, confirm_replied, arrival}

abbrev creating : Form String String
creating = record {
  store = record {
    ns = "spider";
    dialog_visible = true;
    active_dialog_key = some "create";
    form = "news";
    is_selective_form = true;
    selected_form_fields = "name" ∷ [];
    readonly_form_fields = "mode" ∷ [];
    form_list = [];
    new_form_fn = λ _. "";
    confirm_loading = false;
    table_loading = false;
    table_data = [];
    table_total = 0;
    table_pagination = record { page = 1; size = 10 };
    table_list_filter = [];
    table_list_sort = [];
    sidebar_collapsed = false;
    actions_collapsed = false;
    tabs = [];
    disabled_tab_keys = [];
    nav_list = [];
    after_save = [];
  };
  confirmations = [];
  sent = [];
}

is_form_item_disabled-fields :
    (is_form_item_disabled "mode" creating.store ≡ true)
    × (is_form_item_disabled "name" creating.store ≡ false)
    × (is_form_item_disabled "col" creating.store ≡ true)
unfolding is_form_item_disabled
is_form_item_disabled-fields = (refl, refl, refl)

abbrev two_clicks : List FormEvent
two_clicks =
    confirm_clicked valid
    ∷ confirm_clicked valid
    ∷ timed 0
    ∷ replied 1 thrown
    ∷ timed 1
    ∷ replied 0 accepted
    ∷ []

-- The test of a text.
abbrev is_filled : String → Bool
is_filled form = not (str_eq form "")

run-IsQuiet_example : IsQuiet (run is_filled two_clicks creating)
run-IsQuiet_example = run-IsQuiet is_filled two_clicks creating (λ _. refl)

confirm_twice_example :
    let once = run is_filled (confirm_clicked valid ∷ []) creating in
    let twice = run is_filled (confirm_clicked valid ∷ confirm_clicked valid ∷ []) creating in
    (once.store.confirm_loading ≡ false)
    × (once.sent ≡ created "news" ∷ [])
    × (twice.store.confirm_loading ≡ false)
    × (twice.sent ≡ created "news" ∷ created "news" ∷ [])
unfolding request_of
confirm_twice_example = confirm_twice is_filled creating (created "news") refl refl refl

confirm_replied_example :
    let after : Ending → Form String String =
      λ e. run is_filled (confirm_clicked valid ∷ arrival true e) creating in
    ((after accepted).store ≡ hide_dialog (set_confirm_loading false creating.store))
    × ((after accepted).sent ≡ created "news" ∷ listed ∷ [])
    × ((after rejected).store ≡ set_confirm_loading false creating.store)
    × ((after rejected).sent ≡ created "news" ∷ [])
    × ((after thrown).store ≡ set_confirm_loading false creating.store)
    × ((after thrown).sent ≡ created "news" ∷ [])
unfolding request_of
confirm_replied_example = confirm_replied is_filled creating (created "news") true refl refl refl
