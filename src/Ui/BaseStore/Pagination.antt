-- ===== src/Ui/BaseStore/Pagination.antt =====
-- The pagination of frontend/astiango-hub-ui/src/utils/store.ts, which `localStorage` keeps.
use astiango_hub.Common.{
  String, ◌≡◌, ◌≢◌, refl, sym, ◌∙◌, inl, inr, some, [], ◌∷◌, Bool-cases, str_eq, eq_iff,
}
use astiango_hub.Ui.BaseStore.{
  BaseStoreState, TablePagination, Settings, load_pagination, save_pagination, default_store_state,
}
use astiango_hub.Ui.BaseStore.Mutations.{set_table_pagination}

load-saved :
    (ns : String) (p : TablePagination) (st : Settings)
    → load_pagination ns (save_pagination ns p st) ≡ some p
unfolding load_pagination save_pagination
load-saved ns p [] = rw ((eq_iff ns ns).1 refl) refl
load-saved ns p ((n, q) ∷ rest) = elim (Bool-cases (str_eq n ns)) [
  | inl same ↦ rw same (rw same refl)
  | inr differs ↦ rw differs (rw differs (load-saved ns p rest))
]

load-other :
    (ns m : String) (p : TablePagination) (st : Settings)
    → ns ≢ m
    → load_pagination m (save_pagination ns p st) ≡ load_pagination m st
unfolding load_pagination save_pagination
load-other ns m p [] h = elim (Bool-cases (str_eq ns m)) [
  | inl same ↦ absurd (h ((eq_iff ns m).0 same))
  | inr differs ↦ rw differs refl
]
load-other ns m p ((n, q) ∷ rest) h = elim (Bool-cases (str_eq n ns)) [
  | inl same ↦ elim (Bool-cases (str_eq n m)) [
    | inl both ↦ absurd (h (sym ((eq_iff n ns).0 same) ∙ (eq_iff n m).0 both))
    | inr differs ↦ rw same (rw differs refl)
  ]
  | inr differs ↦ elim (Bool-cases (str_eq n m)) [
    | inl found ↦ rw differs (rw found refl)
    | inr missing ↦ rw differs (rw missing (load-other ns m p rest h))
  ]
]

-- A store that is made after a pagination was set starts with it, if it has the namespace of the
-- store where it was set, and else with the pagination that it would have had before.
pub set_table_pagination_lem :
    {T C : Type 0} (p : TablePagination) (s : BaseStoreState T C) (settings : Settings) (empty : T)
    (overview other : String)
    → s.ns ≢ other
    → let saved = (set_table_pagination p (s, settings)).1 in
      ((default_store_state {C = C} empty overview s.ns saved).table_pagination ≡ p)
      × ((default_store_state {C = C} empty overview other saved).table_pagination
          ≡ (default_store_state {C = C} empty overview other settings).table_pagination)
unfolding set_table_pagination default_store_state
set_table_pagination_lem p s settings empty overview other h =
    (rw (load-saved s.ns p settings) refl, rw (load-other s.ns other p settings h) refl)
