-- ===== src/Ui/BaseStore/Lists.antt =====
-- The action `getList` of frontend/astiango-hub-ui/src/utils/store.ts, whatever else is committed
-- while it waits.
use astiango_hub.Mcp.Session.{Outcome, ok, throw}
use astiango_hub.Common.{
  String, some, true, false, ◌≡◌, refl, sym, inl, inr, List, Bool-cases, str_eq, eq_iff,
}
use astiango_hub.Ui.BaseStore.{BaseStoreState}
use astiango_hub.Ui.BaseStore.Mutations.{set_table_loading, set_table_data}
use astiango_hub.Ui.BaseStore.Actions.{
  ListRequestParams, ListReply, rows_of, start_list, update_table, finish_list, get_list,
}

module _ {T C : Type 0} (get_md5 : List T → String) where
  -- The digest of the new rows tells them from those of the table.
  abbrev pub Tells : ListReply T → BaseStoreState T C → Type 0
  Tells res s = get_md5 (rows_of res.rows) ≡ get_md5 s.table_data → rows_of res.rows ≡ s.table_data

  finish-idle :
      (o : Outcome (ListReply T)) (s : BaseStoreState T C)
      → ((finish_list get_md5 o s).0 ≡ o) × ((finish_list get_md5 o s).1.table_loading ≡ false)
  unfolding finish_list set_table_loading
  finish-idle (ok res) s = (refl, refl)
  finish-idle (throw e) s = (refl, refl)

  finish-rows :
      (res : ListReply T) (s : BaseStoreState T C)
      → Tells res s
      → (finish_list get_md5 (ok res) s).1.table_data ≡ rows_of res.rows
  unfolding finish_list set_table_loading update_table set_table_data
  finish-rows res s tells =
      elim (Bool-cases (str_eq (get_md5 (rows_of res.rows)) (get_md5 s.table_data))) [
        | inl same ↦ rw same (sym (tells ((eq_iff _ _).0 same)))
        | inr differs ↦ rw differs refl
      ]

  module _ (service : ListRequestParams → Outcome (ListReply T))
      (meanwhile : BaseStoreState T C → BaseStoreState T C) (s : BaseStoreState T C) where
    -- `getList` first only marks the table as loading. It returns what the service answers to a request
    -- with the page, the size, the filters and the sorts that the state has then, also if this is an
    -- error. In the end the table is not loading, after an error as well.
    pub get_list-idle :
        ((start_list s).1 ≡ record s { table_loading = true })
        × ((get_list get_md5 service meanwhile s).0
            ≡ service (record {
              page = some s.table_pagination.page;
              size = some s.table_pagination.size;
              filter = some s.table_list_filter;
              sort = some s.table_list_sort;
            }))
        × ((get_list get_md5 service meanwhile s).1.table_loading ≡ false)
    unfolding get_list set_table_loading
    get_list-idle =
        let (answered, idle) =
          finish-idle (service (start_list s).0) (meanwhile (start_list s).1) in
        (refl, answered, idle)

    -- After a reply the table has its rows, none if the reply has none, if the digest tells them
    -- from the rows that the table had before.
    pub get_list-rows :
        (res : ListReply T)
        → service (start_list s).0 ≡ ok res
        → Tells res (meanwhile (start_list s).1)
        → (get_list get_md5 service meanwhile s).1.table_data ≡ rows_of res.rows
    unfolding get_list
    get_list-rows res e tells = rw e (finish-rows res (meanwhile (start_list s).1) tells)

    -- After an error the table has the rows and the total that it had when the error arrived.
    pub get_list-throw :
        (message : String)
        → service (start_list s).0 ≡ throw message
        → let before = meanwhile (start_list s).1 in
          let after = (get_list get_md5 service meanwhile s).1 in
          (after.table_data ≡ before.table_data) × (after.table_total ≡ before.table_total)
    unfolding get_list finish_list set_table_loading
    get_list-throw message e = rw e (refl, refl)

    -- A reply whose rows have the digest of the rows of the table does not change the total, whatever
    -- total the reply has.
    pub get_list-stale_total :
        (res : ListReply T)
        → service (start_list s).0 ≡ ok res
        → get_md5 (rows_of res.rows) ≡ get_md5 (meanwhile (start_list s).1).table_data
        → (get_list get_md5 service meanwhile s).1.table_total
          ≡ (meanwhile (start_list s).1).table_total
    unfolding get_list finish_list set_table_loading update_table
    get_list-stale_total res e same = rw e (rw ((eq_iff _ _).1 same) refl)

  -- Of two replies the one that arrives last fills the table, also if it answers the older request,
  -- if the digests tell the rows from those that the table has.
  pub finish_list-last :
      (older newer : ListReply T) (s : BaseStoreState T C)
      → let between = (finish_list get_md5 (ok newer) s).1 in
        Tells older between
        → (between.table_loading ≡ false)
          × ((finish_list get_md5 (ok older) between).1.table_data ≡ rows_of older.rows)
  finish_list-last older newer s tells = ((finish-idle (ok newer) s).1, finish-rows older _ tells)
