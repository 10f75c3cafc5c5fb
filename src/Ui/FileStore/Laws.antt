-- ===== src/Ui/FileStore/Laws.antt =====
-- Which text the editor shows, by the getter of frontend/astiango-hub-ui/src/store/utils/file.ts.
use astiango_hub.Common.{
  String, ◌≡◌, ◌≢◌, ◌⊎◌, refl, sym, inl, inr, some, Bool-cases, str_eq, eq_iff,
}
use astiango_hub.Ui.FileStore.{
  BaseFileStoreState, cached, active_key, shown_content, set_editor_file_content_cache,
}

-- Caching a text under the path of the open file shows it, and under another path changes nothing that
-- is shown.
pub set_editor_file_content_cache_lem :
    (path content : String) (s : BaseFileStoreState)
    → ((active_key s.active_file_nav_item ≡ path)
        × (shown_content (set_editor_file_content_cache path content s) ≡ some content))
      ⊎ ((active_key s.active_file_nav_item ≢ path)
          × (shown_content (set_editor_file_content_cache path content s) ≡ shown_content s))
unfolding shown_content set_editor_file_content_cache cached
set_editor_file_content_cache_lem path content s =
    elim (Bool-cases (str_eq path (active_key s.active_file_nav_item))) [
      | inl same ↦ inl (sym ((eq_iff _ _).0 same), rw same refl)
      | inr differs ↦ inr ((λ e. cc ((eq_iff _ _).1 (sym e))), rw differs refl)
    ]
