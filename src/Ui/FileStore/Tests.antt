-- ===== src/Ui/FileStore/Tests.antt =====
-- The theorems on frontend/astiango-hub-ui/src/store/utils/file.ts at a concrete store.
use astiango_hub.Common.{none, some, [], ◌∷◌}
use astiango_hub.Ui.FileStore.{BaseFileStoreState}

abbrev editor : BaseFileStoreState
editor = record {
  file_nav_items = [];
  active_file_nav_item = some (record {
    id = none;
    is_dir = none;
    path = some "/a.py";
    name = none;
    extension = some "py";
  });
  file_content = some "saved";
  default_file_paths = [];
  editor_file_content_cache = ("/a.py", "edited") ∷ [];
}
