-- ===== src/Ui/FileStore.antt =====
-- frontend/astiango-hub-ui/src/store/utils/file.ts: the state that the stores with files share, its
-- getter and mutations, and the actions that commit.
pub mod Laws
mod Tests
use astiango_hub.Mcp.Session.{Outcome, ok, throw}
use astiango_hub.Common.{String, Bool, Option, none, some, List, [], ◌∷◌, str_eq, if◌then◌else◌}

-- A file or a folder, without its children, which no code of the module reads.
pub record FileNavItem : Type 0 where
  pub id : Option String
  pub is_dir : Option Bool
  pub path : Option String
  pub name : Option String
  pub extension : Option String

-- `file_content` is `none` where a reply had no data. The cache holds the newest text of a path first;
-- a path that is a name of `Object.prototype` is left aside.
pub record BaseFileStoreState : Type 0 where
  pub file_nav_items : List FileNavItem
  pub active_file_nav_item : Option FileNavItem
  pub file_content : Option String
  pub default_file_paths : List String
  pub editor_file_content_cache : List (String × String)

abbrev pub base_file_store_state : BaseFileStoreState
base_file_store_state = record {
  file_nav_items = [];
  active_file_nav_item = none;
  file_content = some "";
  default_file_paths = [];
  editor_file_content_cache = [];
}

unfoldable pub cached : List (String × String) → String → Option String
cached [] path = none
cached ((p, content) ∷ rest) path =
    let older = cached rest path in if str_eq p path then some content else older

abbrev path_key : Option String → String
path_key none = "undefined"
path_key (some path) = path

-- The key that `cache[activeFileNavItem?.path!]` reads: that of `undefined` where there is no path.
abbrev pub active_key : Option FileNavItem → String
active_key none = "undefined"
active_key (some item) = path_key item.path

abbrev pub cached_or : Option String → Option String → Option String
cached_or none content = content
cached_or (some text) content = some text

-- The getter `fileContent`.
unfoldable pub shown_content : BaseFileStoreState → Option String
unfolding cached
shown_content s =
    cached_or (cached s.editor_file_content_cache (active_key s.active_file_nav_item))
      s.file_content

unfoldable pub set_file_nav_items : List FileNavItem → BaseFileStoreState → BaseFileStoreState
set_file_nav_items nav_items s = record s { file_nav_items = nav_items }

unfoldable pub reset_file_nav_items : BaseFileStoreState → BaseFileStoreState
reset_file_nav_items s = record s { file_nav_items = [] }

unfoldable pub set_active_file_nav_item : FileNavItem → BaseFileStoreState → BaseFileStoreState
set_active_file_nav_item nav_item s = record s { active_file_nav_item = some nav_item }

unfoldable pub reset_active_file_nav_item : BaseFileStoreState → BaseFileStoreState
reset_active_file_nav_item s = record s { active_file_nav_item = none }

unfoldable pub set_file_content : Option String → BaseFileStoreState → BaseFileStoreState
set_file_content content s = record s { file_content = content }

unfoldable pub reset_file_content : BaseFileStoreState → BaseFileStoreState
reset_file_content s = record s { file_content = some "" }

unfoldable pub set_default_file_paths : List String → BaseFileStoreState → BaseFileStoreState
set_default_file_paths paths s = record s { default_file_paths = paths }

unfoldable pub reset_default_file_paths : BaseFileStoreState → BaseFileStoreState
reset_default_file_paths s = record s { default_file_paths = [] }

unfoldable pub set_editor_file_content_cache :
    String → String → BaseFileStoreState → BaseFileStoreState
set_editor_file_content_cache path content s = record s {
  editor_file_content_cache = (path, content) ∷ s.editor_file_content_cache;
}

unfoldable pub reset_editor_file_content_cache : BaseFileStoreState → BaseFileStoreState
reset_editor_file_content_cache s = record s { editor_file_content_cache = [] }

-- `data || []`
abbrev pub items_or_empty : Option (List FileNavItem) → List FileNavItem
items_or_empty none = []
items_or_empty (some nav_items) = nav_items

-- `listDir`, from the `data` of the reply.
unfoldable pub list_dir :
    Outcome (Option (List FileNavItem))
    → BaseFileStoreState
    → Outcome (Option (List FileNavItem)) × BaseFileStoreState
unfolding set_file_nav_items
list_dir (ok found) s = (ok found, set_file_nav_items (items_or_empty found) s)
list_dir (throw e) s = (throw e, s)

-- `getFile`, from the `data` of the reply.
unfoldable pub get_file :
    Outcome (Option String) → BaseFileStoreState → Outcome (Option String) × BaseFileStoreState
unfolding set_file_content
get_file (ok content) s = (ok content, set_file_content content s)
get_file (throw e) s = (throw e, s)
