-- ===== src/Ui/Dependency.antt =====
-- frontend/astiango-hub-ui/src/store/modules/dependency.ts: the state of the store of dependencies, with
-- interfaces/store/modules/dependency.d.ts. What the store shares with others is in `base`. Repositories,
-- logs and configurations are `Json`.
pub mod Mutations
pub mod Actions
pub mod Laws
mod Tests
use astiango_hub.Common.{ℕ, String, Bool, true, false, Option, none, some, List, [], ◌∷◌}
use astiango_hub.Mcp.Json.{Json, str}
use astiango_hub.Ui.BaseStore.{BaseStoreState, TablePagination, default_pagination}

pub record DependencyInstallForm : Type 0 where
  pub mode : Option String
  pub name : Option String
  pub version : Option String
  pub node_ids : Option (List String)

pub record DependencyUninstallForm : Type 0 where
  pub mode : Option String
  pub names : Option (List String)
  pub node_ids : Option (List String)

pub record DependencySetupForm : Type 0 where
  pub node_id : Option String
  pub version : Option String
  pub mode : Option String
  pub node_ids : Option (List String)

-- The four fields of one of the tables, as `installedDependenciesTableLoading` and the three after it.
pub record DependencyTable : Type 0 where
  pub loading : Bool
  pub rows : List Json
  pub pagination : TablePagination
  pub total : ℕ

pub record DependencyStoreState : Type 0 where
  pub base : BaseStoreState Json Json
  pub lang : String
  pub search_query : String
  pub repo_tab_name : String
  pub installed_dependencies : DependencyTable
  pub search_repo : DependencyTable
  pub config_setup : DependencyTable
  pub install_form : DependencyInstallForm
  pub install_loading : Bool
  pub uninstall_form : DependencyUninstallForm
  pub uninstall_loading : Bool
  pub setup_form : DependencySetupForm
  pub setup_loading : Bool
  pub get_versions_loading : Bool
  pub versions : List Json
  pub active_target_id : Option String
  pub active_target_name : Option String
  pub active_target_status : Option String
  pub active_target_logs : List Json
  pub config : Option Json
  pub config_versions : List Json
  pub get_config_versions_loading : Bool
  pub active_config_setup : Option Json

abbrev pub new_table : DependencyTable
new_table = record { loading = false; rows = []; pagination = default_pagination; total = 0 }

abbrev pub all_install : DependencyInstallForm
all_install = record { mode = some "all"; name = none; version = none; node_ids = none }

abbrev pub all_uninstall : DependencyUninstallForm
all_uninstall = record { mode = some "all"; names = none; node_ids = none }

abbrev pub all_setup : DependencySetupForm
all_setup = record { node_id = none; version = none; mode = some "all"; node_ids = none }

-- `base` is the default state of a store. The last flag is missing in the source at first.
unfoldable pub initial_state : BaseStoreState Json Json → DependencyStoreState
initial_state base = record {
  base = record base {
    table_list_filter = record { key = some "type"; op = some "eq"; value = str "python" } ∷ [];
  };
  lang = "python";
  search_query = "";
  repo_tab_name = "installed";
  installed_dependencies = new_table;
  search_repo = new_table;
  config_setup = new_table;
  install_form = all_install;
  install_loading = false;
  uninstall_form = all_uninstall;
  uninstall_loading = false;
  setup_form = all_setup;
  setup_loading = false;
  get_versions_loading = false;
  versions = [];
  active_target_id = none;
  active_target_name = none;
  active_target_status = none;
  active_target_logs = [];
  config = none;
  config_versions = [];
  get_config_versions_loading = false;
  active_config_setup = none;
}
