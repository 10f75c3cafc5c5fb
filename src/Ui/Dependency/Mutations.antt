-- ===== src/Ui/Dependency/Mutations.antt =====
-- The mutations of frontend/astiango-hub-ui/src/store/modules/dependency.ts.
use astiango_hub.Common.{ℕ, String, Bool, Option, none, some, List, []}
use astiango_hub.Mcp.Json.{Json}
use astiango_hub.Ui.BaseStore.{TablePagination, default_pagination}
use astiango_hub.Ui.Dependency.{
  DependencyInstallForm, DependencyUninstallForm, DependencySetupForm, DependencyStoreState,
  all_install, all_uninstall,
}

unfoldable pub set_lang : String → DependencyStoreState → DependencyStoreState
set_lang value s = record s { lang = value }

unfoldable pub set_search_query : String → DependencyStoreState → DependencyStoreState
set_search_query value s = record s { search_query = value }

unfoldable pub set_repo_tab_name : String → DependencyStoreState → DependencyStoreState
set_repo_tab_name value s = record s { repo_tab_name = value }

unfoldable pub set_installed_dependencies_table_loading :
    Bool → DependencyStoreState → DependencyStoreState
set_installed_dependencies_table_loading loading s = record s {
  installed_dependencies = record (s.installed_dependencies) { loading = loading };
}

unfoldable pub set_installed_dependencies_table_data :
    List Json → ℕ → DependencyStoreState → DependencyStoreState
set_installed_dependencies_table_data rows total s = record s {
  installed_dependencies = record (s.installed_dependencies) { rows = rows; total = total };
}

unfoldable pub reset_installed_dependencies_table_data : DependencyStoreState → DependencyStoreState
reset_installed_dependencies_table_data s = record s {
  installed_dependencies = record (s.installed_dependencies) { rows = []; total = 0 };
}

unfoldable pub set_installed_dependencies_table_pagination :
    TablePagination → DependencyStoreState → DependencyStoreState
set_installed_dependencies_table_pagination p s = record s {
  installed_dependencies = record (s.installed_dependencies) { pagination = p };
}

unfoldable pub reset_installed_dependencies_table_pagination :
    DependencyStoreState → DependencyStoreState
reset_installed_dependencies_table_pagination s = record s {
  installed_dependencies = record (s.installed_dependencies) { pagination = default_pagination };
}

unfoldable pub set_search_repo_table_loading : Bool → DependencyStoreState → DependencyStoreState
set_search_repo_table_loading loading s = record s {
  search_repo = record (s.search_repo) { loading = loading };
}

unfoldable pub set_search_repo_table_data :
    List Json → ℕ → DependencyStoreState → DependencyStoreState
set_search_repo_table_data rows total s = record s {
  search_repo = record (s.search_repo) { rows = rows; total = total };
}

unfoldable pub reset_search_repo_table_data : DependencyStoreState → DependencyStoreState
reset_search_repo_table_data s = record s {
  search_repo = record (s.search_repo) { rows = []; total = 0 };
}

unfoldable pub set_search_repo_table_pagination :
    TablePagination → DependencyStoreState → DependencyStoreState
set_search_repo_table_pagination p s = record s {
  search_repo = record (s.search_repo) { pagination = p };
}

unfoldable pub reset_search_repo_table_pagination : DependencyStoreState → DependencyStoreState
reset_search_repo_table_pagination s = record s {
  search_repo = record (s.search_repo) { pagination = default_pagination };
}

unfoldable pub set_config_setup_table_loading : Bool → DependencyStoreState → DependencyStoreState
set_config_setup_table_loading loading s = record s {
  config_setup = record (s.config_setup) { loading = loading };
}

unfoldable pub set_config_setup_table_data :
    List Json → ℕ → DependencyStoreState → DependencyStoreState
set_config_setup_table_data rows total s = record s {
  config_setup = record (s.config_setup) { rows = rows; total = total };
}

unfoldable pub reset_config_setup_table_data : DependencyStoreState → DependencyStoreState
reset_config_setup_table_data s = record s {
  config_setup = record (s.config_setup) { rows = []; total = 0 };
}

unfoldable pub set_config_setup_table_pagination :
    TablePagination → DependencyStoreState → DependencyStoreState
set_config_setup_table_pagination p s = record s {
  config_setup = record (s.config_setup) { pagination = p };
}

unfoldable pub reset_config_setup_table_pagination : DependencyStoreState → DependencyStoreState
reset_config_setup_table_pagination s = record s {
  config_setup = record (s.config_setup) { pagination = default_pagination };
}

unfoldable pub set_install_form :
    DependencyInstallForm → DependencyStoreState → DependencyStoreState
set_install_form form s = record s { install_form = form }

unfoldable pub reset_install_form : DependencyStoreState → DependencyStoreState
reset_install_form s = record s { install_form = all_install }

unfoldable pub set_install_loading : Bool → DependencyStoreState → DependencyStoreState
set_install_loading loading s = record s { install_loading = loading }

unfoldable pub set_uninstall_form :
    DependencyUninstallForm → DependencyStoreState → DependencyStoreState
set_uninstall_form form s = record s { uninstall_form = form }

unfoldable pub reset_uninstall_form : DependencyStoreState → DependencyStoreState
reset_uninstall_form s = record s { uninstall_form = all_uninstall }

unfoldable pub set_uninstall_loading : Bool → DependencyStoreState → DependencyStoreState
set_uninstall_loading loading s = record s { uninstall_loading = loading }

unfoldable pub set_setup_form : DependencySetupForm → DependencyStoreState → DependencyStoreState
set_setup_form form s = record s { setup_form = form }

-- The form `{}`, without the mode that it starts with.
unfoldable pub reset_setup_form : DependencyStoreState → DependencyStoreState
reset_setup_form s = record s {
  setup_form = record { node_id = none; version = none; mode = none; node_ids = none };
}

unfoldable pub set_setup_loading : Bool → DependencyStoreState → DependencyStoreState
set_setup_loading loading s = record s { setup_loading = loading }

unfoldable pub set_versions : List Json → DependencyStoreState → DependencyStoreState
set_versions versions s = record s { versions = versions }

unfoldable pub reset_versions : DependencyStoreState → DependencyStoreState
reset_versions s = record s { versions = [] }

unfoldable pub set_get_versions_loading : Bool → DependencyStoreState → DependencyStoreState
set_get_versions_loading loading s = record s { get_versions_loading = loading }

unfoldable pub set_active_target_id : String → DependencyStoreState → DependencyStoreState
set_active_target_id value s = record s { active_target_id = some value }

unfoldable pub reset_active_target_id : DependencyStoreState → DependencyStoreState
reset_active_target_id s = record s { active_target_id = none }

unfoldable pub set_active_target_name : String → DependencyStoreState → DependencyStoreState
set_active_target_name value s = record s { active_target_name = some value }

unfoldable pub reset_active_target_name : DependencyStoreState → DependencyStoreState
reset_active_target_name s = record s { active_target_name = none }

unfoldable pub set_active_target_status : String → DependencyStoreState → DependencyStoreState
set_active_target_status value s = record s { active_target_status = some value }

unfoldable pub reset_active_target_status : DependencyStoreState → DependencyStoreState
reset_active_target_status s = record s { active_target_status = none }

unfoldable pub set_active_target_logs : List Json → DependencyStoreState → DependencyStoreState
set_active_target_logs logs s = record s { active_target_logs = logs }

unfoldable pub reset_active_target_logs : DependencyStoreState → DependencyStoreState
reset_active_target_logs s = record s { active_target_logs = [] }

unfoldable pub set_config : Option Json → DependencyStoreState → DependencyStoreState
set_config config s = record s { config = config }

unfoldable pub reset_config : DependencyStoreState → DependencyStoreState
reset_config s = record s { config = none }

unfoldable pub set_config_versions : List Json → DependencyStoreState → DependencyStoreState
set_config_versions versions s = record s { config_versions = versions }

unfoldable pub reset_config_versions : DependencyStoreState → DependencyStoreState
reset_config_versions s = record s { config_versions = [] }

unfoldable pub set_get_config_versions_loading : Bool → DependencyStoreState → DependencyStoreState
set_get_config_versions_loading loading s = record s { get_config_versions_loading = loading }

unfoldable pub set_active_config_setup : Json → DependencyStoreState → DependencyStoreState
set_active_config_setup setup s = record s { active_config_setup = some setup }

unfoldable pub reset_active_config_setup : DependencyStoreState → DependencyStoreState
reset_active_config_setup s = record s { active_config_setup = none }
