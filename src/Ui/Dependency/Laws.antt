-- ===== src/Ui/Dependency/Laws.antt =====
-- The requests and the flags of frontend/astiango-hub-ui/src/store/modules/dependency.ts.
use astiango_hub.Mcp.Session.{Outcome}
use astiango_hub.Mcp.Json.{Json}
use astiango_hub.Common.{String, Bool, ◌≡◌, refl, List}
use astiango_hub.Ui.BaseStore.{TablePagination}
use astiango_hub.Ui.BaseStore.Actions.{ListRequestParams, ListReply}
use astiango_hub.Ui.Dependency.{DependencyStoreState}
use astiango_hub.Ui.Dependency.Mutations.{
  set_installed_dependencies_table_pagination, set_search_repo_table_pagination,
  set_install_loading, set_uninstall_loading, set_setup_loading,
}
use astiango_hub.Ui.Dependency.Actions.{
  start_installed_dependency_list, start_search_repo_list, start_config_setup_list,
  start_repo_versions, start_config_versions, start_install, start_uninstall, start_setup,
  start_install_setup, finish_installed_dependency_list, finish_search_repo_list,
  finish_config_setup_list, finish_repo_versions, finish_config_versions, finish_then_list,
  finish_install_setup, search_repos,
}

-- The page that is chosen for the installed dependencies is not asked for: the request is the same
-- whatever page is set, while a search asks for the page of its own table.
pub start_installed_dependency_list-page :
    (p : TablePagination) (s : DependencyStoreState)
    → ((start_installed_dependency_list (set_installed_dependencies_table_pagination p s)).0
        ≡ (start_installed_dependency_list s).0)
      × ((start_search_repo_list (set_search_repo_table_pagination p s)).0
          ≡ search_repos p s.lang s.search_query)
unfolding start_installed_dependency_list start_search_repo_list
    set_installed_dependencies_table_pagination set_search_repo_table_pagination
start_installed_dependency_list-page p s = (refl, refl)

-- The flags that show that an action of the store waits.
pub record Flags : Type 0 where
  pub installed_list : Bool
  pub repo_list : Bool
  pub setup_list : Bool
  pub repo_versions : Bool
  pub config_versions : Bool
  pub install : Bool
  pub uninstall : Bool
  pub setup : Bool

abbrev pub flags : DependencyStoreState → Flags
flags s = record {
  installed_list = s.installed_dependencies.loading;
  repo_list = s.search_repo.loading;
  setup_list = s.config_setup.loading;
  repo_versions = s.get_versions_loading;
  config_versions = s.get_config_versions_loading;
  install = s.install_loading;
  uninstall = s.uninstall_loading;
  setup = s.setup_loading;
}

-- The actions that have a flag.
pub data DependencyAction : Type 0 where
  get_installed search_repos_list get_setups get_repo_versions get_config_versions :
      DependencyAction
  install_dependency uninstall_dependency setup_config install_config_setup : DependencyAction

-- The flags, with that of the action put to a value. Two actions share one.
abbrev pub put : DependencyAction → Bool → Flags → Flags
put get_installed b f = record f { installed_list = b }
put search_repos_list b f = record f { repo_list = b }
put get_setups b f = record f { setup_list = b }
put get_repo_versions b f = record f { repo_versions = b }
put get_config_versions b f = record f { config_versions = b }
put install_dependency b f = record f { install = b }
put uninstall_dependency b f = record f { uninstall = b }
put setup_config b f = record f { setup = b }
put install_config_setup b f = record f { setup = b }

-- The store when the request of an action is sent.
abbrev pub started : DependencyAction → DependencyStoreState → DependencyStoreState
started get_installed s = (start_installed_dependency_list s).1
started search_repos_list s = (start_search_repo_list s).1
started get_setups s = (start_config_setup_list s).1
started get_repo_versions s = (start_repo_versions s).1
started get_config_versions s = (start_config_versions s).1
started install_dependency s = (start_install s).1
started uninstall_dependency s = (start_uninstall s).1
started setup_config s = (start_setup s).1
started install_config_setup s = (start_install_setup s).1

module _ (get_md5 : List Json → String) (reply : Outcome (ListReply Json))
    (posted : Outcome (Unit {0})) (service : ListRequestParams → Outcome (ListReply Json))
    (meanwhile : DependencyStoreState → DependencyStoreState) where
  -- The store when an action ends: `reply` is that to a request for rows, `posted` that to another
  -- one, after which three of the actions ask `service` for the list.
  abbrev pub ended : DependencyAction → DependencyStoreState → DependencyStoreState
  ended get_installed s = finish_installed_dependency_list get_md5 reply s
  ended search_repos_list s = finish_search_repo_list get_md5 reply s
  ended get_setups s = finish_config_setup_list get_md5 reply s
  ended get_repo_versions s = finish_repo_versions reply s
  ended get_config_versions s = finish_config_versions reply s
  ended install_dependency s =
      (finish_then_list set_install_loading get_md5 service meanwhile posted s).1
  ended uninstall_dependency s =
      (finish_then_list set_uninstall_loading get_md5 service meanwhile posted s).1
  ended setup_config s = (finish_then_list set_setup_loading get_md5 service meanwhile posted s).1
  ended install_config_setup s = finish_install_setup posted s
