-- ===== src/Ui/Dependency/Actions.antt =====
-- The actions of frontend/astiango-hub-ui/src/store/modules/dependency.ts, each as its request and what is
-- done with the reply. What else is committed while an action waits is an argument.
use astiango_hub.Mcp.Session.{Outcome, ok, throw}
use astiango_hub.Mcp.Json.{Json}
use astiango_hub.Common.{
  String, Bool, true, false, Option, none, some, List, [], ◌∷◌, str_eq, if◌then◌else◌,
}
use astiango_hub.Ui.BaseStore.{TablePagination}
use astiango_hub.Ui.BaseStore.Actions.{
  ListRequestParams, ListReply, rows_of, start_list, finish_list,
}
use astiango_hub.Ui.Dependency.{
  DependencyInstallForm, DependencyUninstallForm, DependencySetupForm, DependencyTable,
  DependencyStoreState,
}
use astiango_hub.Ui.Dependency.Mutations.{
  set_installed_dependencies_table_loading, set_installed_dependencies_table_data,
  set_search_repo_table_loading, set_search_repo_table_data, set_config_setup_table_loading,
  set_config_setup_table_data, set_get_versions_loading, set_versions, set_install_loading,
  set_uninstall_loading, set_setup_loading, set_active_target_logs, set_config, set_config_versions,
  set_get_config_versions_loading,
}

-- The requests below '/dependencies', without the texts of their addresses.
pub data DependencyRequest : Type 0 where
  repos : ListRequestParams → (lang : String) → DependencyRequest
  search_repos : TablePagination → (lang query : String) → DependencyRequest
  repo_versions : (lang : String) → (repo : Option String) → DependencyRequest
  install : DependencyInstallForm → (lang : String) → DependencyRequest
  uninstall : DependencyUninstallForm → (lang : String) → DependencyRequest
  setup : DependencySetupForm → (lang : String) → DependencyRequest
  target_logs : (id : String) → DependencyRequest
  get_config : (lang : String) → DependencyRequest
  put_config : (lang : String) → Option Json → DependencyRequest
  config_versions : (lang : String) → DependencyRequest
  config_setups : (lang : String) → TablePagination → DependencyRequest
  install_setup :
      (lang : String)
      → (mode version : Option String) → (node_ids : Option (List String)) → DependencyRequest

abbrev S : Type 0
S = DependencyStoreState

-- `if (getMd5(…) !== getMd5(…)) commit(…)`
abbrev pub if_changed : (List Json → String) → List Json → DependencyTable → (S → S) → S → S
if_changed get_md5 rows table commit s =
    if str_eq (get_md5 rows) (get_md5 table.rows) then s else commit s

-- `getInstalledDependencyList`
unfoldable pub start_installed_dependency_list : S → DependencyRequest × S
unfolding set_installed_dependencies_table_loading
start_installed_dependency_list s = (
  repos
      (record {
        page = some s.base.table_pagination.page;
        size = some s.base.table_pagination.size;
        filter = some s.base.table_list_filter;
        sort = some s.base.table_list_sort;
      })
      s.lang,
  set_installed_dependencies_table_loading true s,
)

unfoldable pub finish_installed_dependency_list :
    (List Json → String) → Outcome (ListReply Json) → S → S
unfolding set_installed_dependencies_table_loading set_installed_dependencies_table_data
finish_installed_dependency_list get_md5 (ok res) s =
    set_installed_dependencies_table_loading false (
      if_changed get_md5 (rows_of res.rows) s.installed_dependencies
        (set_installed_dependencies_table_data (rows_of res.rows) res.total) s)
finish_installed_dependency_list get_md5 (throw e) s =
    set_installed_dependencies_table_loading false s

-- `searchRepoList`
unfoldable pub start_search_repo_list : S → DependencyRequest × S
unfolding set_search_repo_table_loading
start_search_repo_list s = (
  search_repos s.search_repo.pagination s.lang s.search_query,
  set_search_repo_table_loading true s,
)

unfoldable pub finish_search_repo_list : (List Json → String) → Outcome (ListReply Json) → S → S
unfolding set_search_repo_table_loading set_search_repo_table_data
finish_search_repo_list get_md5 (ok res) s = set_search_repo_table_loading false (
    if_changed get_md5 (rows_of res.rows) s.search_repo
      (set_search_repo_table_data (rows_of res.rows) res.total) s)
finish_search_repo_list get_md5 (throw e) s = set_search_repo_table_loading false s

-- `getConfigSetupList`
unfoldable pub start_config_setup_list : S → DependencyRequest × S
unfolding set_config_setup_table_loading
start_config_setup_list s =
    (config_setups s.lang s.config_setup.pagination, set_config_setup_table_loading true s)

unfoldable pub finish_config_setup_list : (List Json → String) → Outcome (ListReply Json) → S → S
unfolding set_config_setup_table_loading set_config_setup_table_data
finish_config_setup_list get_md5 (ok res) s = set_config_setup_table_loading false (
    if_changed get_md5 (rows_of res.rows) s.config_setup
      (set_config_setup_table_data (rows_of res.rows) res.total) s)
finish_config_setup_list get_md5 (throw e) s = set_config_setup_table_loading false s

-- `getRepoVersions`
unfoldable pub start_repo_versions : S → DependencyRequest × S
unfolding set_get_versions_loading
start_repo_versions s = (repo_versions s.lang s.install_form.name, set_get_versions_loading true s)

unfoldable pub finish_repo_versions : Outcome (ListReply Json) → S → S
unfolding set_get_versions_loading set_versions
finish_repo_versions (ok res) s = set_get_versions_loading false (set_versions (rows_of res.rows) s)
finish_repo_versions (throw e) s = set_get_versions_loading false s

-- `getDependencyConfigVersions`
unfoldable pub start_config_versions : S → DependencyRequest × S
unfolding set_get_config_versions_loading
start_config_versions s = (config_versions s.lang, set_get_config_versions_loading true s)

unfoldable pub finish_config_versions : Outcome (ListReply Json) → S → S
unfolding set_get_config_versions_loading set_config_versions
finish_config_versions (ok res) s =
    set_get_config_versions_loading false (set_config_versions (rows_of res.rows) s)
finish_config_versions (throw e) s = set_get_config_versions_loading false s

-- `getActiveTargetLogs`, which sends nothing without a target.
unfoldable pub start_active_target_logs : S → Option DependencyRequest
start_active_target_logs s = elim s.active_target_id [
  | none ↦ none
  | some id ↦ if str_eq id "" then none else some (target_logs id)
]

unfoldable pub finish_active_target_logs : Outcome (ListReply Json) → S → S
unfolding set_active_target_logs
finish_active_target_logs (ok res) s = set_active_target_logs (rows_of res.rows) s
finish_active_target_logs (throw e) s = s

-- `getDependencyConfig`
unfoldable pub start_dependency_config : S → DependencyRequest
start_dependency_config s = get_config s.lang

unfoldable pub finish_dependency_config : Outcome (Option Json) → S → S
unfolding set_config
finish_dependency_config (ok config) s = set_config config s
finish_dependency_config (throw e) s = s

-- `saveDependencyConfig`: the request, and after it that for the configuration.
unfoldable pub start_save_config : S → DependencyRequest
start_save_config s = put_config s.lang s.config

unfoldable pub finish_save_config : Outcome (Unit {0}) → S → Option DependencyRequest
unfolding start_dependency_config
finish_save_config (ok _) s = some (start_dependency_config s)
finish_save_config (throw e) s = none

-- `dispatch('getList')`, and what is committed while it waits.
unfoldable pub dispatch_list :
    (List Json → String)
    → (ListRequestParams → Outcome (ListReply Json))
    → (S → S)
    → S
    → Outcome (ListReply Json) × S
unfolding start_list finish_list
dispatch_list get_md5 service meanwhile s =
    let (params, base) = start_list s.base in
    let s' = meanwhile (record s { base = base }) in
    let (o, base') = finish_list get_md5 (service params) s'.base in (o, record s' { base = base' })

abbrev pub after_list : (Bool → S → S) → Outcome (ListReply Json) × S → Outcome (Unit {0}) × S
after_list set_loading (ok _, s) = (ok tt, set_loading false s)
after_list set_loading (throw e, s) = (throw e, set_loading false s)

-- The rest of the three actions that ask for the list after their request, with the mutation of their flag.
unfoldable pub finish_then_list :
    (Bool → S → S)
    → (List Json → String)
    → (ListRequestParams → Outcome (ListReply Json))
    → (S → S)
    → Outcome (Unit {0})
    → S
    → Outcome (Unit {0}) × S
unfolding dispatch_list
finish_then_list set_loading get_md5 service meanwhile (ok _) s =
    after_list set_loading (dispatch_list get_md5 service meanwhile s)
finish_then_list set_loading get_md5 service meanwhile (throw e) s = (throw e, set_loading false s)

-- `installDependency`, `uninstallDependency` and `setupConfig`.
unfoldable pub start_install : S → DependencyRequest × S
unfolding set_install_loading
start_install s = (install s.install_form s.lang, set_install_loading true s)

unfoldable pub start_uninstall : S → DependencyRequest × S
unfolding set_uninstall_loading
start_uninstall s = (uninstall s.uninstall_form s.lang, set_uninstall_loading true s)

unfoldable pub start_setup : S → DependencyRequest × S
unfolding set_setup_loading
start_setup s = (setup s.setup_form s.lang, set_setup_loading true s)

-- `installConfigSetup`: one node, if there is one, or the nodes of the form.
abbrev payload_node_ids : Option String → Option (List String) → Option (List String)
payload_node_ids none node_ids = node_ids
payload_node_ids (some id) node_ids = if str_eq id "" then node_ids else some (id ∷ [])

unfoldable pub start_install_setup : S → DependencyRequest × S
unfolding set_setup_loading
start_install_setup s = (
  install_setup s.lang s.setup_form.mode s.setup_form.version
      (payload_node_ids s.setup_form.node_id s.setup_form.node_ids),
  set_setup_loading true s,
)

unfoldable pub finish_install_setup : Outcome (Unit {0}) → S → S
unfolding set_setup_loading
finish_install_setup reply s = set_setup_loading false s
