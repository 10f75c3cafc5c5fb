-- ===== src/Mcp/Tools/Git.antt =====
-- The handlers of mcp/src/tools/git.ts: Git repositories.
use Prim.Native.String.{◌++◌}
use astiango_hub.Mcp.Tools.{Handler, show_reply, report, confirmed, AuthType, opt_auth_type}
use astiango_hub.Mcp.Json.{str}
use astiango_hub.Mcp.Json.{object, opt_str, opt_num, when_truthy, spread}
use astiango_hub.Mcp.Client.Assets
use astiango_hub.Common.{ℕ, String, Option, [], ◌∷◌}

unfoldable pub list_git_repos : (page size : Option ℕ) → Handler
list_git_repos page size =
    show_reply "Error listing Git repositories: "
      (Assets.get_git_repos (object (("page", opt_num page) ∷ ("size", opt_num size) ∷ [])))

unfoldable pub get_git_repo : (git_id : String) → Handler
get_git_repo git_id = show_reply "Error getting Git repository: " (Assets.get_git_repo git_id)

unfoldable pub create_git_repo :
    (name url : String) (auth_type : Option AuthType) (username password : Option String) → Handler
create_git_repo name url auth_type username password =
    show_reply "Error creating Git repository: " (
      Assets.create_git_repo (
        object (
          ("name", str name)
          ∷ ("url", str url)
          ∷ ("auth_type", opt_auth_type auth_type)
          ∷ ("username", opt_str username)
          ∷ ("password", opt_str password)
          ∷ [])))

unfoldable pub update_git_repo :
    (git_id : String) (name url : Option String) (auth_type : Option AuthType)
    (username password : Option String)
    → Handler
update_git_repo git_id name url auth_type username password =
    show_reply "Error updating Git repository: " (
      Assets.update_git_repo git_id (
        spread (
          when_truthy "name" (opt_str name)
          ∷ when_truthy "url" (opt_str url)
          ∷ when_truthy "auth_type" (opt_auth_type auth_type)
          ∷ when_truthy "username" (opt_str username)
          ∷ when_truthy "password" (opt_str password)
          ∷ [])))

unfoldable pub delete_git_repo : (git_id confirmation : String) → Handler
delete_git_repo git_id confirmation =
    report "Error deleting Git repository: "
      (confirmed confirmation "DELETE" git_id (Assets.delete_git_repo git_id))
      ("Git repository " ++ git_id ++ " deleted successfully.")

unfoldable pub clone_git_repo : (git_id : String) → Handler
clone_git_repo git_id =
    report "Error cloning Git repository: " (Assets.clone_git_repo git_id)
      ("Git repository " ++ git_id ++ " cloned successfully.")

unfoldable pub pull_git_repo : (git_id : String) → Handler
pull_git_repo git_id =
    report "Error pulling Git repository: " (Assets.pull_git_repo git_id)
      ("Git repository " ++ git_id ++ " pulled successfully.")
