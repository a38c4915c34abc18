-- ===== src/Usage/Accounts/Examples.antt =====
-- Concrete usages of accounts.
use Prim.Native.Nat.{ℕ}
use Prim.Native.String.{String}
use mathlib.Core.Path.{◌≡◌, refl}
use mathlib.Core.Logic.{◌↔◌}
use mathlib.Core.Bool.{true}
use mathlib.Core.Option.{none, some}
use mathlib.Core.List.{[], ◌∷◌}
use nautes.Common.Lists.{Any, has}
use nautes.Common.Maps.{keys}
use nautes.Usage.Secret.{SecretInfo, secret_type_code_repo, code_repo_permission_read_only}
use nautes.Usage.Accounts.{AccountResource, AccountUsage, delete_runtime, list_permissions}
use nautes.Usage.Accounts.Lookup.{find, write, find-delete_runtime}
use nautes.Usage.Accounts.Tidy.{IsTidy, apply, set_spaces, apply-IsTidy}
use nautes.Usage.Accounts.Listed.{has_permission, Holds, list_permissions_iff}

-- The permission to read a repository.
abbrev pub reading : (repo : String) → SecretInfo
reading repo = record {
  secret_type = secret_type_code_repo;
  code_repo = some (record {
    provider_type = "gitlab";
    id = repo;
    user = "default";
    permission = code_repo_permission_read_only;
  });
  artifact_account = none;
}

-- Two runtimes share an account.
abbrev pub shared_account : AccountResource
shared_account = record {
  runtimes =
      ("web", record { spaces = "web-ns" ∷ []; permissions = reading "repo-1" ∷ [] })
      ∷ ("mail", record { spaces = "mail-ns" ∷ []; permissions = reading "repo-2" ∷ [] })
      ∷ [];
}

abbrev pub one_account : AccountUsage
one_account = record { accounts = ("deployer", shared_account) ∷ [] }

-- A hash that all permissions share.
abbrev pub one_hash : SecretInfo → ℕ
one_hash secret = 7

one_account-IsTidy : IsTidy one_account
unfolding keys has
one_account-IsTidy = ((refl, tt), ((refl, (refl, (refl, tt))), tt))

find-delete_runtime_example :
    find (delete_runtime one_account "deployer" "web") "deployer" "mail"
    ≡ write "deployer" "web" none (find one_account) "deployer" "mail"
find-delete_runtime_example = find-delete_runtime one_account "deployer" "web" "deployer" "mail"

apply-IsTidy_example : IsTidy (apply one_account (set_spaces "deployer" "mail" []))
apply-IsTidy_example = apply-IsTidy one_account (set_spaces "deployer" "mail" []) one_account-IsTidy

list_permissions_iff_example :
    (has_permission one_hash (list_permissions one_hash shared_account ("web" ∷ [])) 7 ≡ true)
    ↔ Any (Holds one_hash ("web" ∷ []) 7) shared_account.runtimes
list_permissions_iff_example = list_permissions_iff one_hash ("web" ∷ []) 7 shared_account
