-- ===== src/Task/Permissions.antt =====
-- The permissions of an account in the secret management
-- (app/runtime-operator/internal/syncer/v2/task/syncer.go), compared by hash
-- (app/runtime-operator/pkg/utils/compare.go). The order in which permissions are revoked, that of a
-- Go map, is the one of the list.
use Prim.Native.Nat.{ℕ}
use Prim.Native.String.{String}
use mathlib.Core.List.{List, [], ◌∷◌, ◌++◌}
use nautes.Common.Tests.{if◌then◌else◌}
use nautes.Usage.Secret.{SecretInfo, has_hash}
use nautes.Usage.Accounts.{account_of, update_permissions, list_permissions}
use nautes.Task.Component.{MachineAccount}
use nautes.Task.Action.{
  World, Step, wrapped, gets, call, each, modify_usage, ◌>>◌, ◌>>=◌, secret_grant_permission,
  secret_revoke_permission,
}

-- A Go map from hashes and the set of its keys.
abbrev pub HashMap : Type 0
HashMap = List (ℕ × SecretInfo)

unfoldable pub hashes : HashMap → List ℕ
hashes [] = []
hashes ((h, obj) ∷ m) = h ∷ hashes m

module _ (hash : SecretInfo → ℕ) where
  -- The loop of `GetHashMap`, over the objects left.
  unfoldable pub collect_hashes : List SecretInfo → HashMap → HashMap
  unfolding has_hash hashes
  collect_hashes [] m = m
  collect_hashes (obj ∷ objs) m =
      collect_hashes objs (if has_hash (hashes m) (hash obj) then m else m ++ (hash obj, obj) ∷ [])

  unfoldable pub get_hash_map : List SecretInfo → HashMap
  unfolding collect_hashes
  get_hash_map objs = collect_hashes objs []

-- The objects whose hashes are not among the given ones.
unfoldable pub objects_beyond : List ℕ → HashMap → List SecretInfo
unfolding has_hash
objects_beyond index [] = []
objects_beyond index ((h, obj) ∷ m) =
    let rest = objects_beyond index m in if has_hash index h then rest else obj ∷ rest

module _ {Cache : Type 0} (world : World) (hash : SecretInfo → ℕ) (runtime_name : String) where
  -- `RevokePermission` for the old permissions that are not among the account's.
  unfoldable pub revoke_beyond :
      MachineAccount → (old_permissions account_permissions : List SecretInfo) → Step Cache
  unfolding get_hash_map hashes objects_beyond each
  revoke_beyond account old_permissions account_permissions =
      let account_index = hashes (get_hash_map hash account_permissions) in
      each (objects_beyond account_index (get_hash_map hash old_permissions)) (λ secret_info.
        wrapped "revoke permission to account %s failed: %w"
          (call world (secret_revoke_permission secret_info account)))

  unfoldable pub sync_account_permissions :
      MachineAccount → (new_permissions old_permissions : List SecretInfo) → Step Cache
  unfolding each update_permissions list_permissions account_of revoke_beyond
  sync_account_permissions account new_permissions old_permissions = do
    each new_permissions (λ secret_info.
        wrapped "grant permission to account %s failed: %w"
          (call world (secret_grant_permission secret_info account)))
    modify_usage (λ usage. record usage {
      account = update_permissions usage.account account.name runtime_name new_permissions;
    })
    account_permissions ←
        gets (λ run. list_permissions hash (account_of run.usage.account account.name) [])
    revoke_beyond account old_permissions account_permissions

  unfoldable pub revoke_account_permissions :
      MachineAccount → (permissions : List SecretInfo) → Step Cache
  unfolding list_permissions account_of revoke_beyond
  revoke_account_permissions account permissions = do
    account_permissions ← gets (λ run.
        list_permissions hash (account_of run.usage.account account.name) (runtime_name ∷ []))
    revoke_beyond account permissions account_permissions
