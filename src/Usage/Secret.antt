-- ===== src/Usage/Secret.antt =====
-- What an account may read of the secret store: `SecretInfo` and its parts
-- (app/runtime-operator/pkg/component/secretManagement.go).
use Prim.Native.Nat.{ℕ, compare, Ordering}
use Prim.Native.String.{String}
use mathlib.Core.Bool.{Bool, true, false, ◌||◌}
use mathlib.Core.Option.{Option}
use mathlib.Core.List.{List, [], ◌∷◌}

pub record CodeRepo : Type 0 where
  pub provider_type : String
  pub id : String
  pub user : String
  pub permission : String

pub record ArtifactAccount : Type 0 where
  pub provider_name : String
  pub product : String
  pub project : String

pub record SecretInfo : Type 0 where
  pub secret_type : String
  pub code_repo : Option CodeRepo
  pub artifact_account : Option ArtifactAccount

abbrev pub secret_type_code_repo : String
secret_type_code_repo = "CodeRepo"

abbrev pub code_repo_permission_read_only : String
code_repo_permission_read_only = "readonly"

abbrev pub same_hash : ℕ → ℕ → Bool
same_hash a b = elim (compare a b) [ Ordering.eq ↦ true | _ ↦ false ]

-- `hashSet.Has(hash)`
unfoldable pub has_hash : List ℕ → ℕ → Bool
has_hash [] h = false
has_hash (x ∷ xs) h = same_hash x h || has_hash xs h
