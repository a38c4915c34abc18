-- ===== src/Webhook/Permission.antt =====
-- `hasCodeRepoPermission` of api/kubernetes/v1alpha1/global_webhook.go.
use Prim.Native.String.{String}
use mathlib.Core.Path.{◌≡◌}
use mathlib.Core.Logic.{◌↔◌, ◌⊎◌}
use mathlib.Core.Bool.{Bool, true, false, ◌&&◌, not}
use mathlib.Core.List.{List, [], ◌∷◌}
use native.Mathlib.Omega.{arith}
use text.Mathlib.Text.{◌==◌}
use text.Mathlib.TextEquality.{eq_iff}
use nautes.Common.Tests.{if◌then◌else◌, is_empty}
use nautes.Common.Result.{Check, ok, err, errorf, ◌>>=◌}
use nautes.Common.Lists.{Any, has}
use nautes.Resource.Meta.{is_terminating}
use nautes.Resource.CodeRepo.{CodeRepo, CodeRepoBinding}
use nautes.Webhook.Client.{ValidateClient}

-- The loop over the bindings: the first live one that covers the project permits.
unfoldable pub binding_permits : (project_name : String) → List CodeRepoBinding → Bool
unfolding has
binding_permits project_name [] = false
binding_permits project_name (binding ∷ bindings) =
    let rest = binding_permits project_name bindings in
    if is_terminating binding.meta
    then rest
    else if is_empty binding.spec.projects
    then true
    else if has binding.spec.projects project_name
    then true
    else rest

-- The repository is alive and belongs to the project itself.
abbrev is_owned_by : CodeRepo → (product_name project_name : String) → Bool
is_owned_by repo product_name project_name =
    not (is_terminating repo.meta)
    && repo.spec.product == product_name
    && repo.spec.project == project_name

-- The name that messages show depends on the environment variable `USEREALNAME`.
unfoldable pub get_code_repo_name : (use_real_name : Bool) → CodeRepo → String
get_code_repo_name use_real_name repo =
    if use_real_name then repo.spec.repo_name else repo.meta.name

unfoldable pub has_code_repo_permission :
    ValidateClient → (use_real_name : Bool) (product_name project_name repo_name : String) → Check
unfolding binding_permits get_code_repo_name
has_code_repo_permission client use_real_name product_name project_name repo_name = do
  repo ← client.get_code_repo repo_name
  if is_owned_by repo product_name project_name then ok tt else (do
    bindings ← client.list_code_repo_bindings product_name repo_name
    if binding_permits project_name bindings
        then ok tt
        else err (
            errorf "not permitted to use repository %s"
              (get_code_repo_name use_real_name repo ∷ [])))

-- A live binding for the whole product, or for the project.
abbrev pub Covers : String → CodeRepoBinding → Type 0
Covers project_name binding =
    (is_terminating binding.meta ≡ false)
    × ((is_empty binding.spec.projects ≡ true) ⊎ (has binding.spec.projects project_name ≡ true))

pub binding_permits_iff :
    (project_name : String) (bindings : List CodeRepoBinding)
    → (binding_permits project_name bindings ≡ true) ↔ Any (Covers project_name) bindings
unfolding binding_permits
binding_permits_iff p [] = ((λ h. cc), λ h. absurd h)
binding_permits_iff p (b ∷ bs) =
    let ih = binding_permits_iff p bs in ((λ h. ground (arith, ih)), λ h. ground (arith, ih))

-- What the specification asks of a repository and of the bindings of product and repository.
pub record Owned (repo : CodeRepo) (product_name project_name : String) : Type 0 where
  pub alive : is_terminating repo.meta ≡ false
  pub product : repo.spec.product ≡ product_name
  pub project : repo.spec.project ≡ project_name

-- If the repository and its bindings can be read, the check passes exactly when the repository is
-- alive and belongs to the project, or a live binding covers the product or the project.
pub has_code_repo_permission_iff :
    (client : ValidateClient) (use_real_name : Bool) (product_name project_name repo_name : String)
    (repo : CodeRepo) (bindings : List CodeRepoBinding)
    → client.get_code_repo repo_name ≡ ok repo
    → client.list_code_repo_bindings product_name repo_name ≡ ok bindings
    → (has_code_repo_permission client use_real_name product_name project_name repo_name ≡ ok tt)
      ↔ (Owned repo product_name project_name ⊎ Any (Covers project_name) bindings)
unfolding has_code_repo_permission
has_code_repo_permission_iff client u p j r repo bindings e f = (
  (λ h. ground (
    arith,
    binding_permits_iff j bindings,
    eq_iff repo.spec.product p,
    eq_iff repo.spec.project j,
  )),
  λ h. ground (
    arith,
    binding_permits_iff j bindings,
    eq_iff repo.spec.product p,
    eq_iff repo.spec.project j,
  ),
)
