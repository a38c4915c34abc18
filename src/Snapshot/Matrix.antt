-- ===== src/Snapshot/Matrix.antt =====
-- `permissionMatrix` of app/runtime-operator/pkg/database/database.go: the code repositories that
-- each project of a product may use.
pub mod Exact
use Prim.Native.String.{String}
use mathlib.Core.Bool.{Bool, true, false, not}
use mathlib.Core.Option.{Option, none, some}
use mathlib.Core.List.{List, [], ◌∷◌, ◌++◌}
use text.Mathlib.Text.{◌==◌}
use nautes.Common.Tests.{if◌then◌else◌, is_empty, is_some}
use nautes.Common.Maps.{Map, lookup, lookup_or, assign, keys, values}
use nautes.Resource.Meta.{Project}
use nautes.Resource.CodeRepo.{CodeRepo, CodeRepoBinding}

abbrev pub PermissionMatrix : Type 0
PermissionMatrix = Map (List String)

-- A project that the matrix does not know is left out.
unfoldable pub append_code_repo :
    (project_name repo_name : String) → PermissionMatrix → PermissionMatrix
unfolding lookup assign
append_code_repo project_name repo_name b = elim (lookup project_name b) [
  | none ↦ b
  | some repos ↦ assign project_name (repos ++ repo_name ∷ []) b
]

unfoldable pub append_project : String → PermissionMatrix → PermissionMatrix
unfolding lookup assign
append_project name b = if is_some (lookup name b) then b else assign name [] b

unfoldable pub list_projects : PermissionMatrix → List String
unfolding keys
list_projects b = keys b

unfoldable pub list_code_repos_in_project : String → PermissionMatrix → List String
unfolding lookup_or
list_code_repos_in_project name b = lookup_or [] name b

unfoldable pub append_projects : List Project → PermissionMatrix → PermissionMatrix
unfolding append_project
append_projects [] b = b
append_projects (project ∷ projects) b =
    append_projects projects (append_project project.meta.name b)

-- The repository joins each of the projects.
unfoldable pub append_to_projects :
    List String → (repo_name : String) → PermissionMatrix → PermissionMatrix
unfolding append_code_repo
append_to_projects [] repo_name b = b
append_to_projects (project ∷ projects) repo_name b =
    append_to_projects projects repo_name (append_code_repo project repo_name b)

-- A binding of another product is passed over; one without projects is for every known project.
unfoldable pub append_binding :
    (product_name : String) → CodeRepoBinding → PermissionMatrix → PermissionMatrix
unfolding append_to_projects list_projects
append_binding product_name rb b =
    let projects = if is_empty rb.spec.projects then list_projects b else rb.spec.projects in
    if rb.spec.product == product_name then append_to_projects projects rb.spec.code_repo b else b

unfoldable pub append_bindings :
    (product_name : String) → List CodeRepoBinding → PermissionMatrix → PermissionMatrix
unfolding append_binding
append_bindings product_name [] b = b
append_bindings product_name (rb ∷ rbs) b =
    append_bindings product_name rbs (append_binding product_name rb b)

-- The repository that belongs to a project is the project's.
unfoldable pub append_own_repos : List CodeRepo → PermissionMatrix → PermissionMatrix
unfolding append_code_repo
append_own_repos [] b = b
append_own_repos (repo ∷ repos) b =
    append_own_repos repos
      (if repo.spec.project == "" then b else append_code_repo repo.spec.project repo.meta.name b)

unfoldable pub build_matrix :
    (product_name : String) → Map Project → List CodeRepoBinding → Map CodeRepo → PermissionMatrix
unfolding append_projects append_bindings append_own_repos values
build_matrix product_name projects bindings code_repos =
    append_own_repos (values code_repos)
      (append_bindings product_name bindings (append_projects (values projects) []))
