-- ===== src/Snapshot/Matrix/Exact.antt =====
-- Lemmas on the permission matrix of app/runtime-operator/pkg/database/database.go.
use Prim.Native.String.{String}
use mathlib.Core.Path.{◌≡◌, refl}
use mathlib.Core.Logic.{◌⊎◌, ◌↔◌, ◌≢◌}
use mathlib.Core.Bool.{Bool, true, ◌||◌, ◌&&◌, not}
use mathlib.Core.List.{List, [], ◌∷◌, ◌++◌}
use native.Mathlib.Omega.{arith}
use text.Mathlib.Text.{◌==◌}
use text.Mathlib.TextEquality.{eq_iff}
use nautes.Common.Tests.{is_empty, is_some}
use nautes.Common.Lists.{Any, any, has, has-append}
use nautes.Common.Maps.{Map, lookup, lookup_or, assign, keys, values, lookup-assign}
use nautes.Resource.Meta.{Project}
use nautes.Resource.CodeRepo.{CodeRepo, CodeRepoBinding}
use nautes.Snapshot.Matrix.{
  PermissionMatrix, append_code_repo, append_project, list_projects, list_code_repos_in_project,
  append_projects, append_to_projects, append_binding, append_bindings, append_own_repos,
  build_matrix,
}

-- The matrix knows the project; the project may use the repository.
abbrev knows : PermissionMatrix → String → Bool
knows b project = is_some (lookup project b)

abbrev allows : PermissionMatrix → (project repo : String) → Bool
allows b project repo = has (list_code_repos_in_project project b) repo

has-keys_lem : (b : PermissionMatrix) (project : String) → has (keys b) project ≡ knows b project
unfolding keys has lookup
has-keys_lem [] p = refl
has-keys_lem ((q, repos) ∷ b) p = ground (arith, has-keys_lem b p, eq_iff q p)

module _ (project repo : String) where
  append_code_repo_lem :
      (p r : String) (b : PermissionMatrix)
      → (knows (append_code_repo p r b) project ≡ knows b project)
        × (allows (append_code_repo p r b) project repo
            ≡ (allows b project repo || (knows b project && p == project && r == repo)))
  unfolding append_code_repo list_code_repos_in_project lookup_or has
  append_code_repo_lem p r b =
      let old = lookup_or [] p b in
      ground (
        arith,
        lookup-assign p project (old ++ r ∷ []) b,
        has-append old (r ∷ []) repo,
        eq_iff p project,
        eq_iff r repo,
      )

  append_to_projects_lem :
      (projects : List String) (r : String) (b : PermissionMatrix)
      → (knows (append_to_projects projects r b) project ≡ knows b project)
        × (allows (append_to_projects projects r b) project repo
            ≡ (allows b project repo || (knows b project && has projects project && r == repo)))
  unfolding append_to_projects has
  append_to_projects_lem [] r b = ground arith
  append_to_projects_lem (p ∷ projects) r b = ground (
    arith,
    append_code_repo_lem p r b,
    append_to_projects_lem projects r (append_code_repo p r b),
  )

  abbrev binds : (product_name : String) → CodeRepoBinding → Bool
  binds product_name rb =
      rb.spec.product == product_name
      && (is_empty rb.spec.projects || has rb.spec.projects project)
      && rb.spec.code_repo == repo

  append_binding_lem :
      (product_name : String) (rb : CodeRepoBinding) (b : PermissionMatrix)
      → (knows (append_binding product_name rb b) project ≡ knows b project)
        × (allows (append_binding product_name rb b) project repo
            ≡ (allows b project repo || (knows b project && binds product_name rb)))
  unfolding append_binding list_projects
  append_binding_lem product_name rb b = ground (
    arith,
    append_to_projects_lem (keys b) rb.spec.code_repo b,
    append_to_projects_lem rb.spec.projects rb.spec.code_repo b,
    has-keys_lem b project,
  )

  append_bindings_lem :
      (product_name : String) (rbs : List CodeRepoBinding) (b : PermissionMatrix)
      → (knows (append_bindings product_name rbs b) project ≡ knows b project)
        × (allows (append_bindings product_name rbs b) project repo
            ≡ (allows b project repo || (knows b project && any (binds product_name) rbs)))
  unfolding append_bindings any
  append_bindings_lem product_name [] b = ground arith
  append_bindings_lem product_name (rb ∷ rbs) b = ground (
    arith,
    append_binding_lem product_name rb b,
    append_bindings_lem product_name rbs (append_binding product_name rb b),
  )

  abbrev owns : CodeRepo → Bool
  owns r = not (r.spec.project == "") && r.spec.project == project && r.meta.name == repo

  append_own_repos_lem :
      (repos : List CodeRepo) (b : PermissionMatrix)
      → allows (append_own_repos repos b) project repo
        ≡ (allows b project repo || (knows b project && any owns repos))
  unfolding append_own_repos any
  append_own_repos_lem [] b = ground arith
  append_own_repos_lem (r ∷ repos) b =
      let b' = append_code_repo r.spec.project r.meta.name b in
      ground (
        arith,
        append_code_repo_lem r.spec.project r.meta.name b,
        append_own_repos_lem repos b,
        append_own_repos_lem repos b',
      )

  append_projects_lem :
      (projects : List Project) (b : PermissionMatrix)
      → (knows (append_projects projects b) project
          ≡ (knows b project || any (λ (p : Project). p.meta.name == project) projects))
        × (allows (append_projects projects b) project repo ≡ allows b project repo)
  unfolding append_projects append_project list_code_repos_in_project lookup_or any has
  append_projects_lem [] b = ground arith
  append_projects_lem (p ∷ projects) b = ground (
    arith,
    append_projects_lem projects b,
    append_projects_lem projects (assign p.meta.name [] b),
    lookup-assign p.meta.name project [] b,
    eq_iff p.meta.name project,
  )

  -- A binding of the product for the repository that covers the project.
  pub record Binds (product_name : String) (rb : CodeRepoBinding) : Type 0 where
    pub product : rb.spec.product ≡ product_name
    pub covers : (is_empty rb.spec.projects ≡ true) ⊎ (has rb.spec.projects project ≡ true)
    pub code_repo : rb.spec.code_repo ≡ repo

  -- The repository itself, if it belongs to the project.
  pub record Owns (r : CodeRepo) : Type 0 where
    pub in_a_project : r.spec.project ≢ ""
    pub belongs : r.spec.project ≡ project
    pub named : r.meta.name ≡ repo

  binds_iff :
      (product_name : String) (rbs : List CodeRepoBinding)
      → (any (binds product_name) rbs ≡ true) ↔ Any (Binds product_name) rbs
  unfolding any
  binds_iff product_name [] = ((λ h. cc), λ h. absurd h)
  binds_iff product_name (rb ∷ rbs) =
      let ih = binds_iff product_name rbs in
      let a = eq_iff rb.spec.product product_name in
      let b = eq_iff rb.spec.code_repo repo in
      ((λ h. ground (arith, ih, a, b)), λ h. ground (arith, ih, a, b))

  owns_iff : (repos : List CodeRepo) → (any owns repos ≡ true) ↔ Any Owns repos
  unfolding any
  owns_iff [] = ((λ h. cc), λ h. absurd h)
  owns_iff (r ∷ repos) =
      let ih = owns_iff repos in
      let a = eq_iff r.spec.project "" in
      let b = eq_iff r.spec.project project in
      let c = eq_iff r.meta.name repo in
      ((λ h. ground (arith, ih, a, b, c)), λ h. ground (arith, ih, a, b, c))

  named_iff :
      (projects : List Project)
      → (any (λ (p : Project). p.meta.name == project) projects ≡ true)
        ↔ Any (λ p. p.meta.name ≡ project) projects
  unfolding any
  named_iff [] = ((λ h. cc), λ h. absurd h)
  named_iff (p ∷ projects) =
      let ih = named_iff projects in
      let a = eq_iff p.meta.name project in
      ((λ h. ground (arith, ih, a)), λ h. ground (arith, ih, a))

  -- The matrix lists a repository for a project exactly if the project is one of the product's and
  -- either a binding of the product for that repository covers the project, or the repository is
  -- one of the product's and belongs to the project.
  pub build_matrix_iff :
      (product_name : String) (projects : Map Project) (bindings : List CodeRepoBinding)
      (code_repos : Map CodeRepo)
      → (has
            (list_code_repos_in_project project
              (build_matrix product_name projects bindings code_repos))
            repo
          ≡ true)
        ↔ (Any (λ p. p.meta.name ≡ project) (values projects)
            × (Any (Binds product_name) bindings ⊎ Any Owns (values code_repos)))
  unfolding build_matrix list_code_repos_in_project lookup_or has
  build_matrix_iff product_name projects bindings code_repos =
      let start = append_projects (values projects) [] in
      let bound = append_bindings product_name bindings start in
      let a = append_projects_lem (values projects) [] in
      let b = append_bindings_lem product_name bindings start in
      let c = append_own_repos_lem (values code_repos) bound in
      let d = binds_iff product_name bindings in
      let e = owns_iff (values code_repos) in
      let f = named_iff (values projects) in
      ((λ h. ground (arith, a, b, c, d, e, f)), λ h. ground (arith, a, b, c, d, e, f))
