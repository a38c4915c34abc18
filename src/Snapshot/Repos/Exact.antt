-- ===== src/Snapshot/Repos/Exact.antt =====
-- Lemmas on `ListUsedCodeRepos` of app/runtime-operator/pkg/database/database.go.
use Prim.Native.String.{String}
use mathlib.Core.Path.{◌≡◌, refl, subst, sym}
use mathlib.Core.Logic.{◌⊎◌, ◌↔◌, inl, inr}
use mathlib.Core.Bool.{true, false, ◌||◌}
use mathlib.Core.Option.{some}
use mathlib.Core.List.{List, [], ◌∷◌, ◌++◌, map}
use native.Mathlib.Omega.{arith}
use text.Mathlib.Text.{◌==◌}
use text.Mathlib.TextEquality.{eq_iff}
use nautes.Common.Tests.{Bool-cases}
use nautes.Common.Result.{ok, Result-cases, ◌>>=◌}
use nautes.Common.Lists.{All, Any, has}
use nautes.Common.Maps.{Map, assign, keys, values, IsMap, has-keys-assign, IsMap-assign}
use nautes.Common.Distinct.{Distinct}
use nautes.Resource.CodeRepo.{CodeRepo}
use nautes.Resource.Runtime.{Runtime, deployment, pipeline}
use nautes.Snapshot.State.{RuntimeDataBase}
use nautes.Snapshot.Query.{list_runtimes}
use nautes.Snapshot.Options.{ListOptions}
use nautes.Snapshot.Repos.{
  collect_repos, list_deployment_runtime_used_code_repos, list_pipeline_runtime_used_code_repos,
  add_repos, list_used_code_repos,
}
use nautes.Snapshot.Repos.Found.{repo_names, Lists, Lists-append, Uses, collect_repos_iff}

-- Each repository stands under its own name.
abbrev IsKeyed : Map CodeRepo → Type 0
IsKeyed repo_set = All (λ (entry : String × CodeRepo). entry.1.meta.name ≡ entry.0) repo_set

IsKeyed-assign :
    (repo : CodeRepo) (repo_set : Map CodeRepo)
    → IsKeyed repo_set
    → IsKeyed (assign repo.meta.name repo repo_set)
unfolding assign
IsKeyed-assign repo [] h = (refl, tt)
IsKeyed-assign repo ((name, other) ∷ repo_set) h = ground (arith, IsKeyed-assign repo repo_set)

IsKeyed-add_repos :
    (repos : List CodeRepo) (repo_set : Map CodeRepo)
    → IsKeyed repo_set
    → IsMap repo_set
    → IsKeyed (add_repos repos repo_set) × IsMap (add_repos repos repo_set)
unfolding add_repos
IsKeyed-add_repos [] repo_set keyed is_map = (keyed, is_map)
IsKeyed-add_repos (repo ∷ repos) repo_set keyed is_map =
    IsKeyed-add_repos repos (assign repo.meta.name repo repo_set)
      (IsKeyed-assign repo repo_set keyed) (IsMap-assign repo.meta.name repo repo_set is_map)

has-keys-add_repos :
    (n : String) (repos : List CodeRepo) (repo_set : Map CodeRepo)
    → has (keys (add_repos repos repo_set)) n ≡ (has (keys repo_set) n || has (repo_names repos) n)
unfolding add_repos repo_names has
has-keys-add_repos n [] repo_set = ground arith
has-keys-add_repos n (repo ∷ repos) repo_set =
    let ih = has-keys-add_repos n repos (assign repo.meta.name repo repo_set) in
    let assigned = has-keys-assign repo.meta.name n repo repo_set in
    ground (arith, ih, assigned, eq_iff repo.meta.name n)

Distinct-keys : (repo_set : Map CodeRepo) → IsMap repo_set → Distinct (keys repo_set)
unfolding keys
Distinct-keys [] h = tt
Distinct-keys ((name, repo) ∷ repo_set) h = (h.0, Distinct-keys repo_set h.1)

repo_names-values :
    (repo_set : Map CodeRepo) → IsKeyed repo_set → repo_names (values repo_set) ≡ keys repo_set
unfolding repo_names values keys
repo_names-values [] h = refl
repo_names-values ((name, repo) ∷ repo_set) h = ground (arith, h, repo_names-values repo_set h.1)

Any-append_iff :
    {A : Type 0} (P : A → Type 0) (xs ys : List A) → Any P (xs ++ ys) ↔ (Any P xs ⊎ Any P ys)
Any-append_iff P [] ys = (inr, λ h. elim h [ inl e ↦ absurd e | inr y ↦ y ])
Any-append_iff P (x ∷ xs) ys =
    let ih = Any-append_iff P xs ys in ((λ h. ground (arith, ih)), λ h. ground (arith, ih))

-- The set of the repositories of both listings: no name twice, and the names of both.
repo_set_lem :
    (deployed piped : List CodeRepo)
    → Distinct (repo_names (values (add_repos piped (add_repos deployed []))))
      × ((n : String)
          → has (repo_names (values (add_repos piped (add_repos deployed [])))) n
            ≡ (has (repo_names deployed) n || has (repo_names piped) n))
unfolding keys has
repo_set_lem deployed piped =
    let repo_set = add_repos piped (add_repos deployed []) in
    let first = IsKeyed-add_repos deployed [] tt tt in
    let both = IsKeyed-add_repos piped (add_repos deployed []) first.0 first.1 in
    let named = repo_names-values repo_set both.0 in
    (
      subst Distinct (sym named) (Distinct-keys repo_set both.1),
      λ n. ground (
        arith,
        named,
        has-keys-add_repos n piped (add_repos deployed []),
        has-keys-add_repos n deployed [],
      ),
    )

repo_names-snoc :
    (repos : List CodeRepo) (own : CodeRepo) (n : String)
    → has (repo_names (repos ++ own ∷ [])) n ≡ (has (repo_names repos) n || own.meta.name == n)
unfolding repo_names has
repo_names-snoc repos own n = ground (arith, Lists-append repos (own ∷ []) n)

module _ (db : RuntimeDataBase) (options : ListOptions) where
  -- What the listing of one kind of runtimes returns.
  listing_lem :
      (n : String) (runtimes : List Runtime) (repos : List CodeRepo)
      → (collect_repos db options runtimes (record { looked_up = []; repos = [] }) >>= λ collected.
          ok collected.repos)
        ≡ ok repos
      → Lists repos n ↔ Any (Uses db options n) runtimes
  unfolding has repo_names
  listing_lem n runtimes repos h =
      elim (Result-cases
        (collect_repos db options runtimes (record { looked_up = []; repos = [] }))) [
          | inr (e, failed) ↦ absurd (ground (arith, h, failed))
          | inl (after, p) ↦
              let exact =
                collect_repos_iff db options n runtimes (record { looked_up = []; repos = [] })
                  after p (λ name repo seen resolved. ground (arith, seen)) in
              let same : after.repos ≡ repos = ground (arith, h, p) in
              ((λ l. ground (arith, exact, same)), λ l. ground (arith, exact, same))
        ]

  -- The repositories of both listings, when the call succeeds.
  record Listing (repos : List CodeRepo) : Type 0 where
    deployed : List CodeRepo
    piped : List CodeRepo
    ran : list_deployment_runtime_used_code_repos db options ≡ ok deployed
    ran_after : list_pipeline_runtime_used_code_repos db options ≡ ok piped

  list_used_code_repos-Listing :
      (repos : List CodeRepo) → list_used_code_repos db options ≡ ok repos → Listing repos
  unfolding list_used_code_repos
  list_used_code_repos-Listing repos h =
      elim (Result-cases (list_deployment_runtime_used_code_repos db options)) [
        | inr (e, failed) ↦ absurd (ground (arith, h, failed))
        | inl (deployed, p) ↦
            elim (Result-cases (list_pipeline_runtime_used_code_repos db options)) [
              | inr (e, failed) ↦ absurd (ground (arith, h, p, failed))
              | inl (piped, q) ↦ record {
                deployed = deployed;
                piped = piped;
                ran = p;
                ran_after = q;
              }
            ]
      ]

  -- Without the product's repository, no name is listed twice.
  list_used_code_repos-Distinct :
      (repos : List CodeRepo)
      → options.without_product_info ≡ true
      → list_used_code_repos db options ≡ ok repos
      → Distinct (repo_names repos)
  unfolding list_used_code_repos
  list_used_code_repos-Distinct repos without h =
      let l = list_used_code_repos-Listing repos h in
      let joined = values (add_repos l.piped (add_repos l.deployed [])) in
      let out : repos ≡ joined = ground (arith, h, without, l.ran, l.ran_after) in
      subst (λ x. Distinct (repo_names x)) (sym out) (repo_set_lem l.deployed l.piped).0

  covered_lem :
      (n : String) (repos : List CodeRepo) (l : Listing repos)
      → (has (repo_names (values (add_repos l.piped (add_repos l.deployed [])))) n ≡ true)
        ↔ Any (Uses db options n) (list_runtimes db)
  unfolding list_runtimes list_deployment_runtime_used_code_repos
      list_pipeline_runtime_used_code_repos
  covered_lem n repos l =
      let deployments = map deployment (values db.deployment_runtimes) in
      let pipelines = map pipeline (values db.pipeline_runtimes) in
      let joins = (repo_set_lem l.deployed l.piped).1 n in
      let by_deployments = listing_lem n deployments l.deployed l.ran in
      let by_pipelines = listing_lem n pipelines l.piped l.ran_after in
      let split = Any-append_iff (Uses db options n) deployments pipelines in
      (
        (λ h. ground (arith, joins, by_deployments, by_pipelines, split)),
        λ h. ground (arith, joins, by_deployments, by_pipelines, split),
      )

  -- When the snapshot holds the product's repository and the call succeeds, a name is listed
  -- exactly if a runtime that the request covers names a repository that resolves to that name (a
  -- deployment runtime for its manifests, a pipeline runtime for its additional resources; its pipeline
  -- source and its event sources do not count) or, unless the request leaves it out, it is the name
  -- of the product's repository.
  pub list_used_code_repos_iff :
      (n : String) (own : CodeRepo) (repos : List CodeRepo)
      → db.product_code_repo ≡ some own
      → list_used_code_repos db options ≡ ok repos
      → Lists repos n ↔ (
          Any (Uses db options n) (list_runtimes db)
          ⊎ ((options.without_product_info ≡ false) × (own.meta.name ≡ n)))
  unfolding list_used_code_repos
  list_used_code_repos_iff n own repos held h =
      let l = list_used_code_repos-Listing repos h in
      let joined = values (add_repos l.piped (add_repos l.deployed [])) in
      let covered = covered_lem n repos l in
      let appended = repo_names-snoc joined own n in
      let itself = eq_iff own.meta.name n in
      elim (Bool-cases options.without_product_info) [
        | inl w ↦
            let out : repos ≡ joined = ground (arith, h, w, l.ran, l.ran_after) in
            ((λ x. ground (arith, out, covered)), λ x. ground (arith, out, covered, w))
        | inr w ↦
            let out : repos ≡ joined ++ own ∷ [] = ground (arith, h, w, l.ran, l.ran_after, held) in
            (
              (λ x. ground (arith, out, covered, appended, itself, w)),
              λ x. ground (arith, out, covered, appended, itself, w),
            )
      ]
