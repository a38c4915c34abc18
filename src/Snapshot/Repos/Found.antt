-- ===== src/Snapshot/Repos/Found.antt =====
-- Lemmas on the two loops of `ListUsedCodeRepos` of
-- app/runtime-operator/pkg/database/database.go.
use Prim.Native.String.{String}
use mathlib.Core.Path.{◌≡◌, refl, ap, subst}
use mathlib.Core.Logic.{◌⊎◌, ◌↔◌, inl, inr}
use mathlib.Core.Bool.{true, false, ◌||◌}
use mathlib.Core.Option.{some}
use mathlib.Core.List.{List, [], ◌∷◌, ◌++◌, map}
use native.Mathlib.Omega.{arith}
use text.Mathlib.Text.{◌==◌}
use text.Mathlib.TextEquality.{eq_iff}
use nautes.Common.Tests.{Bool-cases, Option-cases}
use nautes.Common.Result.{ok, Result-cases}
use nautes.Common.Lists.{Any, has, insert, has-insert}
use nautes.Resource.Cluster.{Cluster}
use nautes.Resource.CodeRepo.{CodeRepo}
use nautes.Resource.Pipeline.{AdditionalResources, AdditionalResourcesGit, ProjectPipelineRuntime}
use nautes.Resource.Runtime.{Runtime, deployment, pipeline}
use nautes.Snapshot.State.{RuntimeDataBase}
use nautes.Snapshot.Query.{get_cluster_by_runtime, get_code_repo}
use nautes.Snapshot.Options.{ListOptions, match_request}
use nautes.Snapshot.Repos.{additional_repo, used_repo, Collected, collect_repo, collect_repos}

unfoldable pub repo_names : List CodeRepo → List String
repo_names repos = map (λ (repo : CodeRepo). repo.meta.name) repos

-- The list holds a repository of that name.
abbrev pub Lists : List CodeRepo → String → Type 0
Lists repos name = has (repo_names repos) name ≡ true

pub Lists-append :
    (repos others : List CodeRepo) (name : String)
    → has (repo_names (repos ++ others)) name
      ≡ (has (repo_names repos) name || has (repo_names others) name)
unfolding repo_names has
Lists-append [] others name = refl
Lists-append (repo ∷ repos) others name = ground (arith, Lists-append repos others name)

-- A deployment runtime names the repository of its manifests; a pipeline runtime that of its additional
-- resources, if they are in a Git repository that is given by name.
abbrev pub Names : Runtime → (name : String) → Type 0
Names (deployment r) name = r.spec.manifest_source.code_repo ≡ name
Names (pipeline r) name =
    (resources : AdditionalResources) × (git : AdditionalResourcesGit)
    × (r.spec.additional_resources ≡ some resources)
    × (resources.git ≡ some git)
    × ((git.code_repo == "") ≡ false)
    × (git.code_repo ≡ name)

additional_repo-Names :
    (r : ProjectPipelineRuntime) (name : String)
    → additional_repo r ≡ some name
    → Names (pipeline r) name
unfolding additional_repo
additional_repo-Names r name h = elim (Option-cases r.spec.additional_resources) [
  | inl absent ↦ absurd (ground (arith, h, absent))
  | inr (resources, there) ↦ elim (Option-cases resources.git) [
    | inl absent ↦ absurd (ground (arith, h, there, absent))
    | inr (git, given) ↦ elim (Bool-cases (git.code_repo == "")) [
      | inl unnamed ↦ absurd (ground (arith, h, there, given, unnamed))
      | inr named ↦ (resources, git, there, given, named, ground (arith, h, there, given, named))
    ]
  ]
]

used_repo-Names : (r : Runtime) (name : String) → used_repo r ≡ some name → Names r name
unfolding used_repo
used_repo-Names (deployment r) name h = cc
used_repo-Names (pipeline r) name h = additional_repo-Names r name h

Names-used_repo : (r : Runtime) (name : String) → Names r name → used_repo r ≡ some name
unfolding used_repo additional_repo
Names-used_repo (deployment r) name named = ap some named
Names-used_repo (pipeline r) name (resources, git, there, given, named, same) =
    ground (arith, there, given, named, same)

module _ (db : RuntimeDataBase) (options : ListOptions) where
  -- Every name that was looked up has its repository among those found.
  abbrev pub Found : Collected → Type 0
  Found collected =
      (name : String) (repo : CodeRepo)
      → has collected.looked_up name ≡ true
      → get_code_repo db name ≡ ok repo
      → Lists collected.repos repo.meta.name

  -- The request covers the runtime, and the snapshot resolves the repository that it names to that one.
  pub record Uses (repo_name : String) (runtime : Runtime) : Type 0 where
    pub found : Cluster
    pub located : get_cluster_by_runtime db runtime ≡ ok found
    pub matches : match_request options runtime found.meta.name ≡ true
    pub looked_up : String
    pub named : Names runtime looked_up
    pub repo : CodeRepo
    pub resolved : get_code_repo db looked_up ≡ ok repo
    pub is_named : repo.meta.name ≡ repo_name

  -- What a round achieves.
  abbrev Advances : String → Runtime → Collected → Collected → Type 0
  Advances n r before after =
      Found after × (Lists after.repos n ↔ (Lists before.repos n ⊎ Uses n r))

  kept_lem :
      (n : String) (r : Runtime) (before after : Collected)
      → before ≡ after
      → (Uses n r → Lists before.repos n)
      → Found before
      → Advances n r before after
  kept_lem n r before after same used found =
      subst (Advances n r before) same
        (found, (inl, λ l. elim l [ inl listed ↦ listed | inr u ↦ used u ]))

  -- A name that was looked up before needs no second look.
  looked_up_lem :
      (n name : String) (r : Runtime) (before : Collected)
      → used_repo r ≡ some name
      → has before.looked_up name ≡ true
      → Found before
      → Uses n r
      → Lists before.repos n
  looked_up_lem n name r before named seen found u =
      let same : name ≡ u.looked_up =
        ground (arith, named, Names-used_repo r u.looked_up u.named) in
      let listed = found u.looked_up u.repo (ground (arith, seen, same)) u.resolved in
      subst (Lists before.repos) u.is_named listed

  added_lem :
      (n name : String) (r : Runtime) (c : Cluster) (repo : CodeRepo) (before : Collected)
      → used_repo r ≡ some name
      → get_cluster_by_runtime db r ≡ ok c
      → match_request options r c.meta.name ≡ true
      → get_code_repo db name ≡ ok repo
      → Found before
      → Advances n r before
          (record { looked_up = insert name before.looked_up; repos = before.repos ++ repo ∷ [] })
  unfolding repo_names has
  added_lem n name r c repo before named located matches resolved found =
      let there = Lists-append before.repos (repo ∷ []) in
      (
        (λ asked other seen resolved'.
            let now = has-insert name asked before.looked_up in
            let said = eq_iff name asked in
            let held = there other.meta.name in
            let itself = eq_iff repo.meta.name other.meta.name in
            ground (arith, now, said, held, itself, found asked other)),
        (
          (λ l.
              let itself = eq_iff repo.meta.name n in
              elim (Bool-cases (has (repo_names before.repos) n)) [
                | inl listed ↦ inl listed
                | inr absent ↦ inr (record {
                  found = c;
                  located = located;
                  matches = matches;
                  looked_up = name;
                  named = used_repo-Names r name named;
                  repo = repo;
                  resolved = resolved;
                  is_named = ground (arith, there n, itself);
                })
              ]),
          λ l. elim l [
            | inl listed ↦ ground (arith, there n)
            | inr u ↦
                let same : name ≡ u.looked_up =
                  ground (arith, named, Names-used_repo r u.looked_up u.named) in
                let found_repo : repo ≡ u.repo = ground (arith, same, resolved, u.resolved) in
                let is_named : repo.meta.name ≡ n = ground (arith, found_repo, u.is_named) in
                ground (arith, there n, eq_iff repo.meta.name n)
          ],
        ),
      )

  collect_repo_iff :
      (n : String) (r : Runtime) (before after : Collected)
      → collect_repo db options r before ≡ ok after
      → Found before
      → Advances n r before after
  unfolding collect_repo
  collect_repo_iff n r before after h found = elim (Option-cases (used_repo r)) [
    | inl unnamed ↦
        kept_lem n r before after (ground (arith, h, unnamed))
          (λ u. absurd (ground (arith, unnamed, Names-used_repo r u.looked_up u.named))) found
    | inr (name, named) ↦ elim (Bool-cases (has before.looked_up name)) [
      | inl seen ↦
          kept_lem n r before after (ground (arith, h, named, seen))
            (looked_up_lem n name r before named seen found) found
      | inr unseen ↦ elim (Result-cases (get_cluster_by_runtime db r)) [
        | inr (e, failed) ↦ absurd (ground (arith, h, named, unseen, failed))
        | inl (c, located) ↦ elim (Bool-cases (match_request options r c.meta.name)) [
          | inr outside ↦
              kept_lem n r before after (ground (arith, h, named, unseen, located, outside))
                (λ u. absurd (ground (arith, located, outside, u.located, u.matches))) found
          | inl matches ↦ elim (Result-cases (get_code_repo db name)) [
            | inr (e, failed) ↦ absurd (ground (arith, h, named, unseen, located, matches, failed))
            | inl (repo, resolved) ↦
                subst (Advances n r before)
                  (ground (arith, h, named, unseen, located, matches, resolved))
                  (added_lem n name r c repo before named located matches resolved found)
          ]
        ]
      ]
    ]
  ]

  pub collect_repos_iff :
      (n : String) (runtimes : List Runtime) (before after : Collected)
      → collect_repos db options runtimes before ≡ ok after
      → Found before
      → Lists after.repos n ↔ (Lists before.repos n ⊎ Any (Uses n) runtimes)
  unfolding collect_repos
  collect_repos_iff n [] before after h found = ((λ l. ground (arith, h)), λ l. ground (arith, h))
  collect_repos_iff n (r ∷ rs) before after h found =
      elim (Result-cases (collect_repo db options r before)) [
        | inr (e, p) ↦ cc (rw (p, collect_repos) at h)
        | inl (next, p) ↦
            let step = collect_repo_iff n r before next p found in
            let ih = collect_repos_iff n rs next after (rw (p, collect_repos) at h) step.0 in
            (
              (λ l. elim (ih.0 l) [
                | inr later ↦ inr (inr later)
                | inl now ↦ elim (step.1.0 now) [ inl before ↦ inl before | inr u ↦ inr (inl u) ]
              ]),
              λ l. elim l [
                | inl listed ↦ ih.1 (inl (step.1.1 (inl listed)))
                | inr (inl u) ↦ ih.1 (inl (step.1.1 (inr u)))
                | inr (inr later) ↦ ih.1 (inr later)
              ],
            )
      ]
