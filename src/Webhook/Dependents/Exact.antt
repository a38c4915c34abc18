-- ===== src/Webhook/Dependents/Exact.antt =====
-- When nothing refers to a resource: lemmas on `GetDependencies` and `IsDeletable` of
-- api/kubernetes/v1alpha1/environment_webhook.go, coderepo_webhook.go and cluster_webhook.go.
use Prim.Native.String.{String}
use mathlib.Core.Path.{◌≡◌, refl, sym, ◌∙◌, subst}
use mathlib.Core.Logic.{◌↔◌, inl, inr}
use mathlib.Core.Bool.{Bool, false}
use mathlib.Core.Option.{none}
use mathlib.Core.List
use mathlib.Core.List.{List, [], ◌∷◌}
use text.Mathlib.Text.{◌==◌}
use nautes.Common.Tests.{if◌then◌else◌, is_empty, Bool-cases}
use nautes.Common.Result.{
  Error, Result, ok, err, errorf, wrap, Result-cases, >>=-eq-ok, wrap-eq-ok, ◌>>=◌,
}
use nautes.Common.Lists.{All}
use nautes.Resource.Meta.{Environment}
use nautes.Resource.CodeRepo.{CodeRepo}
use nautes.Webhook.Client.{ValidateClient, K8sClient}
use nautes.Webhook.Dependents.{
  dependents, join, cluster_from_cluster, cluster_from_deployment_runtime,
  cluster_from_pipeline_runtime, cluster_dependencies, environment_from_deployment_runtime,
  environment_from_pipeline_runtime, environment_dependencies, is_deletable_environment,
  product_of_code_repo, code_repo_from_deployment_runtime, code_repo_from_pipeline_runtime,
  code_repo_dependencies, is_deletable_code_repo,
}

-- The list can be read and none of its items refers to the resource.
abbrev pub IsClear : {A : Type 0} → Result (List A) → (refers : A → Bool) → Type 0
IsClear {A} list refers =
    (items : List A) × (list ≡ ok items) × All (λ item. refers item ≡ false) items

module _ {A : Type 0} (refers : A → Bool) (text : A → String) where
  dependents_iff :
      (items : List A)
      → (dependents refers text items ≡ []) ↔ All (λ item. refers item ≡ false) items
  unfolding dependents
  dependents_iff [] = ((λ h. tt), λ h. refl)
  dependents_iff (item ∷ items) = elim (Bool-cases (refers item)) [
    | inl refers_here ↦ rw (refers_here) ((λ h. cc), λ h. cc)
    | inr apart ↦ let ih = dependents_iff items in rw (apart) ((λ h. (refl, ih.0 h)), λ h. ih.1 h.1)
  ]

  listed_iff :
      (list : Result (List A))
      → ((list >>= λ items. ok (dependents refers text items)) ≡ ok []) ↔ IsClear list refers
  listed_iff (ok items) =
      let exact = dependents_iff items in
      (
        (λ h. (items, refl, exact.0 cc)),
        λ h.
            let (others, same, clear) = h in
            let same_items : items ≡ others = cc in
            let none_here = (dependents_iff others).1 clear in rw (same_items, none_here),
      )
  listed_iff (err e) = ((λ h. cc), λ h. cc)

append_none : (xs ys : List String) → List.◌++◌ xs ys ≡ [] → (xs ≡ []) × (ys ≡ [])
append_none [] ys h = (refl, h)
append_none (x ∷ xs) ys h = cc

ok_injective : {A : Type 0} {a b : A} → ok a ≡ ok b → a ≡ b
ok_injective h = cc

not_failed : (e : Error) (found : List String) → ¬ (err e ≡ ok found)
not_failed e found h = cc

-- The rejection of a resource that something refers to.
pub reject_iff :
    (call : Result (List String)) (format : String)
    → ((call >>= λ found. if is_empty found then ok tt else err (errorf format found))
        ≡ ok (tt {0}))
      ↔ (call ≡ ok [])
reject_iff (err e) format = ((λ h. cc), λ h. cc)
reject_iff (ok []) format = ((λ h. refl), λ h. refl)
reject_iff (ok (x ∷ found)) format = ((λ h. cc), λ h. cc)

join_iff :
    (calls : List (Result (List String))) → (join calls ≡ ok []) ↔ All (λ call. call ≡ ok []) calls
unfolding join
join_iff [] = ((λ h. tt), λ h. refl)
join_iff (err e ∷ calls) = ((λ h. cc), λ h. cc)
join_iff (ok resources ∷ calls) = elim (Result-cases (join calls)) [
  | inl (more, joined) ↦
      let ih = join_iff calls in
      rw (joined) (
        (λ h.
            let (none_here, none_later) = append_none resources more cc in
            ((λ i. ok (none_here i)), ih.0 (joined ∙ (λ i. ok (none_later i))))),
        λ h.
            let none_later : more ≡ [] = ok_injective (sym joined ∙ ih.1 h.1) in
            let none_here : resources ≡ [] = ok_injective h.0 in rw (none_here, none_later),
      )
  | inr (e, failed) ↦
      let ih = join_iff calls in
      rw (failed) ((λ h. cc), λ h. absurd (not_failed e [] (sym failed ∙ ih.1 h.1)))
]

wrap_iff : (format : String) (r : Result (List String)) → (wrap format r ≡ ok []) ↔ (r ≡ ok [])
wrap_iff format r = ((λ h. wrap-eq-ok format r h), λ h. rw (h))

-- The environment can be deleted exactly if the runtimes of its product can be listed and none of them
-- is bound for it.
is_deletable_environment_iff :
    (client : ValidateClient) (r : Environment)
    → (is_deletable_environment client r ≡ ok tt) ↔ (
        IsClear
          (client.list_deployment_runtimes r.meta.namespace)
          (λ runtime. runtime.spec.destination.environment == r.meta.name)
        × IsClear
            (client.list_project_pipeline_runtimes r.meta.namespace)
            (λ runtime. runtime.spec.destination.environment == r.meta.name))
unfolding is_deletable_environment environment_dependencies environment_from_deployment_runtime
    environment_from_pipeline_runtime
is_deletable_environment_iff client r =
    let name = r.meta.name in
    let rejects =
      reject_iff (environment_dependencies client r.meta.namespace name)
        "environment referenced by [%s], not allowed to be deleted" in
    let both = join_iff (
      environment_from_deployment_runtime client r.meta.namespace name
      ∷ environment_from_pipeline_runtime client r.meta.namespace name
      ∷ []) in
    let first = listed_iff _ _ (client.list_deployment_runtimes r.meta.namespace) in
    let second = listed_iff _ _ (client.list_project_pipeline_runtimes r.meta.namespace) in
    (
      (λ h. let found = both.0 (rejects.0 h) in (first.0 found.0, second.0 found.1.0)),
      λ h. rejects.1 (both.1 (first.1 h.0, (second.1 h.1, tt))),
    )

module _ (client : ValidateClient) (use_real_name : Bool) (name : String) where
  product_of_code_repo_iff :
      (product : String)
      → (product_of_code_repo client use_real_name name ≡ ok product) ↔ (
          (repo : CodeRepo) × (client.get_code_repo name ≡ ok repo)
          × ((repo.spec.product == "") ≡ false)
          × (repo.spec.product ≡ product))
  unfolding product_of_code_repo
  product_of_code_repo_iff product = elim (Result-cases (client.get_code_repo name)) [
    | inl (repo, found) ↦ elim (Bool-cases (repo.spec.product == "")) [
      | inl empty ↦ (
        (λ h. cc (rw (found, empty) at h)),
        λ h. let same : h.0 ≡ repo = ok_injective (sym h.1 ∙ found) in cc,
      )
      | inr apart ↦ (
        (λ h. (repo, found, apart, ok_injective (rw (found, apart) at h))),
        λ h.
            let same : repo ≡ h.0 = ok_injective (sym found ∙ h.1) in
            rw (found, apart) (λ i. ok (((λ j. (same j).spec.product) ∙ h.3) i)),
      )
    ]
    | inr (e, failed) ↦ ((λ h. cc (rw (failed) at h)), λ h. cc)
  ]

-- The repository can be deleted exactly if it can be read, belongs to a product, and the runtimes of
-- that product can be listed and none of them has its manifests or its pipeline there.
pub is_deletable_code_repo_iff :
    (client : ValidateClient) (use_real_name : Bool) (r : CodeRepo)
    → (is_deletable_code_repo client use_real_name r ≡ ok tt) ↔ (
        (repo : CodeRepo) × (client.get_code_repo r.meta.name ≡ ok repo)
        × ((repo.spec.product == "") ≡ false)
        × IsClear
            (client.list_deployment_runtimes repo.spec.product)
            (λ runtime. runtime.spec.manifest_source.code_repo == r.meta.name)
        × IsClear
            (client.list_project_pipeline_runtimes repo.spec.product)
            (λ runtime. runtime.spec.pipeline_source == r.meta.name))
unfolding is_deletable_code_repo code_repo_dependencies code_repo_from_deployment_runtime
    code_repo_from_pipeline_runtime
is_deletable_code_repo_iff client use_real_name r =
    let name = r.meta.name in
    let format : String = "get dependent resources failed: %w" in
    let from_deployments = code_repo_from_deployment_runtime client use_real_name name in
    let from_pipelines = code_repo_from_pipeline_runtime client use_real_name name in
    let rejects =
      reject_iff (code_repo_dependencies client use_real_name name)
        "coderepo referenced by [%s], not allowed to be deleted" in
    let both = join_iff (wrap format from_deployments ∷ wrap format from_pipelines ∷ []) in
    (
      (λ h.
          let found = both.0 (rejects.0 h) in
          let (p, known, first) =
            >>=-eq-ok (product_of_code_repo client use_real_name name) _
              ((wrap_iff format from_deployments).0 found.0) in
          let (q, known', second) =
            >>=-eq-ok (product_of_code_repo client use_real_name name) _
              ((wrap_iff format from_pipelines).0 found.1.0) in
          let (repo, read, apart, same) =
            (product_of_code_repo_iff client use_real_name name p).0 known in
          let (repo', read', apart', same') =
            (product_of_code_repo_iff client use_real_name name q).0 known' in
          let one : repo' ≡ repo = ok_injective (sym read' ∙ read) in
          (
            repo,
            read,
            apart,
            subst
                (λ x.
                  IsClear (client.list_deployment_runtimes x)
                    (λ runtime. runtime.spec.manifest_source.code_repo == name))
                (sym same) ((listed_iff _ _ (client.list_deployment_runtimes p)).0 first),
            subst
                (λ x.
                  IsClear (client.list_project_pipeline_runtimes x)
                    (λ runtime. runtime.spec.pipeline_source == name))
                (sym same' ∙ (λ i. (one i).spec.product))
                ((listed_iff _ _ (client.list_project_pipeline_runtimes q)).0 second),
          )),
      λ h.
          let (repo, read, apart, deployments, pipelines) = h in
          let known =
            (product_of_code_repo_iff client use_real_name name repo.spec.product).1
              (repo, read, apart, refl) in
          let first : from_deployments ≡ ok [] =
            rw (known) (
              (listed_iff _ _ (client.list_deployment_runtimes repo.spec.product)).1 deployments) in
          let second : from_pipelines ≡ ok [] = rw (known) (
            (listed_iff _ _ (client.list_project_pipeline_runtimes repo.spec.product)).1
              pipelines) in
          rejects.1 (
            both.1 (
              (wrap_iff format from_deployments).1 first,
              ((wrap_iff format from_pipelines).1 second, tt),
            )),
    )

-- No cluster is hosted on the cluster and no runtime is deployed on it.
abbrev pub IsUnreferenced : K8sClient → (cluster_name : String) → Type 0
IsUnreferenced client cluster_name =
    IsClear client.list_clusters (λ c. c.spec.host_cluster == cluster_name)
    × IsClear (client.list_deployment_runtimes none) (λ r. r.status.cluster == cluster_name)
    × IsClear (client.list_pipeline_runtimes none) (λ r. r.status.cluster == cluster_name)

pub cluster_dependencies_iff :
    (client : K8sClient) (cluster_name : String)
    → (cluster_dependencies client cluster_name ≡ ok []) ↔ IsUnreferenced client cluster_name
unfolding cluster_dependencies cluster_from_cluster cluster_from_deployment_runtime
    cluster_from_pipeline_runtime
cluster_dependencies_iff client cluster_name =
    let format : String = "get dependent resources failed: %w" in
    let all = join_iff (
      wrap format (cluster_from_cluster client cluster_name)
      ∷ wrap format (cluster_from_deployment_runtime client cluster_name)
      ∷ wrap format (cluster_from_pipeline_runtime client cluster_name)
      ∷ []) in
    let first = listed_iff _ _ client.list_clusters in
    let second = listed_iff _ _ (client.list_deployment_runtimes none) in
    let third = listed_iff _ _ (client.list_pipeline_runtimes none) in
    let w1 = wrap_iff format (cluster_from_cluster client cluster_name) in
    let w2 = wrap_iff format (cluster_from_deployment_runtime client cluster_name) in
    let w3 = wrap_iff format (cluster_from_pipeline_runtime client cluster_name) in
    (
      (λ h.
          let found = all.0 h in
          (first.0 (w1.0 found.0), second.0 (w2.0 found.1.0), third.0 (w3.0 found.1.1.0))),
      λ h. all.1 (w1.1 (first.1 h.0), (w2.1 (second.1 h.1), (w3.1 (third.1 h.2), tt))),
    )
