-- ===== src/Webhook/Pipeline/Validate/Accepted.antt =====
-- Lemmas on `Validate` of api/kubernetes/v1alpha1/projectpipelineruntime_webhook.go.
use Prim.Native.String.{String}
use mathlib.Core.Path.{subst, ◌≡◌, sym, ◌∙◌}
use mathlib.Core.Logic.{inl, inr}
use mathlib.Core.Option.{Option, none, some}
use mathlib.Core.List.{List, [], ◌∷◌}
use native.Mathlib.Omega.{arith}
use text.Mathlib.TextEquality.{eq_iff}
use nautes.Common.Tests.{Option-cases}
use nautes.Common.Result.{Check, ok, Result-cases}
use nautes.Common.Lists.{All, Any, has}
use nautes.Common.Maps.{Map, lookup_or}
use nautes.Resource.Meta.{Environment}
use nautes.Resource.Cluster.{Cluster, cluster_usage_worker, cluster_work_type_pipeline}
use nautes.Resource.Pipeline.{EventSource, ProjectPipelineRuntime, get_namespace}
use nautes.Resource.Runtime.{Runtime, pipeline}
use nautes.Webhook.Client.{ValidateClient, get_cluster_by_runtime}
use nautes.Webhook.Namespaces.{GetUsedNamespacesOptions, get_runtimes, get_used_namespaces}
use nautes.Webhook.Namespaces.Exact.{Uses, get_used_namespaces_iff}
use nautes.Webhook.Pipeline.Static.{static_check}
use nautes.Webhook.Pipeline.Static.Sound.{IsWellFormed, static_check_iff}
use nautes.Webhook.Pipeline.Validate.{
  WebhookEnv, IllegalEventSource, gitlab_repo, repo_reason, find_illegal_event_sources,
  check_additional_permission, check_namespace_free, permission_of, check_hooks, validate,
  reject_illegal, validate_create,
}

-- The steps of a validation that returned, each with its result.
record Run (env : WebhookEnv) (client : ValidateClient) (r : ProjectPipelineRuntime)
    (illegal : List IllegalEventSource) : Type 0 where
  static : static_check r ≡ ok tt
  cluster : Cluster
  found : get_cluster_by_runtime client (pipeline r) ≡ ok cluster
  worker : cluster.spec.usage ≡ cluster_usage_worker
  work_type : cluster.spec.worker_type ≡ cluster_work_type_pipeline
  source : permission_of env client r r.spec.pipeline_source ≡ ok tt
  additional :
      check_additional_permission (permission_of env client r) r.spec.additional_resources ≡ ok tt
  usage : Map (List String)
  used :
      get_used_namespaces client
        (record { exclude_runtimes = pipeline r ∷ []; in_cluster = cluster.meta.name })
      ≡ ok usage
  free : check_namespace_free cluster.meta.name (get_namespace r) usage ≡ ok tt
  hooks : check_hooks env client r cluster ≡ ok tt
  result : illegal ≡ find_illegal_event_sources (permission_of env client r) r.spec.event_sources

validate-Run :
    (env : WebhookEnv) (client : ValidateClient) (r : ProjectPipelineRuntime)
    (illegal : List IllegalEventSource)
    → validate env client r ≡ ok illegal
    → Run env client r illegal
unfolding validate
validate-Run env client r illegal h =
    elim (Result-cases (get_cluster_by_runtime client (pipeline r))) [
      | inr (e, failed) ↦ absurd (ground (arith, h, failed))
      | inl (cluster, found) ↦
          let options : GetUsedNamespacesOptions = record {
            exclude_runtimes = pipeline r ∷ [];
            in_cluster = cluster.meta.name;
          } in
          elim (Result-cases (get_used_namespaces client options)) [
            | inr (e, failed) ↦ absurd (ground (arith, h, found, failed))
            | inl (usage, used) ↦
                let usage_kind = eq_iff cluster.spec.usage cluster_usage_worker in
                let work_kind = eq_iff cluster.spec.worker_type cluster_work_type_pipeline in
                record {
                  static = ground (arith, h);
                  cluster = cluster;
                  found = found;
                  worker = ground (arith, h, found, usage_kind);
                  work_type = ground (arith, h, found, work_kind);
                  source = ground (arith, h, found);
                  additional = ground (arith, h, found);
                  usage = usage;
                  used = used;
                  free = ground (arith, h, found, used);
                  hooks = ground (arith, h, found, used);
                  result = ground (arith, h, found, used);
                }
          ]
    ]

abbrev pub IsPermitted : (permission : String → Check) → Option String → Type 0
IsPermitted permission none = Unit
IsPermitted permission (some repo) = permission repo ≡ ok tt

-- The repository of the event source, if it names one, may be used.
abbrev pub MayUse : (permission : String → Check) → EventSource → Type 0
MayUse permission es = IsPermitted permission (gitlab_repo es)

repo_reason-none :
    (permission : String → Check) (es : EventSource)
    → repo_reason permission es ≡ none
    → MayUse permission es
unfolding repo_reason
repo_reason-none permission es h = elim (Option-cases (gitlab_repo es)) [
  | inl unnamed ↦ subst (IsPermitted permission) (sym unnamed) tt
  | inr (repo, named) ↦ elim (Result-cases (permission repo)) [
    | inl (tt, allowed) ↦ subst (IsPermitted permission) (sym named) allowed
    | inr (e, refused) ↦ absurd (ground (arith, h, named, refused))
  ]
]

find_illegal-nil :
    (permission : String → Check) (sources : List EventSource)
    → find_illegal_event_sources permission sources ≡ []
    → All (MayUse permission) sources
unfolding find_illegal_event_sources
find_illegal-nil permission [] h = tt
find_illegal-nil permission (es ∷ sources) h = elim (Option-cases (repo_reason permission es)) [
  | inl e ↦
      (repo_reason-none permission es e, find_illegal-nil permission sources (ground (arith, h, e)))
  | inr (reason, e) ↦ absurd (ground (arith, h, e))
]

abbrev pub cluster_options : ProjectPipelineRuntime → Cluster → GetUsedNamespacesOptions
cluster_options r cluster = record {
  exclude_runtimes = pipeline r ∷ [];
  in_cluster = cluster.meta.name;
}

-- What an accepted runtime guarantees about itself and about its cluster.
pub record IsAdmissible (env : WebhookEnv) (client : ValidateClient) (r : ProjectPipelineRuntime)
    (cluster : Cluster) (runtimes : List Runtime) (envs : List Environment) : Type 0 where
  pub well_formed : IsWellFormed r
  pub worker : cluster.spec.usage ≡ cluster_usage_worker
  pub work_type : cluster.spec.worker_type ≡ cluster_work_type_pipeline
  pub source : permission_of env client r r.spec.pipeline_source ≡ ok tt
  pub hooks : check_hooks env client r cluster ≡ ok tt
  pub namespace_free :
      ¬ Any (Uses (cluster_options r cluster) envs cluster.meta.name (get_namespace r)) runtimes

module _ (env : WebhookEnv) (client : ValidateClient) (r : ProjectPipelineRuntime)
    (cluster : Cluster) (runtimes : List Runtime) (envs : List Environment) where
  not-Uses :
      (usage : Map (List String))
      → get_runtimes client ≡ ok runtimes
      → client.list_environments ≡ ok envs
      → get_used_namespaces client (cluster_options r cluster) ≡ ok usage
      → check_namespace_free cluster.meta.name (get_namespace r) usage ≡ ok tt
      → ¬ Any (Uses (cluster_options r cluster) envs cluster.meta.name (get_namespace r)) runtimes
  unfolding check_namespace_free lookup_or has
  not-Uses usage read_runtimes read_envs used free uses =
      let listed =
        get_used_namespaces_iff (cluster_options r cluster) envs cluster.meta.name (get_namespace r)
          client runtimes usage read_runtimes read_envs used in
      ground (arith, listed.1 uses, free)

  -- If the validation returns, with the cluster, the runtimes and the environments as read, then
  -- the runtime is well formed, the cluster is a pipeline worker, the pipeline source is permitted,
  -- the hooks are accepted, and no other runtime on the cluster uses the runtime's namespace.
  pub validate-IsAdmissible :
      (illegal : List IllegalEventSource)
      → validate env client r ≡ ok illegal
      → get_cluster_by_runtime client (pipeline r) ≡ ok cluster
      → get_runtimes client ≡ ok runtimes
      → client.list_environments ≡ ok envs
      → IsAdmissible env client r cluster runtimes envs
  validate-IsAdmissible illegal h found read_runtimes read_envs =
      let run = validate-Run env client r illegal h in
      let same : run.cluster ≡ cluster = ground (arith, run.found, found) in
      record {
        well_formed = (static_check_iff r).0 run.static;
        worker = rw same at run.worker;
        work_type = rw same at run.work_type;
        source = run.source;
        hooks = rw same at run.hooks;
        namespace_free =
            not-Uses run.usage read_runtimes read_envs (rw same at run.used) (rw same at run.free);
      }

-- If a creation is accepted with a client at hand, the validation returned no illegal event source,
-- and each repository that an event source of the runtime names may be used by its project.
validate_create-MayUse :
    (env : WebhookEnv) (client : ValidateClient) (r : ProjectPipelineRuntime)
    → validate_create env (some client) r ≡ ok tt
    → (validate env client r ≡ ok [])
      × All (MayUse (permission_of env client r)) r.spec.event_sources
unfolding validate_create reject_illegal
validate_create-MayUse env client r h = elim (Result-cases (validate env client r)) [
  | inr (e, failed) ↦ absurd (ground (arith, h, failed))
  | inl (illegal, ran) ↦
      let empty : illegal ≡ [] = ground (arith, h, ran) in
      let run = validate-Run env client r illegal ran in
      (ground (arith, ran, empty), find_illegal-nil _ r.spec.event_sources (sym run.result ∙ empty))
]
