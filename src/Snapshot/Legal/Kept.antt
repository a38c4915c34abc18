-- ===== src/Snapshot/Legal/Kept.antt =====
-- Lemmas on `removeIllegalReposInPipelineRuntime` of
-- app/runtime-operator/pkg/database/database.go.
use Prim.Native.String.{String}
use mathlib.Core.Path.{◌≡◌, refl}
use mathlib.Core.Bool.{Bool, true}
use mathlib.Core.Option
use mathlib.Core.Option.{Option, none, some}
use mathlib.Core.List.{List, [], ◌∷◌}
use native.Mathlib.Omega.{arith}
use text.Mathlib.Text.{◌==◌}
use text.Mathlib.TextEquality.{eq_iff}
use nautes.Common.Tests.{if◌then◌else◌}
use nautes.Common.Lists.{All, has, keep}
use nautes.Common.Maps.{Map, lookup, delete, IsMap, lookup-assign, lookup-delete, lookup_of_absent}
use nautes.Resource.Pipeline.{PipelineTrigger, ProjectPipelineRuntime}
use nautes.Snapshot.Matrix.{PermissionMatrix, list_code_repos_in_project}
use nautes.Snapshot.State.{RuntimeDataBase}
use nautes.Snapshot.Legal.{
  is_legal_source, source_names, remove_event_source_in_pipeline_runtime, legalize,
  remove_illegal_in_runtime, remove_illegal_in_runtimes, remove_illegal_repos_in_pipeline_runtime,
}

module _ (matrix : PermissionMatrix) where
  -- The runtime with what its project may not use left out.
  abbrev pub legal_form : ProjectPipelineRuntime → ProjectPipelineRuntime
  legal_form r = legalize (list_code_repos_in_project r.spec.project matrix) r

  remove_illegal_in_runtime_lem :
      (name k : String) (r : ProjectPipelineRuntime) (runtimes : Map ProjectPipelineRuntime)
      → lookup k (remove_illegal_in_runtime matrix name r runtimes)
        ≡ (if name == k then some (legal_form r) else lookup k runtimes)
  unfolding remove_illegal_in_runtime
  remove_illegal_in_runtime_lem name k r runtimes =
      let form = legal_form r in
      let less = delete name runtimes in
      ground (
        arith,
        lookup-assign name k form runtimes,
        lookup-assign name k form less,
        lookup-assign name k form (delete name less),
        lookup-delete name k runtimes,
        lookup-delete name k less,
        eq_iff name k,
      )

  remove_illegal_in_runtimes_lem :
      (entries runtimes : Map ProjectPipelineRuntime) (k : String)
      → IsMap entries
      → lookup k (remove_illegal_in_runtimes matrix entries runtimes)
        ≡ elim (lookup k entries) [ none ↦ lookup k runtimes | some r ↦ some (legal_form r) ]
  unfolding remove_illegal_in_runtimes lookup
  remove_illegal_in_runtimes_lem [] runtimes k h = refl
  remove_illegal_in_runtimes_lem ((name, r) ∷ entries) runtimes k h =
      let next = remove_illegal_in_runtime matrix name r runtimes in
      ground (
        arith,
        remove_illegal_in_runtimes_lem entries next k,
        remove_illegal_in_runtime_lem name k r runtimes,
        lookup_of_absent name entries,
        eq_iff name k,
      )

-- No runtime is removed, not even one whose project has no repository or may not use its pipeline
-- source: each name has after the removal the legal form of the runtime that it had before.
pub remove_illegal-keeps :
    (db : RuntimeDataBase) (name : String)
    → IsMap db.pipeline_runtimes
    → lookup name (remove_illegal_repos_in_pipeline_runtime db).pipeline_runtimes
      ≡ Option.map (legal_form db.permission_matrix) (lookup name db.pipeline_runtimes)
unfolding remove_illegal_repos_in_pipeline_runtime
remove_illegal-keeps db name h = ground (
  arith,
  remove_illegal_in_runtimes_lem db.permission_matrix db.pipeline_runtimes db.pipeline_runtimes
      name,
)

keep-All {ℓ} : {A : Type ℓ} (p : A → Bool) (xs : List A) → All (λ x. p x ≡ true) (keep p xs)
unfolding keep
keep-All p [] = tt
keep-All p (x ∷ xs) = ground (arith, keep-All p xs)

-- A runtime that listens only to repositories of its project, with triggers for its own sources.
pub record IsLegal (repos : List String) (r : ProjectPipelineRuntime) : Type 0 where
  pub sources : All (λ es. is_legal_source repos es ≡ true) r.spec.event_sources
  pub triggers :
      All
        (λ (t : PipelineTrigger). has (source_names r.spec.event_sources) t.event_source ≡ true)
        r.spec.pipeline_triggers

-- The legal form of a runtime listens only to repositories that its project may use, and its
-- triggers are for the event sources that it kept; its pipeline source, its destination and its
-- metadata are those of the runtime.
pub legalize-IsLegal :
    (repos : List String) (r : ProjectPipelineRuntime)
    → IsLegal repos (legalize repos r)
      × ((legalize repos r).spec.pipeline_source ≡ r.spec.pipeline_source)
      × ((legalize repos r).spec.destination ≡ r.spec.destination)
      × ((legalize repos r).meta ≡ r.meta)
unfolding legalize remove_event_source_in_pipeline_runtime
legalize-IsLegal repos r = (
  record {
    sources = keep-All (is_legal_source repos) r.spec.event_sources;
    triggers = keep-All _ r.spec.pipeline_triggers;
  },
  refl,
  refl,
  refl,
)
