-- ===== src/Webhook/Pipeline/Compare.antt =====
-- `Compare` of api/kubernetes/v1alpha1/projectpipelineruntime_webhook.go: whether two runtimes have a
-- pipeline in common.
use Prim.Native.String.{String}
use mathlib.Core.Path.{◌≡◌, refl}
use mathlib.Core.Logic.{◌↔◌}
use mathlib.Core.Bool.{Bool, true, false, ◌||◌, ◌&&◌}
use mathlib.Core.List.{List, [], ◌∷◌}
use native.Mathlib.Omega.{arith}
use text.Mathlib.Text.{◌==◌}
use text.Mathlib.TextEquality.{eq_iff}
use nautes.Common.Result.{Result, ok}
use nautes.Common.Lists.{Any}
use nautes.Resource.Pipeline.{Pipeline, ProjectPipelineRuntime}

-- `r.Spec.Destination == val.Spec.Destination`, of structs
unfoldable pub is_same_place : (r val : ProjectPipelineRuntime) → Bool
is_same_place r val =
    r.spec.pipeline_source == val.spec.pipeline_source
    && r.spec.destination.environment == val.spec.destination.environment
    && r.spec.destination.namespace == val.spec.destination.namespace

-- The inner loop, over the pipelines of the other runtime.
unfoldable pub any_path : (path : String) → List Pipeline → Bool
any_path path [] = false
any_path path (other ∷ others) = path == other.path || any_path path others

-- The outer loop. The places do not depend on the pipelines.
unfoldable pub any_common : (same_place : Bool) → (ours theirs : List Pipeline) → Bool
unfolding any_path
any_common same_place [] theirs = false
any_common same_place (pipeline ∷ ours) theirs =
    (same_place && any_path pipeline.path theirs) || any_common same_place ours theirs

-- The other object is a pipeline runtime too.
unfoldable pub compare_pipelines : (r val : ProjectPipelineRuntime) → Result Bool
unfolding is_same_place any_common
compare_pipelines r val = ok (any_common (is_same_place r val) r.spec.pipelines val.spec.pipelines)

any_path_iff :
    (path : String) (others : List Pipeline)
    → (any_path path others ≡ true) ↔ Any (λ (other : Pipeline). path ≡ other.path) others
unfolding any_path
any_path_iff path [] = ((λ h. cc), λ h. absurd h)
any_path_iff path (other ∷ others) =
    let ih = any_path_iff path others in
    let same = eq_iff path other.path in
    ((λ h. ground (arith, ih, same)), λ h. ground (arith, ih, same))

-- A pipeline of the one runtime has the path of a pipeline of the other.
abbrev pub HasCommon : (ours theirs : List Pipeline) → Type 0
HasCommon ours theirs = Any (λ (p : Pipeline). Any (λ (q : Pipeline). p.path ≡ q.path) theirs) ours

any_common_iff :
    (ours theirs : List Pipeline) → (any_common true ours theirs ≡ true) ↔ HasCommon ours theirs
unfolding any_common
any_common_iff [] theirs = ((λ h. cc), λ h. absurd h)
any_common_iff (pipeline ∷ ours) theirs =
    let ih = any_common_iff ours theirs in
    let here = any_path_iff pipeline.path theirs in
    ((λ h. ground (arith, ih, here)), λ h. ground (arith, ih, here))

any_common_elsewhere : (ours theirs : List Pipeline) → any_common false ours theirs ≡ false
unfolding any_common
any_common_elsewhere [] theirs = refl
any_common_elsewhere (pipeline ∷ ours) theirs = any_common_elsewhere ours theirs

common_here_iff :
    (same_place : Bool) (ours theirs : List Pipeline)
    → (any_common same_place ours theirs ≡ true) ↔ ((same_place ≡ true) × HasCommon ours theirs)
common_here_iff true ours theirs =
    let exact = any_common_iff ours theirs in ((λ h. (refl, exact.0 h)), λ h. exact.1 h.1)
common_here_iff false ours theirs =
    let elsewhere = any_common_elsewhere ours theirs in ((λ h. cc), λ h. cc)

-- Two runtimes count as one exactly if they have one source and destination, and a pipeline of each
-- has the same path.
pub compare_pipelines_iff :
    (r val : ProjectPipelineRuntime)
    → (compare_pipelines r val ≡ ok true) ↔ (
        (r.spec.pipeline_source ≡ val.spec.pipeline_source)
        × (r.spec.destination.environment ≡ val.spec.destination.environment)
        × (r.spec.destination.namespace ≡ val.spec.destination.namespace)
        × HasCommon r.spec.pipelines val.spec.pipelines)
unfolding compare_pipelines is_same_place
compare_pipelines_iff r val =
    let source = eq_iff r.spec.pipeline_source val.spec.pipeline_source in
    let environment = eq_iff r.spec.destination.environment val.spec.destination.environment in
    let namespace = eq_iff r.spec.destination.namespace val.spec.destination.namespace in
    let exact = common_here_iff (is_same_place r val) r.spec.pipelines val.spec.pipelines in
    (
      (λ h.
          let found : any_common (is_same_place r val) r.spec.pipelines val.spec.pipelines ≡ true =
            cc in
          let (here, common) = exact.0 found in
          (
            source.0 (ground (arith, here)),
            environment.0 (ground (arith, here)),
            namespace.0 (ground (arith, here)),
            common,
          )),
      λ h.
          let here : is_same_place r val ≡ true =
            ground (arith, source, environment, namespace, h.0, h.1, h.2) in
          (λ i. ok (exact.1 (here, h.3) i)),
    )
