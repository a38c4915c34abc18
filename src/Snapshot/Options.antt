-- ===== src/Snapshot/Options.antt =====
-- `ListOptions` of app/runtime-operator/pkg/database/interface.go.
use Prim.Native.String.{String}
use mathlib.Core.Path.{◌≡◌}
use mathlib.Core.Logic.{◌⊎◌, ◌↔◌}
use mathlib.Core.Bool.{Bool, true, false, ◌&&◌, not}
use mathlib.Core.List.{List}
use native.Mathlib.Omega.{arith}
use text.Mathlib.Text.{◌==◌}
use text.Mathlib.TextEquality.{eq_iff}
use nautes.Common.Tests.{if◌then◌else◌}
use nautes.Resource.Meta.{is_terminating}
use nautes.Resource.Runtime.{Runtime, meta_of, is_exclude_runtime}

pub record ListOptions : Type 0 where
  pub in_cluster : String
  pub exclude_runtimes : List Runtime
  pub without_deleted_runtimes : Bool
  pub without_product_info : Bool

unfoldable pub is_request_cluster : ListOptions → String → Bool
is_request_cluster o cluster_name =
    not (not (o.in_cluster == "") && not (o.in_cluster == cluster_name))

unfoldable pub match_request : ListOptions → Runtime → (cluster_name : String) → Bool
unfolding is_request_cluster is_exclude_runtime meta_of
match_request o runtime cluster_name =
    if o.without_deleted_runtimes && is_terminating (meta_of runtime)
    then false
    else if not (is_request_cluster o cluster_name)
    then false
    else if is_exclude_runtime runtime o.exclude_runtimes
    then false
    else true

-- The request covers the runtime on that cluster.
pub record Matches (o : ListOptions) (runtime : Runtime) (cluster_name : String) : Type 0 where
  pub alive : (o.without_deleted_runtimes ≡ false) ⊎ (is_terminating (meta_of runtime) ≡ false)
  pub requested : (o.in_cluster ≡ "") ⊎ (o.in_cluster ≡ cluster_name)
  pub included : is_exclude_runtime runtime o.exclude_runtimes ≡ false

-- A request covers a runtime on a cluster exactly if the runtime is not being deleted or the request
-- asks for those too, the request is for that cluster or for all, and it does not exclude the
-- runtime.
pub match_request_iff :
    (o : ListOptions) (runtime : Runtime) (cluster_name : String)
    → (match_request o runtime cluster_name ≡ true) ↔ Matches o runtime cluster_name
unfolding match_request
match_request_iff o runtime cluster_name =
    let a = eq_iff o.in_cluster "" in
    let b = eq_iff o.in_cluster cluster_name in
    ((λ h. ground (arith, a, b)), λ h. ground (arith, a, b))
