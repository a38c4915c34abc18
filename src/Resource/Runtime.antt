-- ===== src/Resource/Runtime.antt =====
-- The `Runtime` interface (api/kubernetes/v1alpha1/global.go): its two implementations as
-- constructors, its methods by clauses.
use Prim.Native.String.{String}
use mathlib.Core.Bool.{Bool, true, false, ◌&&◌}
use mathlib.Core.List.{List}
use text.Mathlib.Text.{◌==◌}
use nautes.Common.Lists.{any}
use nautes.Resource.Meta.{ObjectMeta}
use nautes.Resource.Deployment
use nautes.Resource.Deployment.{DeploymentRuntime}
use nautes.Resource.Pipeline
use nautes.Resource.Pipeline.{ProjectPipelineRuntime}

pub data Runtime : Type 0 where
  deployment : DeploymentRuntime → Runtime
  pipeline : ProjectPipelineRuntime → Runtime

unfoldable pub meta_of : Runtime → ObjectMeta
meta_of (deployment r) = r.meta
meta_of (pipeline r) = r.meta

unfoldable pub get_name : Runtime → String
unfolding meta_of
get_name r = (meta_of r).name

unfoldable pub get_product : Runtime → String
get_product (deployment r) = r.spec.product
get_product (pipeline r) = r.meta.namespace

unfoldable pub get_destination : Runtime → String
get_destination (deployment r) = r.spec.destination.environment
get_destination (pipeline r) = r.spec.destination.environment

unfoldable pub get_namespaces : Runtime → List String
unfolding Deployment.get_namespaces Pipeline.get_namespaces
get_namespaces (deployment r) = Deployment.get_namespaces r
get_namespaces (pipeline r) = Pipeline.get_namespaces r

unfoldable pub get_account : Runtime → String
unfolding Deployment.get_account Pipeline.get_account
get_account (deployment r) = Deployment.get_account r
get_account (pipeline r) = Pipeline.get_account r

-- `reflect.TypeOf(a) == reflect.TypeOf(b)`
unfoldable pub same_type : Runtime → Runtime → Bool
same_type (deployment a) (deployment b) = true
same_type (deployment a) (pipeline b) = false
same_type (pipeline a) (deployment b) = false
same_type (pipeline a) (pipeline b) = true

-- Of one type, in one product, under one name.
unfoldable pub is_same_runtime : Runtime → Runtime → Bool
unfolding same_type get_product get_name
is_same_runtime a b = same_type a b && get_product a == get_product b && get_name a == get_name b

unfoldable pub is_exclude_runtime : Runtime → List Runtime → Bool
unfolding is_same_runtime any
is_exclude_runtime runtime exclude_runtimes = any (is_same_runtime runtime) exclude_runtimes
