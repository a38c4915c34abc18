-- ===== src/Resource/Deployment.antt =====
-- Deployment runtimes (api/kubernetes/v1alpha1/deploymentruntime_types.go and its functions).
use Prim.Native.String.{String}
use mathlib.Core.Option.{Option}
use mathlib.Core.List.{List, [], ◌∷◌}
use text.Mathlib.Text.{◌==◌}
use nautes.Common.Tests.{if◌then◌else◌, is_empty}
use nautes.Resource.Meta.{ObjectMeta}

pub record ManifestSource : Type 0 where
  pub code_repo : String
  pub target_revision : String
  pub path : String

pub record DeploymentRuntimesDestination : Type 0 where
  pub environment : String
  pub namespaces : List String

pub record DeploymentRuntimeSpec : Type 0 where
  pub product : String
  pub projects_ref : List String
  pub manifest_source : ManifestSource
  pub destination : DeploymentRuntimesDestination
  pub account : String

pub record DeployHistory : Type 0 where
  pub manifest_source : ManifestSource
  pub destination : DeploymentRuntimesDestination
  pub source : String

pub record DeploymentRuntimeStatus : Type 0 where
  pub cluster : String
  pub deploy_history : Option DeployHistory

pub record DeploymentRuntime : Type 0 where
  pub meta : ObjectMeta
  pub spec : DeploymentRuntimeSpec
  pub status : DeploymentRuntimeStatus

unfoldable pub get_namespaces : DeploymentRuntime → List String
get_namespaces r =
    if is_empty r.spec.destination.namespaces
    then r.meta.name ∷ []
    else r.spec.destination.namespaces

unfoldable pub get_account : DeploymentRuntime → String
get_account r = if r.spec.account == "" then r.meta.name else r.spec.account
