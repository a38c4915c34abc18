-- ===== src/Resource/CodeRepo.antt =====
-- Code repositories, their providers and their bindings (api/kubernetes/v1alpha1).
use Prim.Native.String.{String}
use mathlib.Core.Bool.{Bool}
use mathlib.Core.Option.{Option}
use mathlib.Core.List.{List}
use nautes.Resource.Meta.{ObjectMeta}

pub record Webhook : Type 0 where
  pub events : List String

pub record CodeRepoSpec : Type 0 where
  pub code_repo_provider : String
  pub product : String
  pub project : String
  pub repo_name : String
  pub url : String
  pub deployment_runtime : Bool
  pub pipeline_runtime : Bool
  pub webhook : Option Webhook

pub record CodeRepo : Type 0 where
  pub meta : ObjectMeta
  pub spec : CodeRepoSpec

pub record CodeRepoProviderSpec : Type 0 where
  pub http_address : String
  pub ssh_address : String
  pub api_server : String
  pub provider_type : String

pub record CodeRepoProvider : Type 0 where
  pub meta : ObjectMeta
  pub spec : CodeRepoProviderSpec

pub record CodeRepoBindingSpec : Type 0 where
  pub code_repo : String
  pub product : String
  pub projects : List String
  pub permissions : String

pub record CodeRepoBinding : Type 0 where
  pub meta : ObjectMeta
  pub spec : CodeRepoBindingSpec
