-- ===== src/Task/Pipeline/Scopes.antt =====
-- What the tasks of a pipeline runtime may do with spaces and applications
-- (app/runtime-operator/internal/syncer/v2/task/pipelineRuntime.go).
use Prim.Native.String.{String}
use mathlib.Core.Path.{◌≡◌, refl, sym, subst}
use mathlib.Core.Logic.{inl, inr}
use mathlib.Core.Bool.{false}
use mathlib.Core.Option.{Option, none, some}
use mathlib.Core.List.{List}
use native.Mathlib.Omega.{arith}
use text.Mathlib.Text.{◌==◌}
use text.Mathlib.TextEquality.{eq_iff}
use text.Mathlib.TextLemmas.{append_cancel_right}
use nautes.Common.Tests.{Bool-cases}
use nautes.Common.Lists.{All-imp, remove}
use nautes.Usage.Products.{ProductUsage}
use nautes.Task.Component.{Space, Application}
use nautes.Task.Others.{Others, others}
use nautes.Task.Safe.{Scope, any_scope, IsForeign, IsForeign-remove}
use nautes.Task.Pipeline.Deployer.{PipelineRuntimeDeployer, name_of, build_additional_app_name}
use nautes.Task.Pipeline.Careful.{IsOwnSpace, IsOwnApp, Fits}

-- The name of the space of the last deployment.
abbrev pub IsLast : Option Space → (space : String) → Type 0
IsLast cached space = (last : Space) × (cached ≡ some last) × (last.meta.name ≡ space)

-- What a pipeline runtime may do: delete the space of its last deployment, take it from its old account,
-- and deal with an application that is no other runtime's additional application.
abbrev pub pipeline_scope : PipelineRuntimeDeployer → Scope
pipeline_scope prd = record {
  Frees = λ o space. IsLast prd.cache.space space;
  Leaves = λ o space account_name. IsLast prd.cache.space space;
  Owns = λ o app_name. IsForeign build_additional_app_name app_name o.runtimes;
}

-- The application of the last deployment, if any, has the name that `buildApp` gives.
abbrev pub IsAdditional : (runtime_name : String) → Option Application → Type 0
IsAdditional runtime_name none = Unit
IsAdditional runtime_name (some app) = app.meta.name ≡ build_additional_app_name runtime_name

any_scope-IsOwnSpace : (o : Others) (cached : Option Space) → IsOwnSpace any_scope o cached
any_scope-IsOwnSpace o none = tt
any_scope-IsOwnSpace o (some space) = (tt, λ account_name. tt)

any_scope-IsOwnApp : (o : Others) (cached : Option Application) → IsOwnApp any_scope o cached
any_scope-IsOwnApp o none = tt
any_scope-IsOwnApp o (some app) = tt

pub any_scope-Fits : (prd : PipelineRuntimeDeployer) (o : Others) → Fits prd any_scope o
any_scope-Fits prd o = record {
  space = any_scope-IsOwnSpace o prd.cache.space;
  app = tt;
  old_app = any_scope-IsOwnApp o prd.cache.app;
}

-- Runtimes of different names have additional applications of different names.
differ-additional :
    (a b : String)
    → (a == b) ≡ false
    → (build_additional_app_name a == build_additional_app_name b) ≡ false
unfolding build_additional_app_name
differ-additional a b differs =
    elim (Bool-cases (build_additional_app_name a == build_additional_app_name b)) [
      | inr other ↦ other
      | inl same ↦
          let equal = append_cancel_right a b "-additional" ((eq_iff _ _).0 same) in
          absurd (ground (arith, differs, (eq_iff a b).1 equal))
    ]

IsForeign-additional :
    (self : String) (runtimes : List String)
    → IsForeign build_additional_app_name (build_additional_app_name self) (remove self runtimes)
IsForeign-additional self runtimes =
    All-imp (λ runtime other. differ-additional runtime self other) _
      (IsForeign-remove self runtimes)

module _ (prd : PipelineRuntimeDeployer) (usage : ProductUsage) where
  last_space-IsOwnSpace :
      (cached : Option Space)
      → prd.cache.space ≡ cached
      → IsOwnSpace (pipeline_scope prd) (others (name_of prd) usage) cached
  last_space-IsOwnSpace none found = tt
  last_space-IsOwnSpace (some last) found =
      ((last, found, refl), λ account_name. (last, found, refl))

  old_app-IsOwnApp :
      (cached : Option Application)
      → IsAdditional (name_of prd) cached
      → IsOwnApp (pipeline_scope prd) (others (name_of prd) usage) cached
  old_app-IsOwnApp none named = tt
  old_app-IsOwnApp (some app) named =
      subst
        (λ (name : String).
          IsForeign build_additional_app_name name (remove (name_of prd) usage.runtimes))
        (sym named) (IsForeign-additional (name_of prd) usage.runtimes)

  pub pipeline_scope-Fits :
      IsAdditional (name_of prd) prd.cache.app
      → Fits prd (pipeline_scope prd) (others (name_of prd) usage)
  pipeline_scope-Fits named = record {
    space = last_space-IsOwnSpace prd.cache.space refl;
    app = IsForeign-additional (name_of prd) usage.runtimes;
    old_app = old_app-IsOwnApp prd.cache.app named;
  }
