-- ===== src/Task/Setup/Examples.antt =====
-- A cluster whose secret sync and secret management components differ.
use Prim.Native.String.{String, ◌++◌}
use mathlib.Core.Path.{◌≡◌, refl}
use mathlib.Core.Option.{none, some}
use mathlib.Core.List.{[], ◌∷◌}
use nautes.Common.Result.{ok}
use nautes.Resource.Cluster.{Component, ComponentsList}
use nautes.Task.Setup.{
  ComponentList, NewComponent, NewFunctions, init_components, IsSetUp, init_components-IsMade,
}

abbrev named : String → Component
named name = record { name = name; namespace = name; additions = [] }

abbrev listed : ComponentsList
listed = record {
  cert_management = none;
  deployment = some (named "argocd");
  event_listener = none;
  gateway = none;
  multi_tenant = some (named "hnc");
  pipeline = some (named "tekton");
  progressive_delivery = none;
  secret_management = some (named "vault");
  secret_sync = some (named "external-secret");
  oauth_proxy = none;
}

-- A component that is the name of the option that it is made of.
abbrev of_option : NewComponent String String
of_option option list = ok option.name

abbrev functions : NewFunctions String String
functions = record {
  secret_sync = ("external-secret", of_option) ∷ [];
  deployment = ("argocd", of_option) ∷ [];
  multi_tenant = ("hnc", of_option) ∷ [];
  event_listener = [];
  pipeline =
      (
        "tekton",
        record {
          new_status = λ raw. ok raw;
          new_component = λ option list status. ok (option.name ++ status);
        },
      )
      ∷ [];
}

abbrev components : ComponentList String String
components = record {
  deployment = some "argocd";
  multi_tenant = some "hnc";
  secret_management = some "vault-of-tenant";
  secret_sync = some "vault";
  event_listener = none;
  pipeline = some "tekton";
}

components_of_listed :
    init_components String String functions listed none "vault-of-tenant"
    ≡ ok (components, ("pipeline", "") ∷ [])
unfolding init_components
components_of_listed = refl

init_components-IsMade_example : IsSetUp String String functions listed "vault-of-tenant" components
init_components-IsMade_example =
    init_components-IsMade String String functions listed none "vault-of-tenant"
      components_of_listed
