-- ===== src/Resource/Samples.antt =====
-- Small resources for the tests of the other modules.
use Prim.Native.String.{String}
use mathlib.Core.Bool.{true, false}
use mathlib.Core.Option.{none, some}
use mathlib.Core.List.{[], ◌∷◌}
use nautes.Resource.Meta.{ObjectMeta, Product, Project, Environment, label_from_product}
use nautes.Resource.CodeRepo.{CodeRepo, CodeRepoBinding, CodeRepoProvider}
use nautes.Resource.Cluster.{
  Component, ComponentsList, Cluster, cluster_usage_worker, cluster_type_physical,
}
use nautes.Resource.Deployment.{DeploymentRuntime, ManifestSource, DeployHistory}
use nautes.Resource.Pipeline.{ProjectPipelineRuntime, EventSource, Hook, Hooks, HookMetadata}

abbrev pub meta_named : (name namespace : String) → ObjectMeta
meta_named name namespace = record {
  name = name;
  namespace = namespace;
  labels = [];
  deletion_timestamp = none;
}

abbrev pub shop : Product
shop = record {
  meta = meta_named "shop" "nautes";
  spec = record {
    name = "shop-group";
    meta_data_path = "git@gitlab.local:shop/default.project.git";
  };
}

abbrev pub cart : Project
cart = record {
  meta = meta_named "cart" "shop";
  spec = record { product = "shop"; language = "go" };
}

-- An environment of the product on the cluster.
abbrev pub env_on : (name cluster : String) → Environment
env_on name cluster = record {
  meta = meta_named name "shop";
  spec = record { product = "shop"; cluster = cluster; env_type = "dev" };
}

abbrev pub repo_of : (name project : String) → CodeRepo
repo_of name project = record {
  meta = meta_named name "shop";
  spec = record {
    code_repo_provider = "gitlab";
    product = "shop";
    project = project;
    repo_name = name;
    url = "";
    deployment_runtime = true;
    pipeline_runtime = true;
    webhook = none;
  };
}

abbrev pub product_repo : CodeRepo
product_repo = record (repo_of "default" "") {
  meta = record (meta_named "default" "nautes") { labels = (label_from_product, "shop") ∷ [] };
}

abbrev pub gitlab_provider : CodeRepoProvider
gitlab_provider = record {
  meta = meta_named "gitlab" "nautes";
  spec = record {
    http_address = "https://gitlab.local";
    ssh_address = "ssh://gitlab.local";
    api_server = "https://gitlab.local";
    provider_type = "gitlab";
  };
}

-- A binding of the repository for every project of the product.
abbrev pub binding_of : (repo : String) → CodeRepoBinding
binding_of repo = record {
  meta = meta_named "binding" "shop";
  spec = record { code_repo = repo; product = "shop"; projects = []; permissions = "readonly" };
}

abbrev pub component_in : (name namespace : String) → Component
component_in name namespace = record { name = name; namespace = namespace; additions = [] }

abbrev pub components : ComponentsList
components = record {
  cert_management = none;
  deployment = some (component_in "argocd" "argocd");
  event_listener = some (component_in "argo-events" "argo-events");
  gateway = none;
  multi_tenant = some (component_in "hnc" "hnc");
  pipeline = some (component_in "tekton" "tekton");
  progressive_delivery = none;
  secret_management = none;
  secret_sync = none;
  oauth_proxy = none;
}

abbrev pub worker_cluster : (name worker_type : String) → Cluster
worker_cluster name worker_type = record {
  meta = meta_named name "nautes";
  spec = record {
    api_server = "https://k8s.local:6443";
    cluster_type = cluster_type_physical;
    cluster_kind = "kubernetes";
    usage = cluster_usage_worker;
    host_cluster = "";
    primary_domain = "local";
    worker_type = worker_type;
    components_list = components;
    reserved_namespaces_allowed_products = [];
    product_allowed_cluster_resources = [];
  };
  status = record { entry_points = []; product_id_map = [] };
}

abbrev pub manifest_in : (repo : String) → ManifestSource
manifest_in repo = record { code_repo = repo; target_revision = "main"; path = "deploy" }

-- A deployment runtime of the product in the environment, with one namespace.
abbrev pub deployment_in : (name product environment namespace : String) → DeploymentRuntime
deployment_in name product environment namespace = record {
  meta = meta_named name product;
  spec = record {
    product = product;
    projects_ref = [];
    manifest_source = manifest_in name;
    destination = record { environment = environment; namespaces = namespace ∷ [] };
    account = "";
  };
  status = record { cluster = ""; deploy_history = none };
}

abbrev pub history_of : DeploymentRuntime → DeployHistory
history_of r = record {
  manifest_source = r.spec.manifest_source;
  destination = r.spec.destination;
  source = "ssh://gitlab.local/shop/deploy.git";
}

abbrev pub gitlab_event : (name repo : String) → EventSource
gitlab_event name repo = record {
  name = name;
  gitlab = some (record { repo_name = repo; revision = "main"; events = "push" ∷ [] });
  calendar = none;
}

abbrev pub scan_hook : Hook
scan_hook = record { name = "scan"; alias = none; vars = [] }

abbrev pub scan_rule : HookMetadata
scan_rule = record {
  name = "scan";
  is_pre_hook = true;
  is_post_hook = false;
  support_event_source_types = "gitlab" ∷ [];
}

abbrev pub scan_hooks : Hooks
scan_hooks = record { pre_hooks = scan_hook ∷ []; post_hooks = [] }

-- A pipeline runtime of the project in the environment: a push to the repository starts its
-- pipeline, after a scan.
abbrev pub pipeline_in : (name environment repo : String) → ProjectPipelineRuntime
pipeline_in name environment repo = record {
  meta = meta_named name "shop";
  spec = record {
    project = "cart";
    pipeline_source = repo;
    pipelines = record { name = "main"; label = ""; path = "pipelines" } ∷ [];
    destination = record { environment = environment; namespace = "" };
    event_sources = gitlab_event "push" repo ∷ [];
    isolation = "shared";
    pipeline_triggers =
        record { event_source = "push"; pipeline = "main"; revision = ""; inputs = [] } ∷ [];
    additional_resources = none;
    hooks = some scan_hooks;
    account = "";
  };
  status = record { cluster = "" };
}
