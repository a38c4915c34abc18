-- ===== src/Task/Pipeline/Examples.antt =====
-- A pipeline runtime whose account changes, and what its tasks do.
use Prim.Native.Nat.{ℕ}
use mathlib.Core.Path.{◌≡◌, refl}
use mathlib.Core.Bool.{Bool, true, false}
use mathlib.Core.Option.{Option, none, some}
use mathlib.Core.List.{List, [], ◌∷◌}
use nautes.Common.Result.{ok}
use nautes.Common.Lists.{All, any, has}
use nautes.Resource.CodeRepo.{CodeRepo}
use nautes.Resource.Pipeline.{ProjectPipelineRuntime}
use nautes.Resource.Samples.{pipeline_in, repo_of, gitlab_provider}
use nautes.Snapshot.State.{get_empty_runtime_data_source}
use nautes.Usage.Accounts.Examples.{reading, one_hash}
use nautes.Usage.Products.Examples.{shop_usage, one_product}
use nautes.Usage.Controller.{get_product_usage}
use nautes.Usage.Controller.Examples.{reliable, texts_of}
use nautes.Task.Listener.{RequestResource, HookSpace, AuthInfo}
use nautes.Task.Action.{
  Call, deployment_create_app, deployment_delete_app, modify_usage, modify_new_cache, modify, gets,
  call, each, wrapped, pure, lift, ask, raise, ◌>>◌, ◌>>=◌,
}
use nautes.Task.Products.{forgiving}
use nautes.Task.Others.{others, IsSameForOthers}
use nautes.Task.Safe.{IsSafe}
use nautes.Task.Outcome.{usage_at_start}
use nautes.Task.Examples.{obliging, space_in, one_resource, stored_usage}
use nautes.Task.Component.{Application}
use nautes.Task.Pipeline.Deployer.{
  PipelineRuntimeDeployer, namespace_of, get_id_from_code_repo, build_app, build_app_of,
  additional_git, additional_source, build_additional_app_name, space_of,
}
use nautes.Task.Pipeline.Created.{Called, delete-Called}
use nautes.Task.Pipeline.Deploy.{deploy, run_deploy, run_delete}
use nautes.Task.Pipeline.Deploy
use nautes.Task.Pipeline.HookSpace.{get_unused_resources}
use nautes.Task.Pipeline.HookSpace
use nautes.Task.Pipeline.Scopes.{pipeline_scope}
use nautes.Task.Pipeline.Outcome.{
  first_run, deploy_pipeline-IsSameForOthers, delete_pipeline-IsSameForOthers,
  run_deploy_pipeline-IsSafe, run_delete_pipeline-IsSafe,
}

abbrev hooked_repo : CodeRepo
hooked_repo = record (repo_of "repo-1" "cart") {
  spec = record (repo_of "repo-1" "cart").spec { webhook = some (record { events = "push" ∷ [] }) };
}

abbrev with_extras : ProjectPipelineRuntime
with_extras = record (pipeline_in "web" "ci" "repo-1") {
  spec = record (pipeline_in "web" "ci" "repo-1").spec {
    event_sources =
        record {
          name = "push";
          gitlab =
              some (record { repo_name = "repo-1"; revision = ""; events = "push_events" ∷ [] });
          calendar = none;
        }
        ∷ [];
    additional_resources = some (record {
      git = some (record { code_repo = "repo-1"; url = ""; revision = "main"; path = "extra" });
    });
  };
}

abbrev old_extra_app : Application
old_extra_app = record {
  meta = record { product = "shop"; name = "web-additional" };
  git = none;
  destinations = [];
}

-- It was deployed under an account that it shares, to another space.
abbrev building : PipelineRuntimeDeployer
building = record {
  runtime = with_extras;
  snapshot = record get_empty_runtime_data_source {
    code_repos = ("repo-1", hooked_repo) ∷ [];
    code_repo_providers = ("gitlab", gitlab_provider) ∷ [];
  };
  code_repo = hooked_repo;
  repo_provider = gitlab_provider;
  product_id = "shop";
  product_name = "shop-group";
  cache = record {
    cluster = "build";
    space = some (space_in "shop" "old-ci");
    code_repo = "repo-1";
    unique_id = "shop-web";
    account = some (record { name = "deployer"; product = "shop"; spaces = [] });
    app = some old_extra_app;
    permissions = reading "repo-1" ∷ [];
    hook_resources = some (one_resource ∷ []);
  };
}

abbrev store_auth : AuthInfo
store_auth = record {
  origin_name = "store";
  account_name = "builder";
  auth_type = "token";
  service_accounts = [];
}

-- A hash that all requests share.
abbrev one_request_hash : RequestResource → ℕ
one_request_hash request = 5

deploy_pipeline-IsSameForOthers_example :
    let after =
      (deploy obliging one_hash one_request_hash building
        (first_run obliging one_hash one_request_hash building shop_usage)).1.usage in
    (has after.runtimes "web" ≡ true) × IsSameForOthers "web" after shop_usage
deploy_pipeline-IsSameForOthers_example =
    deploy_pipeline-IsSameForOthers obliging one_hash one_request_hash building shop_usage

delete_pipeline-IsSameForOthers_example :
    let after =
      (Deploy.delete obliging one_hash one_request_hash building
        (first_run obliging one_hash one_request_hash building shop_usage)).1.usage in
    (has after.runtimes "web" ≡ false) × IsSameForOthers "web" after shop_usage
delete_pipeline-IsSameForOthers_example =
    delete_pipeline-IsSameForOthers obliging one_hash one_request_hash building shop_usage

run_deploy_pipeline-IsSafe_example :
    All
      (IsSafe "web" one_hash (pipeline_scope building) (namespace_of building ∷ []) (
        others "web" (
          usage_at_start
            (get_product_usage reliable (texts_of one_product) "host" stored_usage "shop"))))
      (run_deploy obliging one_hash one_request_hash building reliable
        (texts_of one_product)
        "host"
        stored_usage).calls
unfolding build_additional_app_name
run_deploy_pipeline-IsSafe_example =
    run_deploy_pipeline-IsSafe obliging one_hash one_request_hash building reliable
      (texts_of one_product) "host" stored_usage refl

run_delete_pipeline-IsSafe_example :
    All
      (IsSafe "web" one_hash (pipeline_scope building) [] (
        others "web" (
          usage_at_start
            (get_product_usage reliable (texts_of one_product) "host" stored_usage "shop"))))
      (run_delete obliging one_hash one_request_hash building reliable
        (texts_of one_product)
        "host"
        stored_usage).calls
unfolding build_additional_app_name
run_delete_pipeline-IsSafe_example =
    run_delete_pipeline-IsSafe obliging one_hash one_request_hash building reliable
      (texts_of one_product) "host" stored_usage refl

id_of_repo : get_id_from_code_repo "repo-1-b" ≡ "1-b"
unfolding get_id_from_code_repo
id_of_repo = refl

abbrev is_create_app : Call → Bool
is_create_app (deployment_create_app app) = true
is_create_app c = false

abbrev is_delete_app : Call → Bool
is_delete_app (deployment_delete_app app) = true
is_delete_app c = false

-- The deletion creates the application that the runtime asks for, and deletes none.
delete_creates_app :
    let calls =
      (Deploy.delete obliging one_hash one_request_hash building
        (first_run obliging one_hash one_request_hash building shop_usage)).1.calls in
    (any is_create_app calls ≡ true) × (any is_delete_app calls ≡ false)
unfolding Deploy.delete any modify_usage modify_new_cache modify gets call each wrapped pure lift
    ◌>>◌ ◌>>=◌ ask raise forgiving get_empty_runtime_data_source
delete_creates_app = (refl, refl)

abbrev extra_app : Application
extra_app = record {
  meta = record { product = "shop"; name = "web-additional" };
  git = some (record {
    url = hooked_repo.spec.url;
    revision = "main";
    path = "extra";
    code_repo = "repo-1";
  });
  destinations = space_of "shop" (namespace_of building) ∷ [];
}

extra_app_of_building : build_app building ≡ ok (some extra_app)
unfolding build_app build_app_of additional_git additional_source build_additional_app_name
    namespace_of get_empty_runtime_data_source
extra_app_of_building = refl

deletion_succeeds :
    (Deploy.delete obliging one_hash one_request_hash building
      (first_run obliging one_hash one_request_hash building shop_usage)).0
    ≡ ok tt
unfolding Deploy.delete any modify_usage modify_new_cache modify gets call each wrapped pure lift
    ◌>>◌ ◌>>=◌ ask raise forgiving get_empty_runtime_data_source
deletion_succeeds = refl

delete-Called_example :
    Called
      (deployment_create_app extra_app)
      (Deploy.delete obliging one_hash one_request_hash building
        (first_run obliging one_hash one_request_hash building shop_usage)).1
delete-Called_example =
    delete-Called obliging one_hash one_request_hash building extra_app
      (first_run obliging one_hash one_request_hash building shop_usage) extra_app_of_building
      deletion_succeeds
