-- ===== src/Task/Examples.antt =====
-- A deployer whose account and spaces change, components that answer every call, and what its tasks
-- do.
use Prim.Native.String.{String}
use mathlib.Core.Path.{◌≡◌, refl, sym, subst}
use mathlib.Core.Logic.{◌↔◌, inl, inr}
use mathlib.Core.Bool.{Bool, true, false}
use mathlib.Core.Option.{none, some}
use mathlib.Core.List.{[], ◌∷◌}
use text.Mathlib.Text.{◌==◌}
use nautes.Common.Result.{ok, not_found, wrap}
use nautes.Common.Tests.{Bool-cases}
use nautes.Common.Lists.{All, Any, any, has}
use nautes.Common.Maps.{delete, lookup, lookup_or}
use nautes.Resource.Samples.{deployment_in, repo_of, gitlab_provider}
use nautes.Usage.Accounts.{account_of}
use nautes.Usage.Accounts.Examples.{reading, one_hash, one_account}
use nautes.Usage.Products.{ProductUsage, ClusterUsage, new_empty_product_usage, new_clusters_usage}
use nautes.Usage.Products.Examples.{shop_usage, one_product}
use nautes.Usage.Controller.{
  Stored, get_product_usage, put_product, mutate_data, update_product_usage,
}
use nautes.Usage.Controller.Examples.{reliable, reliable-IsStore, texts_of, texts_of-ReadsBack}
use nautes.Task.Listener.{RequestResource}
use nautes.Task.Component.{
  Space, space_type_kubernetes, MachineAccount, account_not_found, product_not_found,
  is_account_not_found, is_product_not_found,
}
use nautes.Task.Action.{
  Call, World, tenant_delete_space, call, gets, modify, modify_usage, modify_new_cache, pure, raise,
  wrapped, each, ◌>>=◌, ◌>>◌, secret_delete_account, tenant_delete_account,
}
use nautes.Task.Products.{delete_product_account, forgiving}
use nautes.Task.Deployer.{DeploymentRuntimeDeployer, spaces_of}
use nautes.Task.Deploy.{deploy, run_deploy, run_delete}
use nautes.Task.Deploy
use nautes.Task.Others.{others, others_of, IsSameForOthers}
use nautes.Task.Safe.{HasSpace, UsesSpace, IsSafe}
use nautes.Task.Outcome.{
  deployment_scope, IsAccounted, usage_at_start, first_run, deploy-IsSameForOthers,
  delete-IsSameForOthers, run_deploy-IsSafe, run_delete-IsSafe, get_product_usage-run_deploy,
}
use nautes.Task.Success.{IsDeployed, deploy-IsDeployed}
use nautes.Task.Errors.{
  wrapped_error, reasons_of_wrapped_errors, IsGone, delete_product_account_iff,
}

abbrev account_of_shop : (name : String) → MachineAccount
account_of_shop name = record { name = name; product = "shop"; spaces = [] }

abbrev pub space_in : (product_name name : String) → Space
space_in product_name name = record {
  meta = record { product = product_name; name = name };
  space_type = space_type_kubernetes;
  kubernetes = some name;
  server = none;
}

abbrev pub one_resource : RequestResource
one_resource = record {
  resource_type = "caFile";
  resource_name = "ca";
  ssh_key = none;
  access_token = none;
  ca_file = some "https://git";
}

-- Every call succeeds.
abbrev pub obliging : World
obliging = record {
  perform = λ calls c. ok tt;
  account =
      λ calls product_name name. ok (record { name = name; product = product_name; spaces = [] });
  space = λ calls product_name name. ok (space_in product_name name);
  auth_info = λ calls account. ok (record {
    origin_name = "store";
    account_name = account.name;
    auth_type = "token";
    service_accounts = [];
  });
  hooks = λ calls info. ok (record { request_vars = []; resource = "run" }, one_resource ∷ []);
  pipeline_dash_board_url = "https://pipelines";
}

-- The runtime was deployed to another space too, under an account that it shares.
abbrev moved : DeploymentRuntimeDeployer
moved = record {
  runtime = deployment_in "web" "shop" "dev" "web-ns";
  code_repo = repo_of "deploy" "cart";
  repo_provider = gitlab_provider;
  product_id = "shop";
  product_name = "shop-group";
  cache = record {
    cluster = "host";
    spaces = "web-ns" ∷ "old-ns" ∷ "mail-ns" ∷ [];
    account = some (account_of_shop "deployer");
    permissions = reading "repo-1" ∷ [];
  };
}

abbrev pub stored_usage : Stored
stored_usage = some (("host", "products") ∷ [])

deploy-IsSameForOthers_example :
    let after = (deploy obliging one_hash moved (first_run moved shop_usage)).1.usage in
    (has after.runtimes "web" ≡ true) × IsSameForOthers "web" after shop_usage
deploy-IsSameForOthers_example = deploy-IsSameForOthers obliging one_hash moved shop_usage

delete-IsSameForOthers_example :
    let after = (Deploy.delete obliging one_hash moved (first_run moved shop_usage)).1.usage in
    (has after.runtimes "web" ≡ false)
    × (lookup "web" after.space ≡ none)
    × IsSameForOthers "web" after shop_usage
delete-IsSameForOthers_example = delete-IsSameForOthers obliging one_hash moved shop_usage

accounted_by :
    (space account_name : String)
    → Any (UsesSpace space) (others_of "web" one_account account_name)
    → Any (HasSpace space) (("mail", "mail-ns" ∷ []) ∷ [])
unfolding account_of lookup delete has
accounted_by space account_name x = elim (Bool-cases ("deployer" == account_name)) [
  | inl same ↦ rw (same) at x
  | inr other ↦ absurd (rw (other) at x)
]

read_shop :
    wrap "get usage failed: %w"
      (get_product_usage reliable (texts_of one_product) "host" stored_usage "shop")
    ≡ ok (some shop_usage)
unfolding get_product_usage
read_shop = refl

shop_usage-IsAccounted : IsAccounted (others "web" shop_usage) moved.cache.spaces
unfolding delete
shop_usage-IsAccounted space account_name there used = accounted_by space account_name used

IsAccounted-of_stored :
    IsAccounted
      (others "web" (
        usage_at_start (
          wrap "get usage failed: %w"
            (get_product_usage reliable (texts_of one_product) "host" stored_usage "shop"))))
      moved.cache.spaces
IsAccounted-of_stored =
    subst (λ r. IsAccounted (others "web" (usage_at_start r)) moved.cache.spaces) (sym read_shop)
      shop_usage-IsAccounted

run_deploy-IsSafe_example :
    All
      (IsSafe "web" one_hash deployment_scope (spaces_of moved) (
        others "web" (
          usage_at_start (
            wrap "get usage failed: %w"
              (get_product_usage reliable (texts_of one_product) "host" stored_usage "shop")))))
      (run_deploy obliging one_hash moved reliable (texts_of one_product) "host" stored_usage).calls
run_deploy-IsSafe_example =
    run_deploy-IsSafe obliging one_hash moved reliable (texts_of one_product) "host" stored_usage
      IsAccounted-of_stored

run_delete-IsSafe_example :
    All
      (IsSafe "web" one_hash deployment_scope [] (
        others "web" (
          usage_at_start (
            wrap "get usage failed: %w"
              (get_product_usage reliable (texts_of one_product) "host" stored_usage "shop")))))
      (run_delete obliging one_hash moved reliable (texts_of one_product) "host" stored_usage).calls
run_delete-IsSafe_example =
    run_delete-IsSafe obliging one_hash moved reliable (texts_of one_product) "host" stored_usage
      IsAccounted-of_stored

-- What the deployment leaves in a cluster without products.
abbrev usage_left : ProductUsage
usage_left = (deploy obliging one_hash moved (first_run moved new_empty_product_usage)).1.usage

abbrev products_left : ClusterUsage
products_left = put_product "shop" usage_left (record { products = [] })

get_product_usage-run_deploy_example :
    (later : ProductUsage) × (get_product_usage reliable
        (texts_of products_left)
        "host"
        (run_deploy obliging one_hash moved reliable (texts_of products_left) "host" none).stored
        "shop"
      ≡ ok (some later))
    × (has later.runtimes "web" ≡ true)
    × IsSameForOthers "web" later new_empty_product_usage
unfolding get_product_usage put_product new_clusters_usage lookup_or update_product_usage
    mutate_data
get_product_usage-run_deploy_example =
    get_product_usage-run_deploy obliging one_hash moved reliable (texts_of products_left) "host"
      none (record { products = [] }) none stored_usage reliable-IsStore refl refl
      (texts_of-ReadsBack products_left) refl

deploy-IsDeployed_example :
    IsDeployed obliging one_hash moved
      (deploy obliging one_hash moved (first_run moved shop_usage)).1
unfolding deploy call gets modify modify_usage modify_new_cache pure raise wrapped each ◌>>=◌ ◌>>◌
deploy-IsDeployed_example =
    deploy-IsDeployed obliging one_hash moved (first_run moved shop_usage) refl

reasons_of_wrapped_errors_example :
    let format : String = "get account %s's info failed: %w" in
    (is_account_not_found (wrapped_error (format ∷ []) (account_not_found not_found)) ≡ true)
    × (is_account_not_found (wrapped_error (format ∷ []) (product_not_found not_found)) ≡ true)
    × (is_product_not_found (wrapped_error (format ∷ []) (product_not_found not_found)) ≡ false)
reasons_of_wrapped_errors_example =
    reasons_of_wrapped_errors ("get account %s's info failed: %w" ∷ []) not_found

delete_product_account_iff_example :
    ((delete_product_account obliging (account_of_shop "deployer") (first_run moved shop_usage)).0
      ≡ ok tt)
    ↔ ((("shop" == "") ≡ false)
        × IsGone (obliging.perform [] (secret_delete_account (account_of_shop "deployer")))
        × IsGone (
            obliging.perform
              (secret_delete_account (account_of_shop "deployer") ∷ [])
              (tenant_delete_account "shop" "deployer")))
delete_product_account_iff_example =
    delete_product_account_iff obliging (account_of_shop "deployer") (first_run moved shop_usage)

abbrev is_delete_old : Call → Bool
is_delete_old (tenant_delete_space product_name name) = name == "old-ns"
is_delete_old c = false

-- A pipeline runtime `ci` uses the old space through its account, which is all that the usage says of it.
abbrev shared_with_pipeline : ProductUsage
shared_with_pipeline = record shop_usage {
  runtimes = "web" ∷ "ci" ∷ [];
  account = record {
    accounts =
        (
          "builder",
          record { runtimes = ("ci", record { spaces = "old-ns" ∷ []; permissions = [] }) ∷ [] },
        )
        ∷ [];
  };
}

-- The deployment deletes that space all the same.
space_of_pipeline_deleted :
    any is_delete_old
      (deploy obliging one_hash moved (first_run moved shared_with_pipeline)).1.calls
    ≡ true
unfolding deploy any call gets modify modify_usage modify_new_cache pure raise wrapped each ◌>>=◌
    ◌>>◌ forgiving
space_of_pipeline_deleted = refl
