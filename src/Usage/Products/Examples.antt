-- ===== src/Usage/Products/Examples.antt =====
-- Concrete usages of clusters.
use mathlib.Core.List.{[], ◌∷◌}
use nautes.Resource.Deployment.{DeploymentRuntime}
use nautes.Resource.Samples.{deployment_in}
use nautes.Usage.Accounts.Examples.{one_account}
use nautes.Usage.Products.{ProductUsage, ClusterUsage}

abbrev web_runtime : DeploymentRuntime
web_runtime = deployment_in "web" "shop" "dev" "web-ns"

abbrev pub shop_usage : ProductUsage
shop_usage = record {
  runtimes = "web" ∷ "mail" ∷ [];
  space = ("web", "web-ns" ∷ []) ∷ ("mail", "mail-ns" ∷ []) ∷ [];
  account = one_account;
}

abbrev pub one_product : ClusterUsage
one_product = record { products = ("shop", shop_usage) ∷ [] }
