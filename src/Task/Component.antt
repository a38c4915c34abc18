-- ===== src/Task/Component.antt =====
-- The arguments of the component interfaces (app/runtime-operator/pkg/component) and the reasons of
-- their errors.
use Prim.Native.String.{String}
use mathlib.Core.Bool.{Bool, false}
use mathlib.Core.Option.{Option}
use mathlib.Core.List.{List}
use text.Mathlib.Text.{◌==◌}
use nautes.Common.Result.{Error, errorf, wrapf, component_error, not_found, nil_dereference}

pub record ResourceMetaData : Type 0 where
  pub product : String
  pub name : String

-- The permission asked for is nowhere set, so it is left out.
pub record PermissionRequest : Type 0 where
  pub resource : ResourceMetaData
  pub user : String
  pub request_scope : String

abbrev pub request_scope_product : String
request_scope_product = "Product"

abbrev pub request_scope_account : String
request_scope_account = "Account"

pub record MachineAccount : Type 0 where
  pub name : String
  pub product : String
  pub spaces : List String

-- A space, with its namespace in Kubernetes or its home directory on a server.
pub record Space : Type 0 where
  pub meta : ResourceMetaData
  pub space_type : String
  pub kubernetes : Option String
  pub server : Option String

abbrev pub space_type_kubernetes : String
space_type_kubernetes = "kubernetes"

pub record ApplicationGit : Type 0 where
  pub url : String
  pub revision : String
  pub path : String
  pub code_repo : String

pub record Application : Type 0 where
  pub meta : ResourceMetaData
  pub git : Option ApplicationGit
  pub destinations : List Space

abbrev pub error_reason_account_not_found : String
error_reason_account_not_found = "AccountNotFound"

abbrev pub error_reason_product_not_found : String
error_reason_product_not_found = "ProductNotFound"

unfoldable pub account_not_found : Error → Error
account_not_found e =
    component_error error_reason_account_not_found (wrapf "account %s not found: %w" e)

-- The reason is the one of an account.
unfoldable pub product_not_found : Error → Error
product_not_found e =
    component_error error_reason_account_not_found (wrapf "product %s not found: %w" e)

-- `errors.As`: the first error of a component in the chain that `%w` makes.
unfoldable pub reason_is : (reason : String) → Error → Bool
reason_is reason (errorf format args) = false
reason_is reason (wrapf format e) = reason_is reason e
reason_is reason (component_error r e) = r == reason
reason_is reason not_found = false
reason_is reason nil_dereference = false

unfoldable pub is_account_not_found : Error → Bool
unfolding reason_is
is_account_not_found e = reason_is error_reason_account_not_found e

unfoldable pub is_product_not_found : Error → Bool
unfolding reason_is
is_product_not_found e = reason_is error_reason_product_not_found e
