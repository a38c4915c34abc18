-- ===== src/Resource/Meta.antt =====
-- `metav1.ObjectMeta` as far as the modelled code reads it, and the small resources: products,
-- projects, environments (api/kubernetes/v1alpha1).
use Prim.Native.Nat.{ℕ}
use Prim.Native.String.{String}
use mathlib.Core.Bool.{Bool}
use mathlib.Core.Option.{Option}
use nautes.Common.Tests.{is_some}
use nautes.Common.Maps.{Map}

-- The deletion timestamp is in seconds; `none` is the zero time.
pub record ObjectMeta : Type 0 where
  pub name : String
  pub namespace : String
  pub labels : Map String
  pub deletion_timestamp : Option ℕ

-- `!meta.DeletionTimestamp.IsZero()`
abbrev pub is_terminating : ObjectMeta → Bool
is_terminating meta = is_some meta.deletion_timestamp

abbrev pub label_from_product : String
label_from_product = "resource.nautes.io/reference"

abbrev pub label_belong_to_product : String
label_belong_to_product = "resource.nautes.io/belongsto"

pub record ProductSpec : Type 0 where
  pub name : String
  pub meta_data_path : String

pub record Product : Type 0 where
  pub meta : ObjectMeta
  pub spec : ProductSpec

pub record ProjectSpec : Type 0 where
  pub product : String
  pub language : String

pub record Project : Type 0 where
  pub meta : ObjectMeta
  pub spec : ProjectSpec

pub record EnvironmentSpec : Type 0 where
  pub product : String
  pub cluster : String
  pub env_type : String

pub record Environment : Type 0 where
  pub meta : ObjectMeta
  pub spec : EnvironmentSpec
