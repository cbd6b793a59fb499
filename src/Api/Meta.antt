-- ===== src/Api/Meta.antt =====
-- The part of Kubernetes' object metadata (`metav1`) that the operator's code reads or writes.
use kt_cloud_operator.Common.{String, Bool, List, Option}

pub record OwnerReference : Type 0 where
  pub api_version : String
  pub kind : String
  pub name : String
  pub uid : String
  pub controller : Option Bool
  pub block_owner_deletion : Option Bool

pub record TypeMeta : Type 0 where
  pub api_version : String
  pub kind : String

pub record ObjectMeta : Type 0 where
  pub name : String
  pub namespace : String
  pub uid : String
  pub resource_version : String
  pub labels : List (String × String)
  pub annotations : List (String × String)
  pub owner_references : List OwnerReference

pub record NamespacedName : Type 0 where
  pub name : String
  pub namespace : String
