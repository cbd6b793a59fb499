-- ===== src/Api/Deployments.antt =====
-- api/v1beta1/machinedeployment_types.go
use kt_cloud_operator.Common.{String, List, ℤ}
use kt_cloud_operator.Api.Meta.{TypeMeta, ObjectMeta}

pub record Selector : Type 0 where
  pub match_labels : List (String × String)

pub record ConfigRef : Type 0 where
  pub api_version : String
  pub kind : String
  pub name : String

pub record InfrastructureRef : Type 0 where
  pub api_version : String
  pub kind : String
  pub name : String

pub record Bootstrap : Type 0 where
  pub config_ref : ConfigRef

pub record MachineSpecDetails : Type 0 where
  pub bootstrap : Bootstrap
  pub cluster_name : String
  pub failure_domain : String
  pub infrastructure_ref : InfrastructureRef
  pub version : String

pub record MachineSpec : Type 0 where
  pub spec : MachineSpecDetails

pub record MachineDeploymentSpec : Type 0 where
  pub replicas : ℤ
  pub type : String
  pub selector : Selector
  pub template : MachineSpec

pub record MachineDeployment : Type 0 where
  pub type_meta : TypeMeta
  pub meta : ObjectMeta
  pub spec : MachineDeploymentSpec
