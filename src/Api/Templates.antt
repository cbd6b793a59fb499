-- ===== src/Api/Templates.antt =====
-- api/v1beta1/ktmachinetemplate_types.go
use kt_cloud_operator.Common.{String, List, Option, ℤ}
use kt_cloud_operator.Api.Meta.{TypeMeta, ObjectMeta}

pub record BlockDeviceMapping : Type 0 where
  pub destination_type : String
  pub boot_index : ℤ
  pub source_type : String
  pub volume_size : ℤ
  pub id : String

pub record NetworkTier : Type 0 where
  pub id : String

pub record Network : Type 0 where
  pub name : String
  pub tags : String
  pub id : String

pub record Subnet : Type 0 where
  pub id : String

pub record FixedIp : Type 0 where
  pub subnet : Option Subnet

pub record Port : Type 0 where
  pub network : Option Network
  pub fixed_ips : List FixedIp

-- The type `Spec` of the source.
pub record TemplateSpec : Type 0 where
  pub flavor : String
  pub ssh_key_name : String
  pub block_device_mapping : List BlockDeviceMapping
  pub network_tier : List NetworkTier
  pub ports : List Port

pub record Template : Type 0 where
  pub spec : TemplateSpec

pub record KtMachineTemplateSpec : Type 0 where
  pub template : Template

pub record KtMachineTemplate : Type 0 where
  pub type_meta : TypeMeta
  pub meta : ObjectMeta
  pub spec : KtMachineTemplateSpec
