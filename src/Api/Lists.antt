-- ===== src/Api/Lists.antt =====
-- The List types of api/v1beta1, one in each of the files *_types.go, and the status records that
-- have no field.
use kt_cloud_operator.Common.{String, List, Option}
use kt_cloud_operator.Common.{ℤ}
use kt_cloud_operator.Api.Meta.{TypeMeta}
use kt_cloud_operator.Api.Machines.{KtMachine}
use kt_cloud_operator.Api.Templates.{KtMachineTemplate}
use kt_cloud_operator.Api.Deployments.{MachineDeployment}
use kt_cloud_operator.Api.Clusters.{KtCluster, Cluster}
use kt_cloud_operator.Api.Firewalls.{KtNetworkFirewall}
use kt_cloud_operator.Api.Tokens.{KtSubjectToken}
use kt_cloud_operator.Api.Scaffolds.{KtPublicNetwork, KubeadmConfigTemplate, KubeadmControlPlane}

-- `metav1.ListMeta`
pub record ListMeta : Type 0 where
  pub self_link : String
  pub resource_version : String
  pub continue : String
  pub remaining_item_count : Option ℤ

pub record ClusterList : Type 0 where
  pub type_meta : TypeMeta
  pub meta : ListMeta
  pub items : List Cluster

abbrev pub ClusterStatus : Type 0
ClusterStatus = Unit

pub record KtClusterList : Type 0 where
  pub type_meta : TypeMeta
  pub meta : ListMeta
  pub items : List KtCluster

abbrev pub KtClusterStatus : Type 0
KtClusterStatus = Unit

pub record KtMachineList : Type 0 where
  pub type_meta : TypeMeta
  pub meta : ListMeta
  pub items : List KtMachine

pub record KtMachineTemplateList : Type 0 where
  pub type_meta : TypeMeta
  pub meta : ListMeta
  pub items : List KtMachineTemplate

abbrev pub KtMachineTemplateStatus : Type 0
KtMachineTemplateStatus = Unit

pub record KtNetworkFirewallList : Type 0 where
  pub type_meta : TypeMeta
  pub meta : ListMeta
  pub items : List KtNetworkFirewall

pub record KtPublicNetworkList : Type 0 where
  pub type_meta : TypeMeta
  pub meta : ListMeta
  pub items : List KtPublicNetwork

abbrev pub KtPublicNetworkStatus : Type 0
KtPublicNetworkStatus = Unit

pub record KtSubjectTokenList : Type 0 where
  pub type_meta : TypeMeta
  pub meta : ListMeta
  pub items : List KtSubjectToken

pub record KubeadmConfigTemplateList : Type 0 where
  pub type_meta : TypeMeta
  pub meta : ListMeta
  pub items : List KubeadmConfigTemplate

abbrev pub KubeadmConfigTemplateStatus : Type 0
KubeadmConfigTemplateStatus = Unit

pub record KubeadmControlPlaneList : Type 0 where
  pub type_meta : TypeMeta
  pub meta : ListMeta
  pub items : List KubeadmControlPlane

abbrev pub KubeadmControlPlaneStatus : Type 0
KubeadmControlPlaneStatus = Unit

pub record MachineDeploymentList : Type 0 where
  pub type_meta : TypeMeta
  pub meta : ListMeta
  pub items : List MachineDeployment

abbrev pub MachineDeploymentStatus : Type 0
MachineDeploymentStatus = Unit
