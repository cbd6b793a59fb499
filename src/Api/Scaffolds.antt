-- ===== src/Api/Scaffolds.antt =====
-- api/v1beta1/ktpublicnetwork_types.go, kubeadmconfigtemplate_types.go and
-- kubeadmcontrolplane_types.go: resources with the generator's placeholder field alone.
use kt_cloud_operator.Common.{String}
use kt_cloud_operator.Api.Meta.{TypeMeta, ObjectMeta}

pub record KtPublicNetworkSpec : Type 0 where
  pub foo : String

pub record KtPublicNetwork : Type 0 where
  pub type_meta : TypeMeta
  pub meta : ObjectMeta
  pub spec : KtPublicNetworkSpec

pub record KubeadmConfigTemplateSpec : Type 0 where
  pub foo : String

pub record KubeadmConfigTemplate : Type 0 where
  pub type_meta : TypeMeta
  pub meta : ObjectMeta
  pub spec : KubeadmConfigTemplateSpec

pub record KubeadmControlPlaneSpec : Type 0 where
  pub foo : String

pub record KubeadmControlPlane : Type 0 where
  pub type_meta : TypeMeta
  pub meta : ObjectMeta
  pub spec : KubeadmControlPlaneSpec
