-- ===== src/Api/Clusters.antt =====
-- api/v1beta1/ktcluster_types.go and api/v1beta1/cluster_types.go
use kt_cloud_operator.Common.{String, Bool}
use kt_cloud_operator.Api.Meta.{TypeMeta, ObjectMeta}

pub record ApiServerLoadBalancer : Type 0 where
  pub enabled : Bool

pub record IdentityRef : Type 0 where
  pub cloud_name : String
  pub name : String

pub record SecurityGroupRule : Type 0 where
  pub direction : String
  pub start_port : String
  pub end_port : String
  pub protocol : String
  pub action : String
  pub dstip : String

pub record ManagedSecurityGroups : Type 0 where
  pub enable_outbound_internet_traffic : Bool
  pub control_plane_rules : SecurityGroupRule
  pub worker_rules : SecurityGroupRule

pub record KtClusterSpec : Type 0 where
  pub api_server_load_balancer : ApiServerLoadBalancer
  pub control_plane_external_network_enable : Bool
  pub identity_ref : IdentityRef
  pub managed_security_groups : ManagedSecurityGroups

pub record KtCluster : Type 0 where
  pub type_meta : TypeMeta
  pub meta : ObjectMeta
  pub spec : KtClusterSpec

pub record ClusterSpec : Type 0 where
  pub foo : String

pub record Cluster : Type 0 where
  pub type_meta : TypeMeta
  pub meta : ObjectMeta
  pub spec : ClusterSpec
