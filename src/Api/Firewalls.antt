-- ===== src/Api/Firewalls.antt =====
-- api/v1beta1/ktnetworkfirewall_types.go
use kt_cloud_operator.Common.{String, Bool, List}
use kt_cloud_operator.Api.Meta.{TypeMeta, ObjectMeta}

pub record FirewallRules : Type 0 where
  pub src_nat : Bool
  pub start_port : String
  pub end_port : String
  pub protocol : String
  pub action : String
  pub src_network : List String
  pub dst_network : List String
  pub static_nat_id : String
  pub src_address : List String
  pub dst_address : List String

pub record FirewallJobs : Type 0 where
  pub job_id : String
  pub vpc_id : String
  pub policy_id : String
  pub detail : String

pub record KtNetworkFirewallSpec : Type 0 where
  pub firewall_rules : List FirewallRules

pub record KtNetworkFirewallStatus : Type 0 where
  pub firewall_jobs : List FirewallJobs

pub record KtNetworkFirewall : Type 0 where
  pub type_meta : TypeMeta
  pub meta : ObjectMeta
  pub spec : KtNetworkFirewallSpec
  pub status : KtNetworkFirewallStatus
