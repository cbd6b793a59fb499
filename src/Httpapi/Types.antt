-- ===== src/Httpapi/Types.antt =====
-- The payloads that cmd/httpapi sends and the responses that it decodes.
-- cp_vm.go, common.go, common-types.go, network-types.go, login.go and internal/cloudapi/config.go.
use kt_cloud_operator.Common.{ℕ, String, Bool, List, Option, ℤ}
use kt_cloud_operator.Api.{KtMachineStatus}

-- internal/cloudapi/config.go
pub record Config : Type 0 where
  pub api_base_url : String
  pub zone : String
  pub identity_methods : String
  pub identity_password_user_domain_id : String
  pub identity_password_user_name : String
  pub identity_password : String
  pub scope_project_domain_id : String
  pub scope_project_name : String
  pub log_level : String
  pub client_auth_auto_renew : Bool
  -- in nanoseconds
  pub remote_backend_timeout : ℕ
  pub kubeconfig : String

-- cp_vm.go
pub record NetworkTier : Type 0 where
  pub uuid : String

pub record BlockDeviceMappingV2 : Type 0 where
  pub destination_type : String
  pub boot_index : ℤ
  pub source_type : String
  pub volume_size : ℤ
  pub uuid : String

pub record Server : Type 0 where
  pub name : String
  pub key_name : String
  pub flavor_ref : String
  pub availability_zone : String
  pub networks : List NetworkTier
  pub block_device_mapping_v2 : List BlockDeviceMappingV2
  pub user_data : String

pub record RequestPayload : Type 0 where
  pub server : Server

pub record ServerResponse : Type 0 where
  pub server : KtMachineStatus

-- common.go
pub record RequestPayloadDelete : Type 0 where
  pub force_delete : String

-- common-types.go
pub record StaticNat : Type 0 where
  pub id : String
  pub name : String
  pub vpc_id : String
  pub mapped_ip : String
  pub network_id : String
  pub public_ip_id : String
  pub public_ip : String

-- `PortForwardings`, a list of values of any type that nothing reads, is left out.
pub record PublicIp : Type 0 where
  pub account : String
  pub vpc_id : String
  pub zone_id : String
  pub id : String
  pub type : String
  pub cidr : String
  pub ip : String
  pub portal_zone_id : String
  pub serial_ip : String
  pub vlan_id : ℤ
  pub public_ip_pool_id : String
  pub is_allocate : Bool
  pub static_nats : List StaticNat

pub record NcListentPublicIpsResponse : Type 0 where
  pub http_status : ℤ
  pub public_ips : List PublicIp

pub record PostPayload : Type 0 where
  pub mapped_ip : String
  pub public_ip_id : String

pub record FirewallRuleRequest : Type 0 where
  pub src_nat : Bool
  pub start_port : String
  pub end_port : String
  pub protocol : String
  pub action : String
  pub src_network : List String
  pub dst_network : List String
  pub static_nat_id : String
  pub src_address : List String
  pub dst_address : List String

pub record MachinePrivateAddresses : Type 0 where
  pub network_name : String
  pub address : String

pub record StaticNatIdResponse : Type 0 where
  pub static_nat_id : String

pub record NatAttachResponse : Type 0 where
  pub http_status : ℤ
  pub nat : StaticNatIdResponse

pub record NcCreateFirewallRuleResponse : Type 0 where
  pub http_status : ℤ
  pub job_id : String
  pub detail : String
  pub vpc_id : String
  pub policy_id : String

pub record AsyncJobResultData : Type 0 where
  pub job_id : Option String
  pub detail : Option String
  pub vpc_id : Option String
  pub policy_id : Option String

pub record QueryAsyncJobResultResponse : Type 0 where
  pub http_status : ℤ
  pub job_id : String
  pub job : AsyncJobResultData
  pub job_status : String

-- network-types.go
pub record NetworkData : Type 0 where
  pub account : String
  pub id : String
  pub zone_id : String
  pub type : String
  pub vlan : String
  pub vpc_id : String
  pub project_id : String
  pub gateway : String
  pub cidr : String
  pub start_ip : String
  pub end_ip : String
  pub iscsi_start_ip : String
  pub iscsi_end_ip : String
  pub name : String
  pub netmask : String
  pub status : String
  pub main_network_id : String
  pub data_lake_yn : String
  pub os_network_id : String
  pub ssl_vpn : String

pub record ListNetworksResponse : Type 0 where
  pub http_status : ℤ
  pub networks : List NetworkData

-- login.go
pub record Domain : Type 0 where
  pub id : String

pub record User : Type 0 where
  pub domain : Domain
  pub name : String
  pub password : String

pub record Password : Type 0 where
  pub user : User

pub record Identity : Type 0 where
  pub methods : List String
  pub password : Password

pub record Project : Type 0 where
  pub domain : Domain
  pub name : String

pub record Scope : Type 0 where
  pub project : Project

pub record Auth : Type 0 where
  pub identity : Identity
  pub scope : Scope

pub record AuthRequest : Type 0 where
  pub auth : Auth

-- What `createTokenObject` reads of the parsed JSON: `none` where a key is missing or its value has
-- another type.
pub record LoginToken : Type 0 where
  pub expires_at : Option String
  pub is_domain : Option Bool
