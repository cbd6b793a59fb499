-- ===== src/Api/Machines.antt =====
-- api/v1beta1/ktmachine_types.go
use kt_cloud_operator.Common.{String, Bool, false, List, [], Option, none, ℤ, pos}
use kt_cloud_operator.Api.Meta.{TypeMeta, ObjectMeta}
use kt_cloud_operator.Api.Templates.{BlockDeviceMapping, NetworkTier, Port}

pub record Networks : Type 0 where
  pub id : String

pub record KtMachineSpec : Type 0 where
  pub cluster_name : String
  pub flavor : String
  pub ssh_key_name : String
  pub block_device_mapping : List BlockDeviceMapping
  pub network_tier : List NetworkTier
  pub networks : List Networks
  pub ports : List Port
  pub availability_zone : String
  pub user_data : String
  pub control_plane_number : ℤ

pub record PairedPvtNetwork : Type 0 where
  pub network_name : String
  pub network_id : String
  pub network_os_id : String
  pub vm_pvt_ip : String

pub record AssignedPublicIps : Type 0 where
  pub ip : String
  pub id : String
  pub static_nat_id : String
  pub paired_pvt_network : PairedPvtNetwork

pub record WorkerRef : Type 0 where
  pub joined_control_plane : Bool

pub record ControlPlaneRef : Type 0 where
  pub type : String
  pub last_transaction_time : String
  pub status : Bool

pub record Links : Type 0 where
  pub rel : String
  pub href : String

pub record SecurityGroups : Type 0 where
  pub name : String

pub record Address : Type 0 where
  pub mac_addr : String
  pub type : String
  pub addr : String
  pub version : ℤ

pub record VolumeAttached : Type 0 where
  pub delete_on_termination : Bool
  pub id : String

pub record Flavor : Type 0 where
  pub disk : ℤ
  pub swap : ℤ
  pub original : String
  pub extra_specs : List (String × String)
  pub ephemeral : ℤ
  pub vcpus : ℤ
  pub ram : ℤ

-- A Go map as the list of its entries.
abbrev pub Addresses : Type 0
Addresses = List (String × List Address)

pub record KtMachineStatus : Type 0 where
  pub id : String
  pub admin_pass : String
  pub links : List Links
  pub security_groups : List SecurityGroups
  pub assigned_public_ips : List AssignedPublicIps
  pub tenant_id : String
  pub addresses : Addresses
  pub task_state : Option String
  pub description : Option String
  pub disk_config : String
  pub trusted_image_certs : Option String
  pub availability_zone : String
  pub power_state : ℤ
  pub volumes_attached : List VolumeAttached
  pub locked : Bool
  pub image : String
  pub access_ipv4 : String
  pub access_ipv6 : String
  pub created : String
  pub host_id : String
  pub tags : List String
  pub flavor : Flavor
  pub key_name : String
  pub vm_state : String
  pub user_id : String
  pub name : String
  pub progress : ℤ
  pub launched_at : String
  pub updated : String
  pub status : String
  pub terminated_at : Option String
  pub config_drive : String
  pub control_plane_ref : ControlPlaneRef
  pub worker_ref : WorkerRef

pub record KtMachine : Type 0 where
  pub type_meta : TypeMeta
  pub meta : ObjectMeta
  pub spec : KtMachineSpec
  pub status : KtMachineStatus

-- Go's zero values.
abbrev pub zero_meta : ObjectMeta
zero_meta = record {
  name = "";
  namespace = "";
  uid = "";
  resource_version = "";
  labels = [];
  annotations = [];
  owner_references = [];
}

abbrev pub zero_spec : KtMachineSpec
zero_spec = record {
  cluster_name = "";
  flavor = "";
  ssh_key_name = "";
  block_device_mapping = [];
  network_tier = [];
  networks = [];
  ports = [];
  availability_zone = "";
  user_data = "";
  control_plane_number = pos 0;
}

abbrev pub zero_status : KtMachineStatus
zero_status = record {
  id = "";
  admin_pass = "";
  links = [];
  security_groups = [];
  assigned_public_ips = [];
  tenant_id = "";
  addresses = [];
  task_state = none;
  description = none;
  disk_config = "";
  trusted_image_certs = none;
  availability_zone = "";
  power_state = pos 0;
  volumes_attached = [];
  locked = false;
  image = "";
  access_ipv4 = "";
  access_ipv6 = "";
  created = "";
  host_id = "";
  tags = [];
  flavor = record {
    disk = pos 0;
    swap = pos 0;
    original = "";
    extra_specs = [];
    ephemeral = pos 0;
    vcpus = pos 0;
    ram = pos 0;
  };
  key_name = "";
  vm_state = "";
  user_id = "";
  name = "";
  progress = pos 0;
  launched_at = "";
  updated = "";
  status = "";
  terminated_at = none;
  config_drive = "";
  control_plane_ref = record { type = ""; last_transaction_time = ""; status = false };
  worker_ref = record { joined_control_plane = false };
}

abbrev pub zero_machine : KtMachine
zero_machine = record {
  type_meta = record { api_version = ""; kind = "" };
  meta = zero_meta;
  spec = zero_spec;
  status = zero_status;
}
