-- ===== src/Tests/World/Objects.antt =====
-- Objects and responses for the tests.
use kt_cloud_operator.Common.{String, true, false, [], ◌∷◌, none, pos}
use kt_cloud_operator.Api.{
  ObjectMeta, TypeMeta, KtMachine, KtCluster, Cluster, KtMachineTemplate, MachineDeployment,
  KtSubjectToken, KtNetworkFirewall, SecurityGroupRule, AssignedPublicIps, Address, zero_meta,
  zero_spec, zero_status, zero_machine,
}
use kt_cloud_operator.Httpapi.Types.{PublicIp, NetworkData}
use kt_cloud_operator.Controller.Infrastructure.{set_bootstrap_ready}
use kt_cloud_operator.Runtime.Calls.{Error, Response}

abbrev pub no_type : TypeMeta
no_type = record { api_version = ""; kind = "" }

abbrev pub named : String → ObjectMeta
named name = record zero_meta { name = name; namespace = "default" }

abbrev pub no_rule : SecurityGroupRule
no_rule = record {
  direction = "";
  start_port = "";
  end_port = "";
  protocol = "";
  action = "";
  dstip = "";
}

abbrev pub ingress : SecurityGroupRule
ingress = record no_rule { direction = "ingress"; start_port = "6443"; end_port = "6443" }

abbrev pub the_cluster : KtCluster
the_cluster = record {
  type_meta = no_type;
  meta = named "kt-cluster1";
  spec = record {
    api_server_load_balancer = record { enabled = false };
    control_plane_external_network_enable = true;
    identity_ref = record { cloud_name = ""; name = "" };
    managed_security_groups = record {
      enable_outbound_internet_traffic = false;
      control_plane_rules = ingress;
      worker_rules = no_rule;
    };
  };
}

abbrev pub the_owner : Cluster
the_owner = record { type_meta = no_type; meta = named "kt-cluster1"; spec = record { foo = "" } }

abbrev pub the_template : KtMachineTemplate
the_template = record {
  type_meta = no_type;
  meta = named "kt-cluster1-md-0";
  spec = record {
    template = record {
      spec = record {
        flavor = "4x8";
        ssh_key_name = "key";
        block_device_mapping = [];
        network_tier = record { id = "tier" } ∷ [];
        ports = [];
      };
    };
  };
}

abbrev pub the_deployment : MachineDeployment
the_deployment = record {
  type_meta = no_type;
  meta = named "kt-cluster1-md-0";
  spec = record {
    replicas = pos 2;
    type = "worker";
    selector = record { match_labels = [] };
    template = record {
      spec = record {
        bootstrap = record { config_ref = record { api_version = ""; kind = ""; name = "" } };
        cluster_name = "kt-cluster1";
        failure_domain = "DX-M1";
        infrastructure_ref = record { api_version = ""; kind = ""; name = "" };
        version = "v1.29";
      };
    };
  };
}

abbrev pub the_token : KtSubjectToken
the_token = record {
  type_meta = no_type;
  meta = named "kt-cluster1";
  spec = record {
    subject_token = "secret";
    token = record { expires_at = ""; is_domain = false };
    cluster_ref = record { api_version = ""; kind = ""; name = "" };
  };
  status = record {
    subject_token = "secret";
    token = record { expires_at = ""; is_domain = false };
    created_at = "";
  };
}

abbrev pub the_firewall : KtNetworkFirewall
the_firewall = record {
  type_meta = no_type;
  meta = named "kt-cluster1-control-plane-x";
  spec = record { firewall_rules = [] };
  status = record { firewall_jobs = [] };
}

abbrev pub new_machine_named : String → KtMachine
new_machine_named name = record zero_machine {
  meta = named name;
  spec = record zero_spec { cluster_name = "kt-cluster1" };
}

-- A machine that KT Cloud has created, in a state.
abbrev pub created_machine : String → String → KtMachine
created_machine name state = record (new_machine_named name) {
  status = record zero_status { id = "vm-1"; status = state };
}

abbrev pub public_ip : AssignedPublicIps
public_ip = record {
  ip = "211.0.0.1";
  id = "ip-1";
  static_nat_id = "nat-1";
  paired_pvt_network = record {
    network_name = "tier";
    network_id = "";
    network_os_id = "";
    vm_pvt_ip = "172.25.0.8";
  };
}

abbrev pub with_ip : KtMachine → KtMachine
with_ip m = record m { status = record m.status { assigned_public_ips = public_ip ∷ [] } }

abbrev pub success : Response
success = record {
  status_code = 200;
  status = "200 OK";
  headers = [];
  body = "{}";
  read_error = none;
}

abbrev pub refused : Response
refused = record {
  status_code = 403;
  status = "403 Forbidden";
  headers = [];
  body = "";
  read_error = none;
}

abbrev pub not_found : Error
not_found = record { text = "not found"; not_found = true }

-- A control plane that workers can join.
abbrev pub plane : KtMachine
plane = set_bootstrap_ready (with_ip (created_machine "kt-cluster1-control-plane-x" "ACTIVE")) true

abbrev pub worker : KtMachine
worker = new_machine_named "kt-cluster1-md-0-x"

abbrev pub gone : Response
gone = record success { status_code = 404; status = "404 Not Found"; body = "" }

abbrev pub free_ip : PublicIp
free_ip = record {
  account = "";
  vpc_id = "";
  zone_id = "";
  id = "ip-1";
  type = "ASSOCIATE";
  cidr = "";
  ip = "211.0.0.1";
  portal_zone_id = "";
  serial_ip = "";
  vlan_id = pos 0;
  public_ip_pool_id = "";
  is_allocate = true;
  static_nats = [];
}

abbrev pub private_address : Address
private_address = record { addr = "172.25.0.8"; mac_addr = ""; type = ""; version = pos 4 }

-- A control plane before its network settings.
abbrev pub bare_plane : KtMachine
bare_plane = record (new_machine_named "kt-cluster1-control-plane-x") {
  status = record zero_status {
    id = "vm-1";
    status = "ACTIVE";
    addresses = ("tier", private_address ∷ []) ∷ [];
  };
}

abbrev pub network_named : String → String → NetworkData
network_named name id = record {
  account = "";
  id = id;
  zone_id = "";
  type = "TIER";
  vlan = "";
  vpc_id = "";
  project_id = "";
  gateway = "";
  cidr = "";
  start_ip = "";
  end_ip = "";
  iscsi_start_ip = "";
  iscsi_end_ip = "";
  name = name;
  netmask = "";
  status = "";
  main_network_id = "";
  data_lake_yn = "";
  os_network_id = "";
  ssl_vpn = "";
}
