-- ===== src/Tests/World.antt =====
-- Small worlds that answer every call.
mod Objects
pub mod Stores
pub mod Inventories
pub use Objects.*
use kt_cloud_operator.Common.{
  if◌then◌else◌, ◌==◌, String, true, false, List, [], ◌∷◌, none, some, pos,
}
use kt_cloud_operator.Api.{
  NamespacedName, ObjectMeta, TypeMeta, KtMachine, KtCluster, Cluster, KtMachineTemplate,
  MachineDeployment, KtSubjectToken, KtNetworkFirewall, SecurityGroupRule, AssignedPublicIps,
  Address, zero_meta, zero_spec, zero_status, zero_machine,
}
use kt_cloud_operator.Httpapi.Types.{PublicIp, NetworkData}
use kt_cloud_operator.Controller.Infrastructure.{set_bootstrap_ready}
use kt_cloud_operator.Runtime.Calls.{Error, Method, Response, History, Object, create, machine}
use kt_cloud_operator.Runtime.Env.{Env, value, failure}

abbrev pub child_of_deployment : String → ObjectMeta → ObjectMeta
child_of_deployment name meta = record meta {
  owner_references =
      record {
        api_version = "";
        kind = "MachineDeployment";
        name = name;
        uid = "";
        controller = some true;
        block_owner_deletion = some true;
      }
      ∷ meta.owner_references;
}

abbrev owned : Object → ObjectMeta → ObjectMeta
owned (Object.deployment d) meta = child_of_deployment d.meta.name meta
owned _ meta = meta

-- The machines created so far in the namespace: what the API server lists.
abbrev pub machines_of : String → History → List KtMachine
machines_of namespace [] = []
machines_of namespace (create (machine m) ∷ h) =
    let rest = machines_of namespace h in if m.meta.namespace == namespace then m ∷ rest else rest
machines_of namespace (_ ∷ h) = machines_of namespace h

abbrev under : NamespacedName → ObjectMeta → ObjectMeta
under key meta = record meta { name = key.name; namespace = key.namespace }

abbrev pub machine_at : NamespacedName → KtMachine
machine_at key = record (new_machine_named key.name) {
  meta = under key (new_machine_named key.name).meta;
}

abbrev pub deployment_at : NamespacedName → MachineDeployment
deployment_at key = record the_deployment { meta = under key the_deployment.meta }

abbrev pub world : Env
world = record {
  config = record {
    api_base_url = "https://api/";
    zone = "gd1";
    identity_methods = "password";
    identity_password_user_domain_id = "default";
    identity_password_user_name = "user";
    identity_password = "password";
    scope_project_domain_id = "default";
    scope_project_name = "user";
    log_level = "info";
    client_auth_auto_renew = true;
    remote_backend_timeout = 5000000000;
    kubeconfig = "";
  };
  new_request = λ _ _. none;
  do_request = λ _ _. value success;
  unmarshal_server =
      λ _. value (record { server = record zero_status { id = "vm-1"; status = "ACTIVE" } });
  unmarshal_public_ips = λ _. value (record { http_status = pos 200; public_ips = [] });
  unmarshal_nat =
      λ _. value (record { http_status = pos 200; nat = record { static_nat_id = "nat-1" } });
  unmarshal_networks = λ _. value (record { http_status = pos 200; networks = [] });
  unmarshal_firewall = λ _. value (record {
    http_status = pos 200;
    job_id = "job-1";
    detail = "";
    vpc_id = "vpc-1";
    policy_id = "policy-1";
  });
  unmarshal_job = λ _. value (record {
    http_status = pos 200;
    job_id = "job-1";
    job = record { job_id = none; detail = none; vpc_id = none; policy_id = none };
    job_status = "";
  });
  unmarshal_token =
      λ _. value (some (record { expires_at = some "2026-01-02"; is_domain = some true }));
  base64_encode = λ s. s;
  base64_decode = λ s. value s;
  unmarshal_kubeconfig = λ _. value (record { clusters = []; others = "" });
  marshal_kubeconfig = λ _. value "";
  parse_url = λ u. value (record { scheme = "https"; host = u; path = "" });
  url_string = λ u. u.host;
  build_config_from_flags = λ _ _. none;
  get_config = λ _. none;
  add_to_scheme = λ _. none;
  client_new = λ _. none;
  get_machine = λ _ key. value (machine_at key);
  get_template = λ _ _. value the_template;
  get_deployment = λ _ key. value (deployment_at key);
  get_kt_cluster = λ _ _. value the_cluster;
  get_cluster = λ _ _. value the_owner;
  get_token = λ _ _. value the_token;
  get_firewall = λ _ _. value the_firewall;
  get_secret = λ _ _. failure not_found;
  list_machines = λ h namespace. value (machines_of namespace h);
  create = λ _ _. none;
  update = λ _ _. none;
  update_machine_status = λ _ m. value m;
  update_status = λ _ _. none;
  delete = λ _ _. none;
  set_controller_reference = λ o meta. value (owned o meta);
  rand_int = λ _ _. value 0;
  now = λ _. "2026-01-01T00:00:00Z";
  range_addresses = λ _ a. a;
  range_clusters = λ _ c. c;
  to_lower = λ s. s;
  format_int = λ _. "500";
}

-- The cloud answers what is read and refuses what is posted.
abbrev post_refused : Method → Response
post_refused Method.post = refused
post_refused _ = success

abbrev pub refusing_world : Env
refusing_world = record world {
  do_request = λ _ r. value (post_refused r.method);
  list_machines = λ _ _. value (plane ∷ []);
}

-- The cloud answers every request with this response.
abbrev pub answering : Response → Env
answering r = record world { do_request = λ _ _. value r }

-- There is one public address, which is free.
abbrev pub one_free_ip : Env
one_free_ip = record world {
  unmarshal_public_ips = λ _. value (record { http_status = pos 200; public_ips = free_ip ∷ [] });
}
