-- ===== src/Httpapi/FirewallSettings.antt =====
-- The firewall of cmd/httpapi/network.go: `AddFirewallSettings` and `createFirewallObjectInK8s`.
pub mod Objects
pub mod Opened
use kt_cloud_operator.Common.{
  String, ◌<>◌, Bool, true, false, not, List, [], ◌∷◌, ◌++◌, some, if◌then◌else◌, ◌==◌, is_empty,
  is_2xx, is_2xx_ℤ,
}
use kt_cloud_operator.Api.{
  OwnerReference, KtMachine, AssignedPublicIps, SecurityGroupRule, KtNetworkFirewall, FirewallRules,
  FirewallJobs,
}
use kt_cloud_operator.Httpapi.Types.{FirewallRuleRequest, NcCreateFirewallRuleResponse}
use kt_cloud_operator.Httpapi.Send.{auth_headers, api_url, send, read_all, client_or_panic}
use kt_cloud_operator.Httpapi.Servers.{key_of}
use kt_cloud_operator.Httpapi.PublicIps.{get_assigned_public_ip_addresses}
use kt_cloud_operator.Httpapi.Networks.{external_network_id, get_network_all_networks}
use kt_cloud_operator.Runtime.Calls.{Method, Body, Object, Kind, Call, errors_new}
use kt_cloud_operator.Runtime.Env.{Env}
use kt_cloud_operator.Runtime.Effects.{M, throw, lift, perform, perform_check, catch, ◌>>=◌, ◌>>◌}

-- The loop over the assigned addresses keeps the last one's identifier.
unfoldable pub last_static_nat : String → List AssignedPublicIps → String
last_static_nat found [] = found
last_static_nat found (ip ∷ ips) = last_static_nat ip.static_nat_id ips

-- `firewallSettingsRequest`
unfoldable pub firewall_request : SecurityGroupRule → String → String → FirewallRuleRequest
firewall_request rules external static_nat_id = record {
  src_nat = false;
  start_port = rules.start_port;
  end_port = rules.end_port;
  protocol = rules.protocol;
  action = rules.action;
  src_network = external ∷ [];
  dst_network = [];
  static_nat_id = static_nat_id;
  src_address = [];
  dst_address = [];
}

-- `groupRules`
unfoldable pub group_rules : SecurityGroupRule → String → String → FirewallRules
group_rules rules external static_nat_id = record {
  src_nat = false;
  start_port = rules.start_port;
  end_port = rules.end_port;
  protocol = rules.protocol;
  action = rules.action;
  src_network = external ∷ [];
  dst_network = [];
  static_nat_id = static_nat_id;
  src_address = [];
  dst_address = [];
}

abbrev pub firewall_job : NcCreateFirewallRuleResponse → FirewallJobs
firewall_job r = record {
  job_id = r.job_id;
  vpc_id = r.vpc_id;
  policy_id = r.policy_id;
  detail = r.detail;
}

abbrev owner_of : KtMachine → OwnerReference
owner_of machine = record {
  api_version = machine.type_meta.api_version;
  kind = machine.type_meta.kind;
  name = machine.meta.name;
  uid = machine.meta.uid;
  controller = some true;
  block_owner_deletion = some true;
}

-- The object that is created where there is none.
unfoldable pub new_firewall : KtMachine → FirewallRules → FirewallJobs → KtNetworkFirewall
new_firewall machine rules job = record {
  type_meta = record { api_version = ""; kind = "" };
  meta = record {
    name = machine.meta.name;
    namespace = machine.meta.namespace;
    uid = "";
    resource_version = "";
    labels = [];
    annotations = [];
    owner_references = owner_of machine ∷ [];
  };
  spec = record { firewall_rules = rules ∷ [] };
  status = record { firewall_jobs = job ∷ [] };
}

unfoldable pub with_job : KtNetworkFirewall → FirewallJobs → KtNetworkFirewall
with_job firewall job = record firewall {
  status = record { firewall_jobs = firewall.status.firewall_jobs ++ job ∷ [] };
}

unfoldable pub with_rule : KtNetworkFirewall → FirewallRules → KtNetworkFirewall
with_rule firewall rule = record firewall {
  spec = record { firewall_rules = firewall.spec.firewall_rules ++ rule ∷ [] };
}

module _ (env : Env) where
  unfoldable pub get_firewall : KtMachine → M KtNetworkFirewall
  get_firewall machine =
      perform (Call.get Kind.firewall (key_of machine)) (λ h. env.get_firewall h (key_of machine))

  unfoldable pub update_firewall_status : KtNetworkFirewall → M (Unit {0})
  update_firewall_status firewall =
      perform_check (Call.update_status (Object.firewall firewall))
        (λ h. env.update_status h (Object.firewall firewall))

  -- The branch of `createFirewallObjectInK8s` on which the object does not exist.
  unfoldable pub create_new_firewall : KtMachine → FirewallRules → FirewallJobs → M (Unit {0})
  create_new_firewall machine rules job = do
    let firewall = new_firewall machine rules job
    perform_check (Call.create (Object.firewall firewall))
        (λ h. env.create h (Object.firewall firewall))
    existing ← get_firewall machine
    update_firewall_status (with_job existing job)

  unfoldable pub create_firewall_object :
      KtMachine → NcCreateFirewallRuleResponse → FirewallRules → M (Unit {0})
  create_firewall_object machine response rules = do
    client_or_panic env
    catch (get_firewall machine)
        (λ existing.
          update_firewall_status (with_job (with_rule existing rules) (firewall_job response)))
        (λ e.
          if e.not_found
          then create_new_firewall machine rules (firewall_job response)
          else throw e)

  -- The POST of `AddFirewallSettings` and what follows it.
  unfoldable pub post_firewall : KtMachine → String → SecurityGroupRule → String → M (Unit {0})
  post_firewall machine token rules external = do
    let nat = last_static_nat "" machine.status.assigned_public_ips
    response ←
        send env Method.post (api_url env "/nsm/v1/firewall/policy") (auth_headers token)
          (Body.firewall (firewall_request rules external nat))
    body ← read_all response
    if not (is_2xx response.status_code)
        then throw (errors_new ("post request failed with status:" <> response.status))
        else do
          server_response ← lift (env.unmarshal_firewall body)
          if not (is_2xx_ℤ server_response.http_status)
              then throw (
                  errors_new (
                    "failed to add firewall settings - http code: "
                    <> env.format_int server_response.http_status))
              else create_firewall_object machine server_response (group_rules rules external nat)

  -- The parameter `enableOutboundInternetTraffic` is not read.
  unfoldable pub add_firewall_settings :
      KtMachine → String → SecurityGroupRule → Bool → M (Unit {0})
  add_firewall_settings machine token rules enable_outbound_internet_traffic = do
    public_ips ← get_assigned_public_ip_addresses env token
    if is_empty public_ips
        then throw (
            errors_new "no ip addresses have been assigned to find public address for this machine")
        else do
          networks ← get_network_all_networks env token
          if is_empty networks
              then throw (errors_new "failed to get external network from cloud api call")
              else if external_network_id networks == ""
              then throw (errors_new "failed to find external network ID")
              else post_firewall machine token rules (external_network_id networks)
