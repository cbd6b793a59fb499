-- ===== src/Httpapi/FirewallSettings/Opened.antt =====
-- What an `AddFirewallSettings` that returns no error has done.
use kt_cloud_operator.Common.{
  ◌||◌, All, [], ◌∷◌, ◌++◌, String, ◌==◌, ◌≡◌, true, false, List, is_2xx, is_2xx_ℤ,
}
use kt_cloud_operator.Api.{KtMachine, AssignedPublicIps, SecurityGroupRule}
use kt_cloud_operator.Httpapi.Types.{NetworkData, NcCreateFirewallRuleResponse}
use kt_cloud_operator.Httpapi.Send.{auth_headers, api_url}
use kt_cloud_operator.Httpapi.Networks.{external_network_id, get_network_all_networks}
use kt_cloud_operator.Httpapi.FirewallSettings.{last_static_nat, firewall_job}
use kt_cloud_operator.Httpapi.FirewallSettings.Objects.{Recorded}
use kt_cloud_operator.Runtime.Calls.{Method, Body, Request, Response, History}
use kt_cloud_operator.Runtime.Env.{Env, value}
use kt_cloud_operator.Runtime.Effects.{ok}

-- The POST of a rule for the address that was assigned last.
abbrev pub rule_request : Env → KtMachine → String → SecurityGroupRule → String → Request
rule_request env m token rules external = record {
  method = Method.post;
  url = api_url env "/nsm/v1/firewall/policy";
  headers = auth_headers token;
  body = Body.firewall (record {
    src_nat = false;
    start_port = rules.start_port;
    end_port = rules.end_port;
    protocol = rules.protocol;
    action = rules.action;
    src_network = external ∷ [];
    dst_network = [];
    static_nat_id = last_static_nat "" m.status.assigned_public_ips;
    src_address = [];
    dst_address = [];
  });
}

pub record Posted (env : Env) (m : KtMachine) (token : String) (rules : SecurityGroupRule)
    (external : String) (h h' : History) : Type 0 where
  pub response : Response
  pub answered : env.do_request h (rule_request env m token rules external) ≡ value response
  pub accepted : is_2xx response.status_code ≡ true
  pub answer : NcCreateFirewallRuleResponse
  pub parsed : env.unmarshal_firewall response.body ≡ value answer
  pub confirmed : is_2xx_ℤ answer.http_status ≡ true
  -- the rule's address is the one that was assigned last
  pub for_last :
      (front : List AssignedPublicIps) (ip : AssignedPublicIps)
      → m.status.assigned_public_ips ≡ front ++ ip ∷ []
      → last_static_nat "" m.status.assigned_public_ips ≡ ip.static_nat_id
  pub recorded : Recorded env m (firewall_job answer) h'

-- The first external network of a list.
pub record FirstExternal (networks : List NetworkData) : Type 0 where
  pub front : List NetworkData
  pub network : NetworkData
  pub back : List NetworkData
  pub split : networks ≡ front ++ network ∷ back
  pub others : All (λ n. (n.name == "external" || n.type == "UNTRUST") ≡ false) front
  pub external : (network.name == "external" || network.type == "UNTRUST") ≡ true
  pub named : external_network_id networks ≡ network.id

-- The networks that were read, and the rule that was posted for the first external one.
pub record Opened (env : Env) (m : KtMachine) (token : String) (rules : SecurityGroupRule)
    (h h' : History) : Type 0 where
  pub reading : History
  pub networks : List NetworkData
  pub before : History
  pub listed : get_network_all_networks env token reading ≡ ok networks before
  pub external : FirstExternal networks
  pub has_id : (external.network.id == "") ≡ false
  pub posted : Posted env m token rules external.network.id before h'
