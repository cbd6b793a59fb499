-- ===== src/Httpapi/Plain.antt =====
-- The functions of cmd/httpapi that neither ask the cloud for a server nor write a machine.
use kt_cloud_operator.Common.{
  ℕ, zero, suc, String, ◌≡◌, refl, Bool, true, false, List, [], ◌∷◌, Option, none, some,
}
use kt_cloud_operator.Api.{KtMachine, KtCluster, SecurityGroupRule, FirewallRules}
use kt_cloud_operator.Httpapi.Types.{NcCreateFirewallRuleResponse, PublicIp}
use kt_cloud_operator.Httpapi.Send.{send}
use kt_cloud_operator.Httpapi.Send.Silent.{silent_rules}
use kt_cloud_operator.Httpapi.Bootstrap.{check_control_plane_machine_ready}
use kt_cloud_operator.Httpapi.Servers.{get_created_vm}
use kt_cloud_operator.Httpapi.PublicIps.{get_public_ips}
use kt_cloud_operator.Httpapi.Networks.{get_network_all_networks}
use kt_cloud_operator.Httpapi.FirewallSettings.{
  get_firewall, update_firewall_status, create_new_firewall, create_firewall_object, post_firewall,
  add_firewall_settings,
}
use kt_cloud_operator.Httpapi.Kubeconfigs.{
  Fetched, fetched_data, port_of, set_value, change_servers, change_kubeconfig_domain,
  fetch_kubeconfig, fetch_and_create_kubeconfig_secret,
}
use kt_cloud_operator.Runtime.Calls.{Error, Method, Body, Call, History, server, http}
use kt_cloud_operator.Httpapi.WorkerVm.{pick_control_plane}
use kt_cloud_operator.Runtime.Env.{Env}
use kt_cloud_operator.Runtime.Keeps.{
  Keeps, Allows, keeps_rules, Keeps-bind, Keeps-lift, Keeps-pure, Keeps-catch, Keeps-throw,
}
use kt_cloud_operator.Runtime.Calls.{
  Object, machine, get, list, rand, now, sleep, create, update, update_status, delete,
}

-- Is the call a POST of a server to be created?
abbrev pub is_server : Body → Bool
is_server (server _) = true
is_server _ = false

abbrev pub is_machine : Object → Bool
is_machine (machine _) = true
is_machine _ = false

-- Does the call ask for a server, or write a machine?
abbrev pub alters : Call → Bool
alters (http r) = is_server r.body
alters (create o) = is_machine o
alters (update o) = is_machine o
alters (update_status o) = is_machine o
alters (delete o) = is_machine o
alters _ = false

-- Does the call write a machine's object?
abbrev pub writes_machine : Call → Bool
writes_machine (create o) = is_machine o
writes_machine (update o) = is_machine o
writes_machine (update_status o) = is_machine o
writes_machine (delete o) = is_machine o
writes_machine _ = false

pub unwritten : (c : Call) → alters c ≡ false → writes_machine c ≡ false
unwritten (http r) e = refl
unwritten (get k n) e = refl
unwritten (list k n) e = refl
unwritten (create o) e = e
unwritten (update o) e = e
unwritten (update_status o) e = e
unwritten (delete o) e = e
unwritten (rand n) e = refl
unwritten now e = refl
unwritten (sleep n) e = refl

-- Over any invariant that all other calls keep.
module _ (P : History → Type 0) (safe : (c : Call) → alters c ≡ false → Allows P c)
    (env : Env) where
  pub Keeps-send :
      (method : Method) (url : String) (headers : List (String × String)) (body : Body)
      → is_server body ≡ false
      → Keeps P (send env method url headers body)
  unfolding send
  Keeps-send method url headers body e = search (keeps_rules, safe, e)

  pub ruleset base_rules = (silent_rules, refl, Keeps-send)

  pub Keeps-get_created_vm : (m : KtMachine) (token : String) → Keeps P (get_created_vm env m token)
  unfolding get_created_vm
  Keeps-get_created_vm m token = search base_rules

  pub Keeps-check_ready : (m : KtMachine) → Keeps P (check_control_plane_machine_ready env m)
  unfolding check_control_plane_machine_ready
  Keeps-check_ready m = search base_rules

  pub Keeps-get_public_ips :
      (p : PublicIp → Bool) (token : String) → Keeps P (get_public_ips env p token)
  unfolding get_public_ips
  Keeps-get_public_ips p token = search base_rules

  pub Keeps-get_network_all_networks :
      (token : String) → Keeps P (get_network_all_networks env token)
  unfolding get_network_all_networks
  Keeps-get_network_all_networks token = search base_rules

  pub Keeps-get_firewall : (m : KtMachine) → Keeps P (get_firewall env m)
  unfolding get_firewall
  Keeps-get_firewall m = search (base_rules, safe)

  pub Keeps-update_firewall_status : (f : _) → Keeps P (update_firewall_status env f)
  unfolding update_firewall_status
  Keeps-update_firewall_status f = search (base_rules, safe)

  pub ruleset firewall_rules = (base_rules, Keeps-get_firewall, Keeps-update_firewall_status)

  pub Keeps-create_new_firewall :
      (m : KtMachine) (r : FirewallRules) (j : _) → Keeps P (create_new_firewall env m r j)
  unfolding create_new_firewall
  Keeps-create_new_firewall m r j = search (firewall_rules, safe)

  pub Keeps-create_firewall_object :
      (m : KtMachine) (r : NcCreateFirewallRuleResponse) (g : FirewallRules)
      → Keeps P (create_firewall_object env m r g)
  unfolding create_firewall_object
  Keeps-create_firewall_object m r g = search (firewall_rules, Keeps-create_new_firewall)

  pub Keeps-post_firewall :
      (m : KtMachine) (token : String) (r : SecurityGroupRule) (external : String)
      → Keeps P (post_firewall env m token r external)
  unfolding post_firewall
  Keeps-post_firewall m token r external = search (base_rules, Keeps-create_firewall_object) depth 9

  pub Keeps-add_firewall_settings :
      (m : KtMachine) (token : String) (r : SecurityGroupRule) (b : Bool)
      → Keeps P (add_firewall_settings env m token r b)
  unfolding add_firewall_settings
  Keeps-add_firewall_settings m token r b =
      search (base_rules, Keeps-get_public_ips, Keeps-get_network_all_networks, Keeps-post_firewall)
        depth 9

  pub Keeps-fetched_data :
      (e : Error) (t : Option String) (f : Option Error) → Keeps P (fetched_data e t f)
  unfolding fetched_data
  Keeps-fetched_data e none f = search keeps_rules
  Keeps-fetched_data e (some t) none = search keeps_rules
  Keeps-fetched_data e (some t) (some f) = search keeps_rules

  pub Keeps-fetch_kubeconfig :
      (n : ℕ) (url : String) (f : Fetched) → Keeps P (fetch_kubeconfig env n url f)
  unfolding fetch_kubeconfig
  Keeps-fetch_kubeconfig zero url f = search keeps_rules
  Keeps-fetch_kubeconfig (suc n) url f = search (base_rules, Keeps-fetch_kubeconfig n url) depth 9

  pub Keeps-port_of : (host : String) → Keeps P (port_of host)
  unfolding port_of
  Keeps-port_of String.[] = search keeps_rules
  Keeps-port_of (String.◌∷◌ c host) = search (keeps_rules, Keeps-port_of host)

  pub Keeps-change_servers :
      (domain : String) (servers : List (String × String))
      → Keeps P (change_servers env domain servers)
  unfolding change_servers
  Keeps-change_servers domain [] = search keeps_rules
  Keeps-change_servers domain ((name, url) ∷ rest) =
      Keeps-bind _ _ (Keeps-catch _ _ _ (Keeps-lift _) (λ u. Keeps-pure _) (λ e. Keeps-throw _))
        (λ u.
          Keeps-bind _ _ (Keeps-port_of _)
            (λ port. Keeps-bind _ _ (Keeps-change_servers domain rest) (λ changed. Keeps-pure _)))

  Keeps-set_value :
      (text : String) (values : List (String × String)) → Keeps P (set_value text values)
  unfolding set_value
  Keeps-set_value text [] = search keeps_rules
  Keeps-set_value text (entry ∷ values) = search keeps_rules

  pub Keeps-change_kubeconfig_domain :
      (name namespace domain : String)
      → Keeps P (change_kubeconfig_domain env name namespace domain)
  unfolding change_kubeconfig_domain
  Keeps-change_kubeconfig_domain name namespace domain =
      search (base_rules, safe, Keeps-change_servers, Keeps-set_value) depth 10

  pub Keeps-fetch_and_create :
      (m : KtMachine) (c : KtCluster) → Keeps P (fetch_and_create_kubeconfig_secret env m c)
  unfolding fetch_and_create_kubeconfig_secret
  Keeps-fetch_and_create m c =
      search
        (
          base_rules, safe, Keeps-fetch_kubeconfig, Keeps-fetched_data,
          Keeps-change_kubeconfig_domain,
        )
        depth 9

  pub Keeps-pick_control_plane : (planes : List KtMachine) → Keeps P (pick_control_plane env planes)
  unfolding pick_control_plane
  Keeps-pick_control_plane [] = search keeps_rules
  Keeps-pick_control_plane (p ∷ ps) =
      Keeps-catch _ _ _ (Keeps-check_ready p) (λ _. Keeps-pure p) (λ _. Keeps-pick_control_plane ps)
