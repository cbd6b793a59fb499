-- ===== src/Httpapi/FirewallSettings/Objects.antt =====
-- What the firewall's object holds after a rule is made.
use kt_cloud_operator.Common.{String, ◌≡◌, refl, List, [], ◌∷◌, ◌++◌}
use kt_cloud_operator.Api.{KtMachine, AssignedPublicIps, KtNetworkFirewall, FirewallJobs}
use kt_cloud_operator.Httpapi.Servers.{key_of}
use kt_cloud_operator.Httpapi.FirewallSettings.{last_static_nat, get_firewall}
use kt_cloud_operator.Runtime.Calls.{Object, Kind, Call, History}
use kt_cloud_operator.Runtime.Env.{Env, value}

-- The rule is for the address that was assigned last.
pub last_static_nat-last :
    (found : String) (ips : List AssignedPublicIps) (ip : AssignedPublicIps)
    → last_static_nat found (ips ++ ip ∷ []) ≡ ip.static_nat_id
unfolding last_static_nat
last_static_nat-last found [] ip = refl
last_static_nat-last found (i ∷ ips) ip = last_static_nat-last i.static_nat_id ips ip

-- What a successful write of a firewall's job has done, with `base` the object that was read last.
pub record Recorded (env : Env) (m : KtMachine) (job : FirewallJobs) (h' : History) : Type 0 where
  pub before : History
  pub base : KtNetworkFirewall
  pub is_read : env.get_firewall before (key_of m) ≡ value base
  pub written : KtNetworkFirewall
  pub jobs : written.status.firewall_jobs ≡ base.status.firewall_jobs ++ job ∷ []
  pub last :
      h' ≡ Call.update_status (Object.firewall written) ∷ Call.get Kind.firewall (key_of m) ∷ before
