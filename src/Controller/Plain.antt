-- ===== src/Controller/Plain.antt =====
-- The functions of internal/controller/ktmachine_controller.go that neither ask the cloud for a
-- server nor write a machine.
use kt_cloud_operator.Common.{String, ◌≡◌, false}
use kt_cloud_operator.Api.{KtMachine, KtCluster}
use kt_cloud_operator.Httpapi.Plain
use kt_cloud_operator.Httpapi.Plain.{alters}
use kt_cloud_operator.Controller.Lookup.{
  get_machine_associated_cluster, get_subject_token, get_bootstrap_ready_machine_control_plane,
}
use kt_cloud_operator.Controller.Infrastructure.{add_firewall_rules}
use kt_cloud_operator.Runtime.Calls.{Call, History}
use kt_cloud_operator.Runtime.Env.{Env}
use kt_cloud_operator.Runtime.Keeps.{Keeps, Allows, keeps_rules}

module _ (P : History → Type 0) (safe : (c : Call) → alters c ≡ false → Allows P c)
    (env : Env) where
  pub Keeps-add_firewall_rules :
      (m : KtMachine) (c : KtCluster) (token : String) → Keeps P (add_firewall_rules env m c token)
  unfolding add_firewall_rules
  Keeps-add_firewall_rules m c token =
      search (keeps_rules, Plain.Keeps-add_firewall_settings P safe env)

  pub Keeps-get_cluster : (m : KtMachine) → Keeps P (get_machine_associated_cluster env m)
  unfolding get_machine_associated_cluster
  Keeps-get_cluster m = search (keeps_rules, safe)

  pub Keeps-get_subject_token : (m : KtMachine) → Keeps P (get_subject_token env m)
  unfolding get_subject_token
  Keeps-get_subject_token m = search (keeps_rules, safe, Keeps-get_cluster)

  pub Keeps-get_planes : (m : KtMachine) → Keeps P (get_bootstrap_ready_machine_control_plane env m)
  unfolding get_bootstrap_ready_machine_control_plane
  Keeps-get_planes m = search (keeps_rules, safe)
