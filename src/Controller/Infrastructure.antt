-- ===== src/Controller/Infrastructure.antt =====
-- `reconcileInfrastructure` of internal/controller/ktmachine_controller.go.
pub mod Creates
use kt_cloud_operator.Common.{String, Bool, true, false, not, ◌&&◌, is_empty, if◌then◌else◌, ◌==◌}
use kt_cloud_operator.Common.{contains}
use kt_cloud_operator.Api.{KtMachine, KtMachineStatus, KtCluster}
use kt_cloud_operator.Httpapi.ControlPlaneVm.{create_vm}
use kt_cloud_operator.Httpapi.Bootstrap.{check_control_plane_machine_ready}
use kt_cloud_operator.Httpapi.WorkerVm.{join_control_plane}
use kt_cloud_operator.Httpapi.Servers.{get_created_vm}
use kt_cloud_operator.Httpapi.PublicIps.{attach_public_ip}
use kt_cloud_operator.Httpapi.FirewallSettings.{add_firewall_settings}
use kt_cloud_operator.Httpapi.Kubeconfigs.{fetch_and_create_kubeconfig_secret}
use kt_cloud_operator.Controller.Lookup.{
  control_plane_label, get_bootstrap_ready_machine_control_plane,
}
use kt_cloud_operator.Runtime.Calls.{Object, Call}
use kt_cloud_operator.Runtime.Env.{Env}
use kt_cloud_operator.Runtime.Effects.{M, pure, perform, ◌>>=◌, ◌>>◌}

-- The assignments to `Status.ControlPlaneRef` and `Status.WorkerRef.JoinedControlPlane`.
unfoldable pub set_bootstrap_ready : KtMachine → Bool → KtMachine
set_bootstrap_ready m ready = record m {
  status = record m.status {
    control_plane_ref = record m.status.control_plane_ref {
      type = "BootstrapReady";
      status = ready;
    };
  };
}

unfoldable pub set_joined : KtMachine → KtMachine
set_joined m = record m {
  status = record m.status { worker_ref = record { joined_control_plane = true } };
}

unfoldable pub waits_for_bootstrap : KtMachine → Bool
waits_for_bootstrap m =
    m.status.control_plane_ref.type == "BootstrapReady" && not m.status.control_plane_ref.status

module _ (env : Env) where
  -- `r.Status().Update(ctx, ktMachine)`, which decodes the stored machine into its argument.
  unfoldable pub update_status : KtMachine → M KtMachine
  update_status m =
      perform (Call.update_status (Object.machine m)) (λ h. env.update_machine_status h m)

  -- The cloud's status replaces the machine's whole one where the two states differ.
  unfoldable pub sync_status : KtMachine → KtMachineStatus → M KtMachine
  sync_status m server_response =
      if m.status.status == server_response.status
      then pure m
      else update_status (record m { status = server_response })

  unfoldable pub add_firewall_rules : KtMachine → KtCluster → String → M (Unit {0})
  add_firewall_rules m cluster token =
      if cluster.spec.managed_security_groups.control_plane_rules.direction == ""
      then pure tt
      else add_firewall_settings env m token
          cluster.spec.managed_security_groups.control_plane_rules
          cluster.spec.managed_security_groups.enable_outbound_internet_traffic

  -- The block that runs once: a public address, the firewall, and the first mark.
  unfoldable pub attach_network : KtMachine → KtCluster → String → M KtMachine
  attach_network m cluster token = do
    attached ← attach_public_ip env m token
    add_firewall_rules attached cluster token
    update_status (set_bootstrap_ready attached false)

  unfoldable pub ensure_network : KtMachine → KtCluster → String → M KtMachine
  ensure_network m cluster token =
      if cluster.spec.control_plane_external_network_enable && is_empty m.status.assigned_public_ips
      then attach_network m cluster token
      else pure m

  -- The block that waits for the control plane to answer, and marks it ready.
  unfoldable pub finish_bootstrap : KtMachine → KtCluster → M (Unit {0})
  finish_bootstrap m cluster = do
    check_control_plane_machine_ready env m
    fetch_and_create_kubeconfig_secret env m cluster
    update_status (set_bootstrap_ready m true)
    pure tt

  unfoldable pub ensure_bootstrap : KtMachine → KtCluster → M (Unit {0})
  ensure_bootstrap m cluster = if waits_for_bootstrap m then finish_bootstrap m cluster else pure tt

  unfoldable pub reconcile_active : KtMachine → KtCluster → String → M (Unit {0})
  reconcile_active m cluster token =
      if m.status.status == "ACTIVE"
      then (do n ← ensure_network m cluster token; ensure_bootstrap n cluster)
      else pure tt

  unfoldable pub reconcile_created : KtMachine → KtCluster → String → M (Unit {0})
  reconcile_created m cluster token = do
    server_response ← get_created_vm env m token
    n ← sync_status m server_response
    reconcile_active n cluster token

  unfoldable pub reconcile_control_plane : KtMachine → KtCluster → String → M (Unit {0})
  reconcile_control_plane m cluster token =
      if m.status.id == ""
      then (do create_vm env m token; pure tt)
      else reconcile_created m cluster token

  -- The end of the worker's branch. `JoinedControlPlane` is set on the object alone.
  unfoldable pub refresh_worker : KtMachine → String → M (Unit {0})
  refresh_worker m token = do
    server_response ← get_created_vm env m token
    sync_status (if m.status.worker_ref.joined_control_plane then m else set_joined m)
        server_response
    pure tt

  -- The join of a worker that the cloud has not created.
  unfoldable pub join_worker : KtMachine → String → M (Unit {0})
  join_worker m token = do
    planes ← get_bootstrap_ready_machine_control_plane env m
    if is_empty planes then pure tt else do
      join_control_plane env planes m token
      n ← update_status (set_joined m)
      refresh_worker n token

  unfoldable pub reconcile_worker : KtMachine → String → M (Unit {0})
  reconcile_worker m token =
      if m.status.status == "" && not m.status.worker_ref.joined_control_plane
      then join_worker m token
      else refresh_worker m token

  unfoldable pub reconcile_infrastructure : KtMachine → KtCluster → String → M (Unit {0})
  reconcile_infrastructure m cluster token =
      if contains m.meta.name control_plane_label
      then reconcile_control_plane m cluster token
      else reconcile_worker m token
