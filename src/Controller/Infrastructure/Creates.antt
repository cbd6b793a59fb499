-- ===== src/Controller/Infrastructure/Creates.antt =====
-- When the reconciler of machines asks the cloud for a new server.
use kt_cloud_operator.Common.{
  String, ◌≡◌, Bool, false, not, ◌&&◌, if◌then◌else◌, ◌==◌, contains, Bool-cases, inl, inr,
}
use kt_cloud_operator.Api.{KtMachine, KtMachineStatus, KtCluster}
use kt_cloud_operator.Httpapi.Creates
use kt_cloud_operator.Httpapi.Plain as CloudPlain
use kt_cloud_operator.Controller.Plain
use kt_cloud_operator.Httpapi.Creates.{creates_server}
use kt_cloud_operator.Controller.Lookup.{control_plane_label}
use kt_cloud_operator.Controller.Infrastructure.{
  refresh_worker, sync_status, update_status, attach_network, ensure_network, finish_bootstrap,
  ensure_bootstrap, reconcile_active, reconcile_created, reconcile_control_plane, reconcile_worker,
  reconcile_infrastructure,
}
use kt_cloud_operator.Runtime.Calls.{Call, History}
use kt_cloud_operator.Runtime.Env.{Env}
use kt_cloud_operator.Runtime.Keeps.{Keeps, Allows, keeps_rules}

module _ (P : History → Type 0) (safe : (c : Call) → creates_server c ≡ false → Allows P c)
    (env : Env) where
  pub Keeps-update_status : (m : KtMachine) → Keeps P (update_status env m)
  unfolding update_status
  Keeps-update_status m = search (keeps_rules, safe)

  Keeps-sync_status : (m : KtMachine) (s : KtMachineStatus) → Keeps P (sync_status env m s)
  unfolding sync_status
  Keeps-sync_status m s = search (keeps_rules, Keeps-update_status)

  Keeps-ensure_network :
      (m : KtMachine) (c : KtCluster) (token : String) → Keeps P (ensure_network env m c token)
  unfolding ensure_network attach_network
  Keeps-ensure_network m c token =
      search
        (
          keeps_rules,
          Keeps-update_status,
          Plain.Keeps-add_firewall_rules P (Creates.plain P safe) env,
          Creates.Keeps-attach_public_ip P safe env,
        )
        depth 9

  Keeps-ensure_bootstrap : (m : KtMachine) (c : KtCluster) → Keeps P (ensure_bootstrap env m c)
  unfolding ensure_bootstrap finish_bootstrap
  Keeps-ensure_bootstrap m c =
      search
        (
          keeps_rules,
          Keeps-update_status,
          CloudPlain.Keeps-check_ready P (Creates.plain P safe) env,
          CloudPlain.Keeps-fetch_and_create P (Creates.plain P safe) env,
        )
        depth 9

  Keeps-reconcile_active :
      (m : KtMachine) (c : KtCluster) (token : String) → Keeps P (reconcile_active env m c token)
  unfolding reconcile_active
  Keeps-reconcile_active m c token =
      search (keeps_rules, Keeps-ensure_network, Keeps-ensure_bootstrap)

  pub Keeps-reconcile_created :
      (m : KtMachine) (c : KtCluster) (token : String) → Keeps P (reconcile_created env m c token)
  unfolding reconcile_created
  Keeps-reconcile_created m c token = search (
    keeps_rules,
    Keeps-sync_status,
    Keeps-reconcile_active,
    CloudPlain.Keeps-get_created_vm P (Creates.plain P safe) env,
  )

  pub Keeps-refresh_worker : (m : KtMachine) (token : String) → Keeps P (refresh_worker env m token)
  unfolding refresh_worker
  Keeps-refresh_worker m token =
      search (
        keeps_rules,
        Keeps-sync_status,
        CloudPlain.Keeps-get_created_vm P (Creates.plain P safe) env,
      )

-- Does the reconciler take the machine for one that the cloud has not created?
unfoldable pub needs_server : KtMachine → Bool
needs_server m =
    if contains m.meta.name control_plane_label
    then m.status.id == ""
    else m.status.status == "" && not m.status.worker_ref.joined_control_plane

module _ (P : History → Type 0) (safe : (c : Call) → creates_server c ≡ false → Allows P c)
    (env : Env) where
  worker_no_create :
      (m : KtMachine) (token : String)
      → (m.status.status == "" && not m.status.worker_ref.joined_control_plane) ≡ false
      → Keeps P (reconcile_worker env m token)
  unfolding reconcile_worker
  worker_no_create m token e = rw e (Keeps-refresh_worker P safe env m token)

  control_plane_no_create :
      (m : KtMachine) (c : KtCluster) (token : String)
      → (m.status.id == "") ≡ false
      → Keeps P (reconcile_control_plane env m c token)
  unfolding reconcile_control_plane
  control_plane_no_create m c token e = rw e (Keeps-reconcile_created P safe env m c token)

  pub no_create :
      (m : KtMachine) (c : KtCluster) (token : String)
      → needs_server m ≡ false
      → Keeps P (reconcile_infrastructure env m c token)
  unfolding reconcile_infrastructure needs_server
  no_create m c token e = elim (Bool-cases (contains m.meta.name control_plane_label)) [
    | inl yes_label ↦ rw yes_label (control_plane_no_create m c token (rw yes_label at e))
    | inr no_label ↦ rw no_label (worker_no_create m token (rw no_label at e))
  ]
