-- ===== src/Controller/Lifecycle/Branches.antt =====
-- The control plane's branch of `reconcileInfrastructure` as triples on the stored machine and the one that
-- the code holds.
use kt_cloud_operator.Common.{&&-right, refl, String, ◌≡◌, true, false, ◌==◌, is_empty}
use kt_cloud_operator.Api.{NamespacedName, KtMachine, KtMachineStatus, KtCluster}
use kt_cloud_operator.Httpapi.ControlPlaneVm.{create_vm}
use kt_cloud_operator.Httpapi.Plain as CloudPlain
use kt_cloud_operator.Controller.Plain
use kt_cloud_operator.Httpapi.Plain.{alters}
use kt_cloud_operator.Controller.Infrastructure.{
  set_bootstrap_ready, waits_for_bootstrap, update_status, sync_status, attach_network,
  ensure_network, finish_bootstrap, ensure_bootstrap, reconcile_active, reconcile_created,
  reconcile_control_plane,
}
use kt_cloud_operator.Controller.Lifecycle.{Lifecycle, HasKubeconfig}
use kt_cloud_operator.Controller.Lifecycle.Rules.{Rules, AreGood, AreGood-plain, write, write_with}
use kt_cloud_operator.Controller.Lifecycle.Cloud.{
  AttachedTo, IsFresh, post_server-Triple, get_created_vm-Triple, attach_public_ip-Triple,
}
use kt_cloud_operator.Controller.Lifecycle.Secrets.{fetch_and_create-Triple}
use kt_cloud_operator.Runtime.Calls.{Call, History}
use kt_cloud_operator.Runtime.Env.{Env}
use kt_cloud_operator.Runtime.Keeps.{Allows}
use kt_cloud_operator.Runtime.Hoare.{
  Triple, Triple-pure, Triple-if, Triple-bind, Triple-after_Keeps, Triple-pre, Triple-post,
  Triple-fact, Triple-error,
}

module _ (env : Env) (key : NamespacedName) (Base : History → Type 0)
    (Good : History → KtMachine → Type 0) (Own : KtCluster → Type 0) (laws : Lifecycle env Good Own)
    (rules : Rules env key Base Good) where
  abbrev Both : KtMachine → KtMachine → History → Type 0
  Both = AreGood env key Base Good Own laws rules

  plain : (m : KtMachine) (c : Call) → alters c ≡ false → Allows (Both m m) c
  plain m = AreGood-plain env key Base Good Own laws rules m m

  -- The machine that is held from here on.
  abbrev Held : KtMachine → History → Type 0
  Held m = Both m m

  abbrev Fresh : KtMachine → KtMachineStatus → Type 0
  Fresh = IsFresh env key Base Good Own laws rules

  second : (m n : KtMachine) (h : History) → Both m n h → Held n h
  second m n h (p, q, r) = (p, r, r)

  update_status-Triple :
      (m n : KtMachine)
      → ((h : History) → Good h m → Good h n)
      → Triple (Held m) Held Base (update_status env n)
  unfolding update_status
  update_status-Triple m n good =
      Triple-post (λ k h q. second m k h q.0) (write env key Base Good Own laws rules m n good)

  pub sync_status-Triple :
      (m : KtMachine) (s : KtMachineStatus)
      → ((m.status.status == s.status) ≡ false
          → (h : History) → Good h m
          → Good h (record m { status = s }))
      → Triple (Held m) Held Base (sync_status env m s)
  unfolding sync_status
  sync_status-Triple m s good =
      Triple-if _ _ _ (λ _. Triple-pure m (λ h p. p))
        (λ other. update_status-Triple m _ (good other))

  mark-Triple :
      (m k : KtMachine)
      → is_empty m.status.assigned_public_ips ≡ true
      → AttachedTo m k
      → Triple
          (λ h. Held k h × Good h m)
          Held
          Base
          (update_status env (set_bootstrap_ready k false))
  unfolding update_status
  mark-Triple m k unattached attached =
      Triple-post (λ n h q. second k n h q.0)
        (write_with env key Base Good Own laws rules (λ h. Good h m) k _
          (λ h good. laws.marked h m k unattached good attached.mark attached.address))

  attach_network-Triple :
      (m : KtMachine) (c : KtCluster) (token : String)
      → is_empty m.status.assigned_public_ips ≡ true
      → Triple (Held m) Held Base (attach_network env m c token)
  unfolding attach_network
  attach_network-Triple m c token unattached =
      Triple-bind (attach_public_ip-Triple env key Base Good Own laws rules m token) (λ k.
        Triple-fact (λ attached.
          Triple-after_Keeps
            (Plain.Keeps-add_firewall_rules (Both m k)
              (AreGood-plain env key Base Good Own laws rules m k) env k c token)
            (λ h p. p.0)
            (λ _. Triple-pre (λ h p. (second m k h p, p.1)) (mark-Triple m k unattached attached))))

  ensure_network-Triple :
      (m : KtMachine) (c : KtCluster) (token : String)
      → Triple (Held m) Held Base (ensure_network env m c token)
  unfolding ensure_network
  ensure_network-Triple m c token =
      Triple-if _ _ _ (λ test. attach_network-Triple m c token (&&-right _ _ test))
        (λ _. Triple-pure m (λ h p. p))

  abbrev Done : Unit {0} → History → Type 0
  Done _ = Base

  mark_ready-Triple :
      (m : KtMachine) (c : KtCluster)
      → Own c
      → waits_for_bootstrap m ≡ true
      → Triple
          (λ h. Held m h × HasKubeconfig env c h)
          Held
          Base
          (update_status env (set_bootstrap_ready m true))
  unfolding update_status
  mark_ready-Triple m c own waits =
      Triple-post (λ k h q. second m k h q.0)
        (write_with env key Base Good Own laws rules (HasKubeconfig env c) m _
          (λ h made. laws.finished h m c waits own made))

  ensure_bootstrap-Triple :
      (m : KtMachine) (c : KtCluster) → Own c → Triple (Held m) Done Base (ensure_bootstrap env m c)
  unfolding ensure_bootstrap finish_bootstrap
  ensure_bootstrap-Triple m c own =
      Triple-if _ _ _
        (λ waits.
          Triple-after_Keeps (CloudPlain.Keeps-check_ready (Held m) (plain m) env m) (λ h p. p.0)
            (λ _.
              Triple-bind
                (Triple-error (λ h p. p.0) (fetch_and_create-Triple env c (Held m) (plain m) m))
                (λ _.
                  Triple-bind (mark_ready-Triple m c own waits)
                    (λ _. Triple-pure tt (λ h p. p.0)))))
        (λ _. Triple-pure tt (λ h p. p.0))

  reconcile_active-Triple :
      (m : KtMachine) (c : KtCluster) (token : String)
      → Own c
      → Triple (Held m) Done Base (reconcile_active env m c token)
  unfolding reconcile_active
  reconcile_active-Triple m c token own =
      Triple-if _ _ _
        (λ _. Triple-bind (ensure_network-Triple m c token) (λ n. ensure_bootstrap-Triple n c own))
        (λ _. Triple-pure tt (λ h p. p.0))

  pub reconcile_control_plane-Triple :
      (m : KtMachine) (c : KtCluster) (token : String)
      → Own c
      → Triple (Held m) Done Base (reconcile_control_plane env m c token)
  unfolding reconcile_control_plane reconcile_created create_vm
  reconcile_control_plane-Triple m c token own =
      Triple-if (m.status.id == "") _ _
        (λ _.
          Triple-bind (post_server-Triple env key Base Good Own laws rules m token _)
            (λ _. Triple-pure tt (λ h p. p.0)))
        (λ _. Triple-bind (get_created_vm-Triple env key Base Good Own laws rules m token) (λ s.
          Triple-fact (λ good.
            Triple-bind (sync_status-Triple m s (λ other h. good m h refl other))
              (λ n. reconcile_active-Triple n c token own))))
