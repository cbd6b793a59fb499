-- ===== src/Controller/Lifecycle/Workers.antt =====
-- The worker's branch of `reconcileInfrastructure`, and the whole of it, as triples on the stored
-- machine and the one that the code holds.
use kt_cloud_operator.Common.{
  String, ◌≡◌, refl, Bool, true, false, contains, is_empty, List, if◌then◌else◌,
}
use kt_cloud_operator.Api.{NamespacedName, KtMachine, KtMachineStatus, KtCluster}
use kt_cloud_operator.Httpapi.WorkerVm.{create_worker_vm, join_control_plane}
use kt_cloud_operator.Httpapi.WorkerVm.Joined.{HasJoined, join_control_plane-HasJoined}
use kt_cloud_operator.Httpapi.Plain as CloudPlain
use kt_cloud_operator.Httpapi.Plain.{alters}
use kt_cloud_operator.Controller.Plain
use kt_cloud_operator.Controller.Lookup.{control_plane_label}
use kt_cloud_operator.Controller.Infrastructure.{
  set_joined, update_status, sync_status, refresh_worker, join_worker, reconcile_worker,
  reconcile_infrastructure,
}
use kt_cloud_operator.Controller.Lifecycle.{Lifecycle}
use kt_cloud_operator.Controller.Lifecycle.Rules.{Rules, AreGood, AreGood-plain, write}
use kt_cloud_operator.Controller.Lifecycle.Joins.{Joins}
use kt_cloud_operator.Controller.Lifecycle.Cloud.{
  IsFresh, post_server-Triple, get_created_vm-Triple,
}
use kt_cloud_operator.Controller.Lifecycle.Branches.{
  sync_status-Triple, reconcile_control_plane-Triple,
}
use kt_cloud_operator.Runtime.Calls.{Call, History}
use kt_cloud_operator.Runtime.Env.{Env}
use kt_cloud_operator.Runtime.Keeps.{Allows, Keeps-first}
use kt_cloud_operator.Runtime.Hoare.{
  Triple, Triple-pure, Triple-throw, Triple-if, Triple-bind, Triple-after_Keeps, Triple-pre,
  Triple-post, Triple-fact, Triple-run,
}

module _ (env : Env) (key : NamespacedName) (Base : History → Type 0)
    (Good : History → KtMachine → Type 0) (Own : KtCluster → Type 0) (laws : Lifecycle env Good Own)
    (rules : Rules env key Base Good) where
  abbrev Both : KtMachine → KtMachine → History → Type 0
  Both = AreGood env key Base Good Own laws rules

  plain : (m : KtMachine) (c : Call) → alters c ≡ false → Allows (Both m m) c
  plain m = AreGood-plain env key Base Good Own laws rules m m

  -- The machine that is held from here on.
  abbrev Held : KtMachine → History → Type 0
  Held m = Both m m

  abbrev Fresh : KtMachine → KtMachineStatus → Type 0
  Fresh = IsFresh env key Base Good Own laws rules

  abbrev Done : Unit {0} → History → Type 0
  Done _ = Base

  -- The mark is set on the object that the code holds, and the cloud's status replaces it.
  joined-Triple :
      (m : KtMachine) (s : KtMachineStatus)
      → Fresh m s
      → Triple (Held m) (λ (_ : KtMachine). Base) Base (sync_status env (set_joined m) s)
  unfolding sync_status set_joined update_status
  joined-Triple m s good =
      Triple-if _ _ _ (λ _. Triple-pure _ (λ h p. p.0))
        (λ other.
          Triple-post (λ k h q. q.0.0)
            (write env key Base Good Own laws rules m (record m { status = s })
              (λ h. good m h refl other)))

  marked_joined-Triple :
      (m : KtMachine) (s : KtMachineStatus)
      → Fresh m s
      → (b : Bool)
      → Triple
          (Held m)
          (λ (_ : KtMachine). Base)
          Base
          (sync_status env (if b then m else set_joined m) s)
  marked_joined-Triple m s good true =
      Triple-post (λ k h q. q.0)
        (sync_status-Triple env key Base Good Own laws rules m s (λ other h. good m h refl other))
  marked_joined-Triple m s good false = joined-Triple m s good

  refresh_worker-Triple :
      (m : KtMachine) (token : String) → Triple (Held m) Done Base (refresh_worker env m token)
  unfolding refresh_worker
  refresh_worker-Triple m token =
      Triple-bind (get_created_vm-Triple env key Base Good Own laws rules m token) (λ s.
        Triple-fact (λ good.
          Triple-bind (marked_joined-Triple m s good m.status.worker_ref.joined_control_plane)
            (λ _. Triple-pure tt (λ h p. p))))

  join_kept-Triple :
      (planes : List KtMachine) (m : KtMachine) (token : String)
      → Triple (Held m) (λ (_ : Unit {0}). Held m) Base (join_control_plane env planes m token)
  unfolding join_control_plane create_worker_vm
  join_kept-Triple planes m token =
      Triple-after_Keeps (CloudPlain.Keeps-pick_control_plane (Held m) (plain m) env planes)
        (λ h p. p.0)
        (λ plane.
          Triple-if (is_empty planes) _ _ (λ _. Triple-throw _ (λ h p. p.0))
            (λ _.
              Triple-after_Keeps (Keeps-first _) (λ h p. p.0)
                (λ ip.
                  Triple-bind (post_server-Triple env key Base Good Own laws rules m token _)
                    (λ k. Triple-pure tt (λ h (p, q, r). (p, q, q))))))

  join_control_plane-Triple :
      (planes : List KtMachine) (m : KtMachine) (token : String)
      → Triple
          (Held m)
          (λ (_ : Unit {0}) h. Held m h × HasJoined env planes m token h)
          Base
          (join_control_plane env planes m token)
  join_control_plane-Triple planes m token =
      Triple-run (join_kept-Triple planes m token)
        (λ _ h k e. join_control_plane-HasJoined env planes m token h e)

  module _ (joins : Joins env key Base Good Own laws rules) where
    reconcile_worker-Triple :
        (m : KtMachine) (token : String) → Triple (Held m) Done Base (reconcile_worker env m token)
    unfolding reconcile_worker join_worker
    reconcile_worker-Triple m token =
        Triple-if _ _ _
          (λ _.
            Triple-after_Keeps (Plain.Keeps-get_planes (Held m) (plain m) env m) (λ h p. p.0)
              (λ planes.
                Triple-if (is_empty planes) _ _ (λ _. Triple-pure tt (λ h p. p.0))
                  (λ _. Triple-bind (join_control_plane-Triple planes m token) (λ _.
                    Triple-bind (joins.mark planes m token) (λ n.
                      Triple-pre (λ h (p, q, r). (p, r, r)) (refresh_worker-Triple n token))))))
          (λ _. refresh_worker-Triple m token)

    pub reconcile_infrastructure-Triple :
        (m : KtMachine) (c : KtCluster) (token : String)
        → Own c
        → Triple (Held m) Done Base (reconcile_infrastructure env m c token)
    unfolding reconcile_infrastructure
    reconcile_infrastructure-Triple m c token own =
        Triple-if (contains m.meta.name control_plane_label) _ _
          (λ _. reconcile_control_plane-Triple env key Base Good Own laws rules m c token own)
          (λ _. reconcile_worker-Triple m token)
