-- ===== src/Controller/KtMachines/Boots.antt =====
-- The pass over a control plane whose bootstrap server answers.
use kt_cloud_operator.Common.{
  ◌==◌, ◌≡◌, refl, ◌∙◌, Bool, true, false, ◌&&◌, is_empty, ◌∷◌, contains,
}
use kt_cloud_operator.Api.{NamespacedName, KtMachine, KtMachineStatus, KtCluster, KtSubjectToken}
use kt_cloud_operator.Httpapi.Bootstrap.{check_control_plane_machine_ready}
use kt_cloud_operator.Httpapi.Servers.{get_created_vm}
use kt_cloud_operator.Httpapi.Kubeconfigs.{fetch_and_create_kubeconfig_secret}
use kt_cloud_operator.Controller.Results.{requeue}
use kt_cloud_operator.Controller.Lookup.{
  control_plane_label, is_bootstrap_ready, get_machine_associated_cluster, get_subject_token,
}
use kt_cloud_operator.Controller.Infrastructure.{
  set_bootstrap_ready, waits_for_bootstrap, update_status, sync_status, ensure_network,
  finish_bootstrap, ensure_bootstrap, reconcile_active, reconcile_created, reconcile_control_plane,
  reconcile_infrastructure,
}
use kt_cloud_operator.Controller.KtMachines.{reconcile_machine, reconcile}
use kt_cloud_operator.Controller.Lifecycle.{Store, Same, is_named}
use kt_cloud_operator.Runtime.Calls.{Kind, Object, Call, History}
use kt_cloud_operator.Runtime.Env.{Env, value}
use kt_cloud_operator.Runtime.Effects.{ok, pure}
use kt_cloud_operator.Runtime.Steps.{>>=-of_ok, catch-of_ok, perform-of_value}

-- What is answered to the pass over `m`, from the calls `h` on, up to its last write.
pub record Boots (env : Env) (key : NamespacedName) (m : KtMachine) (h : History) : Type 0 where
  pub read : env.get_machine h key ≡ value m
  pub token : KtSubjectToken
  pub h₁ : History
  pub got_token : get_subject_token env m (Call.get Kind.machine key ∷ h) ≡ ok token h₁
  pub has_token : (token.spec.subject_token == "") ≡ false
  pub cluster : KtCluster
  pub h₂ : History
  pub got_cluster : get_machine_associated_cluster env m h₁ ≡ ok cluster h₂
  -- the cloud's state is the stored one
  pub status : KtMachineStatus
  pub h₃ : History
  pub got_status : get_created_vm env m token.spec.subject_token h₂ ≡ ok status h₃
  pub unchanged : (m.status.status == status.status) ≡ true
  -- the bootstrap server answers, and the kubeconfig becomes a secret
  pub h₄ : History
  pub answers : check_control_plane_machine_ready env m h₃ ≡ ok tt h₄
  pub h₅ : History
  pub made_secret : fetch_and_create_kubeconfig_secret env m cluster h₄ ≡ ok tt h₅
  pub stored : KtMachine
  pub accepted : env.update_machine_status h₅ (set_bootstrap_ready m true) ≡ value stored

-- A control plane that waits: labelled, with its server and an address, active, and marked.
pub record IsWaiting (m : KtMachine) : Type 0 where
  pub labelled : contains m.meta.name control_plane_label ≡ true
  pub has_server : (m.status.id == "") ≡ false
  pub active : (m.status.status == "ACTIVE") ≡ true
  pub has_address : is_empty m.status.assigned_public_ips ≡ false
  pub waits : waits_for_bootstrap m ≡ true

abbrev pub ready_call : KtMachine → Call
ready_call m = Call.update_status (Object.machine (set_bootstrap_ready m true))

&&-false : (b : Bool) → (b && false) ≡ false
&&-false true = refl
&&-false false = refl

module _ (env : Env) (key : NamespacedName) (m : KtMachine) (h : History) (b : Boots env key m h)
    (w : IsWaiting m) where
  finish_bootstrap-boots : finish_bootstrap env m b.cluster b.h₃ ≡ ok tt (ready_call m ∷ b.h₅)
  unfolding finish_bootstrap update_status pure
  finish_bootstrap-boots =
      >>=-of_ok (check_control_plane_machine_ready env m) _ b.answers
      ∙ >>=-of_ok (fetch_and_create_kubeconfig_secret env m b.cluster) _ b.made_secret
      ∙ >>=-of_ok (update_status env (set_bootstrap_ready m true)) _ (
          perform-of_value (ready_call m)
            (λ k. env.update_machine_status k (set_bootstrap_ready m true)) b.accepted)

  reconcile_active-boots :
      reconcile_active env m b.cluster b.token.spec.subject_token b.h₃ ≡ ok tt (ready_call m ∷ b.h₅)
  unfolding reconcile_active ensure_network ensure_bootstrap pure
  reconcile_active-boots =
      rw (w.active, w.has_address, &&-false b.cluster.spec.control_plane_external_network_enable)
        (>>=-of_ok (pure m) _ refl ∙ rw w.waits finish_bootstrap-boots)

  reconcile_infrastructure-boots :
      reconcile_infrastructure env m b.cluster b.token.spec.subject_token b.h₂
      ≡ ok tt (ready_call m ∷ b.h₅)
  unfolding reconcile_infrastructure reconcile_control_plane reconcile_created sync_status pure
  reconcile_infrastructure-boots =
      rw (w.labelled, w.has_server)
        (>>=-of_ok (get_created_vm env m b.token.spec.subject_token) _ b.got_status
          ∙ rw b.unchanged (>>=-of_ok (pure m) _ refl ∙ reconcile_active-boots))

  reconcile-boots : reconcile env key h ≡ ok (requeue 60) (ready_call m ∷ b.h₅)
  unfolding reconcile reconcile_machine pure
  reconcile-boots =
      catch-of_ok _ (reconcile_machine env) _
        (perform-of_value (Call.get Kind.machine key) (λ k. env.get_machine k key) b.read)
      ∙ catch-of_ok (get_subject_token env m) _ _ b.got_token
      ∙ rw b.has_token (
          >>=-of_ok (get_machine_associated_cluster env m) _ b.got_cluster
          ∙ >>=-of_ok (reconcile_infrastructure env m b.cluster b.token.spec.subject_token) _
              reconcile_infrastructure-boots)

  marked_ready :
      (worker k : KtMachine)
      → (m.meta.name == worker.meta.name) ≡ false
      → Same (set_bootstrap_ready m true) k
      → is_bootstrap_ready worker k ≡ true
  unfolding is_bootstrap_ready set_bootstrap_ready
  marked_ready worker k another same =
      rw (same.name, same.status, another, w.labelled, w.active) refl

-- A control plane whose bootstrap server answers becomes one that workers can join: where the
-- stored machine is labelled, active with its server and an address, and waits, and the pass gets
-- its token, its cluster and an unchanged state, the bootstrap server answers, the kubeconfig's
-- secret is made and the last write is accepted, the pass ends without an error, asks to run again
-- in 60 seconds, and leaves a stored machine that every other machine's search for control planes
-- accepts. The API server keeps the machine under its key, and an accepted write of the status of a
-- machine with this key stores it.
pub reconcile-boots_ready :
    (env : Env) (key : NamespacedName) (store : Store env key) (h : History)
    (b : Boots env key (store.stored h) h) (worker : KtMachine)
    → IsWaiting (store.stored h)
    → is_named key (Object.machine (store.stored h)) ≡ true
    → ((n k : KtMachine) (l : History)
        → is_named key (Object.machine n) ≡ true
        → env.update_machine_status l n ≡ value k
        → Same n (store.stored (Call.update_status (Object.machine n) ∷ l)))
    → ((store.stored h).meta.name == worker.meta.name) ≡ false
    → (reconcile env key h ≡ ok (requeue 60) (ready_call (store.stored h) ∷ b.h₅))
      × (is_bootstrap_ready worker (store.stored (ready_call (store.stored h) ∷ b.h₅)) ≡ true)
unfolding set_bootstrap_ready
reconcile-boots_ready env key store h b worker waiting named stores another = (
  reconcile-boots env key (store.stored h) h b waiting,
  marked_ready env key (store.stored h) h b waiting worker _ another
      (stores (set_bootstrap_ready (store.stored h) true) b.stored b.h₅ named b.accepted),
)
