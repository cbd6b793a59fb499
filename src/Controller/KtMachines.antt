-- ===== src/Controller/KtMachines.antt =====
-- `Reconcile` of internal/controller/ktmachine_controller.go, and its deletion of a server.
pub mod AtMostOne
pub mod Requeues
pub mod LostServers
pub mod Conflicts
pub mod Boots
use kt_cloud_operator.Common.{String, if◌then◌else◌, ◌==◌, List, [], ◌∷◌}
use kt_cloud_operator.Api.{NamespacedName, KtMachine, KtCluster}
use kt_cloud_operator.Httpapi.Servers.{delete_vm}
use kt_cloud_operator.Controller.Results.{CtrlResult, done, requeue}
use kt_cloud_operator.Controller.Lookup.{get_machine_associated_cluster, get_subject_token}
use kt_cloud_operator.Controller.Infrastructure.{reconcile_infrastructure}
use kt_cloud_operator.Runtime.Calls.{Error, Kind, Object, Call}
use kt_cloud_operator.Runtime.Env.{Env}
use kt_cloud_operator.Runtime.Effects.{
  M, pure, throw, gets, perform, perform_check, catch, ◌>>=◌, ◌>>◌,
}

-- `m[key] = value` on the annotations.
unfoldable pub set_annotation : String → String → List (String × String) → List (String × String)
set_annotation key value [] = (key, value) ∷ []
set_annotation key value ((k, v) ∷ rest) =
    let later = (k, v) ∷ set_annotation key value rest in
    if k == key then (key, value) ∷ rest else later

abbrev pub ignore_not_found : Error → M CtrlResult
ignore_not_found e = if e.not_found then pure done else throw e

module _ (env : Env) where
  unfoldable pub reconcile_machine : KtMachine → M CtrlResult
  reconcile_machine m =
      catch (get_subject_token env m)
        (λ token. if token.spec.subject_token == "" then pure (requeue 60) else do
          cluster ← get_machine_associated_cluster env m
          reconcile_infrastructure env m cluster token.spec.subject_token
          pure (requeue 60))
        (λ _. pure (requeue 60))

  -- `KTMachineReconciler.Reconcile`
  unfoldable pub reconcile : NamespacedName → M CtrlResult
  reconcile key =
      catch (perform (Call.get Kind.machine key) (λ h. env.get_machine h key)) reconcile_machine
        ignore_not_found

  unfoldable pub trigger_cluster_reconciliation : KtCluster → M (Unit {0})
  trigger_cluster_reconciliation cluster = do
    time ← gets env.now
    let c : KtCluster = record cluster {
      meta = record cluster.meta {
        annotations = set_annotation "trigger-reconcile" time cluster.meta.annotations;
      };
    }
    perform_check (Call.update (Object.kt_cluster c)) (λ h. env.update h (Object.kt_cluster c))

  unfoldable pub delete_external_resources : KtMachine → String → M (Unit {0})
  delete_external_resources m token = delete_vm env m token
