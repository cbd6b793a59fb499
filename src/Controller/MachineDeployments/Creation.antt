-- ===== src/Controller/MachineDeployments/Creation.antt =====
-- What a pass of the deployment's reconciler creates: the missing replicas.
use kt_cloud_operator.Common.{
  ℕ, ◌-◌, ◌≡◌, true, false, List, ◌∷◌, arith, ℤ, pos, negsuc, if◌then◌else◌,
}
use kt_cloud_operator.Api.{KtMachine, MachineDeployment}
use kt_cloud_operator.Controller.Results.{done}
use kt_cloud_operator.Controller.MachineDeployments.{
  differs, machines_to_create, count_children, kt_machine_for_machine_deployment,
  count_child_machines_by_owner, reconcile_deployment,
}
use kt_cloud_operator.Runtime.Calls.{Call, History, Kind}
use kt_cloud_operator.Runtime.Env.{Env, value}
use kt_cloud_operator.Runtime.Effects.{ok, pure, ◌>>=◌}
use kt_cloud_operator.Runtime.Steps.{catch-of_ok}

-- The replicas that are asked for: none for a negative number.
abbrev pub wanted : ℤ → ℕ
wanted (pos n) = n
wanted (negsuc _) = 0

abbrev pub listing : MachineDeployment → Call
listing d = Call.list Kind.machine d.meta.namespace

pub machines_to_create_lem :
    (count : ℕ) (r : ℤ) → differs count r ≡ true → machines_to_create count r ≡ wanted r - count
unfolding machines_to_create differs
machines_to_create_lem count (pos r) e = ground arith
machines_to_create_lem count (negsuc r) e = ground arith

pub differs-false : (count : ℕ) (r : ℤ) → differs count r ≡ false → wanted r ≡ count
unfolding differs
differs-false count (pos r) e = ground arith
differs-false count (negsuc r) e = cc

pub differs_same : (r : ℕ) → differs r (pos r) ≡ false
unfolding differs
differs_same r = ground arith

module _ (env : Env) (d : MachineDeployment) {h : History} {ms : List KtMachine}
    (listed : env.list_machines h d.meta.namespace ≡ value ms) where
  count_lem : count_child_machines_by_owner env d h ≡ ok (count_children d ms) (listing d ∷ h)
  unfolding count_child_machines_by_owner ◌>>=◌
  count_lem = rw listed

  pub reconcile_deployment_lem :
      reconcile_deployment env d h
      ≡ (if differs (count_children d ms) d.spec.replicas
            then (kt_machine_for_machine_deployment env d (count_children d ms) >>= λ _. pure done)
            else pure done)
          (listing d ∷ h)
  unfolding reconcile_deployment
  reconcile_deployment_lem = catch-of_ok _ _ _ count_lem
