-- ===== src/Controller/MachineDeployments.antt =====
-- internal/controller/machinedeployment_controller.go: as many machines as the deployment asks for.
pub mod Replicas
pub mod Creation
pub mod Convergence
pub mod Orders
pub mod Tallies
pub mod Inventory
pub mod Bounds
pub mod Settlement
use kt_cloud_operator.Common.{
  ℕ, zero, suc, ◌+◌, ◌-◌, String, ◌<>◌, Bool, true, false, ◌&&◌, not, List, [], ◌∷◌, if◌then◌else◌,
  ◌==◌, ltb, nat_eq, ℤ, pos, negsuc,
}
use kt_cloud_operator.Api.{
  OwnerReference, NamespacedName, KtMachine, MachineDeployment, KtMachineTemplate, zero_meta,
  zero_spec, zero_status,
}
use kt_cloud_operator.Controller.Results.{CtrlResult, done, requeue}
use kt_cloud_operator.Controller.KtMachines.{ignore_not_found}
use kt_cloud_operator.Controller.RandomNames.{random_string}
use kt_cloud_operator.Runtime.Calls.{Kind, Object, Call}
use kt_cloud_operator.Runtime.Env.{Env}
use kt_cloud_operator.Runtime.Effects.{M, pure, lift, perform, perform_check, catch, ◌>>=◌, ◌>>◌}

-- The inner loop of `countChildMachinesByOwner`, which stops at the first match.
unfoldable pub is_owned : String → List OwnerReference → Bool
is_owned name [] = false
is_owned name (ref ∷ refs) =
    let rest = is_owned name refs in
    if ref.kind == "MachineDeployment" && ref.name == name then true else rest

unfoldable pub is_child : MachineDeployment → KtMachine → Bool
unfolding is_owned
is_child d m = is_owned d.meta.name m.meta.owner_references

-- The outer loop.
unfoldable pub count_children : MachineDeployment → List KtMachine → ℕ
unfolding is_child
count_children d [] = 0
count_children d (m ∷ ms) =
    let rest = count_children d ms in if is_child d m then suc rest else rest

-- `machinesToCreate`; the last branch of the source is not reached from `Reconcile`.
unfoldable pub machines_to_create : ℕ → ℤ → ℕ
machines_to_create count (negsuc _) = 0
machines_to_create count (pos replicas) =
    if ltb count replicas then replicas - count else if ltb replicas count then 0 else replicas

-- `countMachinesAvailable != Replicas`
unfoldable pub differs : ℕ → ℤ → Bool
differs count (negsuc _) = true
differs count (pos replicas) = not (nat_eq count replicas)

-- The machine of round `i` of the loop, before its owner is set.
unfoldable pub new_machine : MachineDeployment → KtMachineTemplate → ℕ → String → KtMachine
new_machine d template i name = record {
  type_meta = record { api_version = ""; kind = "" };
  meta = record zero_meta { name = name; namespace = d.meta.namespace };
  spec = record zero_spec {
    control_plane_number = pos (i + 1);
    flavor = template.spec.template.spec.flavor;
    cluster_name = d.spec.template.spec.cluster_name;
    availability_zone = d.spec.template.spec.failure_domain;
    ssh_key_name = template.spec.template.spec.ssh_key_name;
    block_device_mapping = template.spec.template.spec.block_device_mapping;
    network_tier = template.spec.template.spec.network_tier;
  };
  status = zero_status;
}

abbrev pub deployment_key : MachineDeployment → NamespacedName
deployment_key d = record { name = d.meta.name; namespace = d.meta.namespace }

module _ (env : Env) where
  unfoldable pub create_machine : KtMachine → M (Unit {0})
  create_machine m =
      perform_check (Call.create (Object.machine m)) (λ h. env.create h (Object.machine m))

  -- One round of the loop.
  unfoldable pub create_replica : MachineDeployment → KtMachineTemplate → ℕ → M (Unit {0})
  create_replica d template i = do
    suffix ← random_string env 10
    let m : KtMachine = new_machine d template i (d.meta.name <> "-" <> env.to_lower suffix)
    meta ← lift (env.set_controller_reference (Object.deployment d) m.meta)
    create_machine (record m { meta = meta })

  -- The rounds from `i` on, with how many are left.
  unfoldable pub create_replicas : MachineDeployment → KtMachineTemplate → ℕ → ℕ → M (Unit {0})
  create_replicas d template i zero = pure tt
  create_replicas d template i (suc left) = do
    create_replica d template i
    create_replicas d template (suc i) left

  unfoldable pub kt_machine_for_machine_deployment : MachineDeployment → ℕ → M (Unit {0})
  kt_machine_for_machine_deployment d count = do
    template ←
        perform (Call.get Kind.template (deployment_key d))
          (λ h. env.get_template h (deployment_key d))
    create_replicas d template 0 (machines_to_create count d.spec.replicas)

  unfoldable pub count_child_machines_by_owner : MachineDeployment → M ℕ
  count_child_machines_by_owner d = do
    machines ←
        perform (Call.list Kind.machine d.meta.namespace)
          (λ h. env.list_machines h d.meta.namespace)
    pure (count_children d machines)

  unfoldable pub reconcile_deployment : MachineDeployment → M CtrlResult
  reconcile_deployment d =
      catch (count_child_machines_by_owner d)
        (λ count.
          if differs count d.spec.replicas
          then (do kt_machine_for_machine_deployment d count; pure done)
          else pure done)
        (λ _. pure (requeue 60))

  -- `MachineDeploymentReconciler.Reconcile`
  unfoldable pub reconcile : NamespacedName → M CtrlResult
  reconcile key =
      catch (perform (Call.get Kind.deployment key) (λ h. env.get_deployment h key))
        reconcile_deployment ignore_not_found
