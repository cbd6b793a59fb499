-- ===== src/Tests/Fleet.antt =====
-- The whole operator at work on two machines and a deployment.
use text.Mathlib.TextEquality.{eq_iff}
use kt_cloud_operator.Common.{String, false, true, ◌≡◌, refl, ◌∷◌, []}
use kt_cloud_operator.Api.{NamespacedName}
use kt_cloud_operator.Api.Registration.{Resource}
use kt_cloud_operator.Controller.Lifecycle.{is_named, touches}
use kt_cloud_operator.Controller.Lifecycle.Passes.{Passes}
use kt_cloud_operator.Controller.Fleet.{Fleet, reconcile_kind}
use kt_cloud_operator.Controller.Fleet.Machines.{AnswersByKey, Fleet-Passes}
use kt_cloud_operator.Controller.Fleet.Deployments.{Fleet-Deploys}
use kt_cloud_operator.Controller.MachineDeployments.Bounds.{Deploys}
use kt_cloud_operator.Runtime.Calls.{Call, History, machine}
use kt_cloud_operator.Runtime.Effects.{history}
use kt_cloud_operator.Tests.World.{world, machine_at}
use kt_cloud_operator.Tests.World.Inventories.{world-Inventory, world-Neighbours}

named_by_key : (key : NamespacedName) → is_named key (machine (machine_at key)) ≡ true
named_by_key key =
    rw ((eq_iff key.name key.name).1 refl) ((eq_iff key.namespace key.namespace).1 refl)

world-AnswersByKey : AnswersByKey world
world-AnswersByKey = record {
  reads = λ h key m e. let same : m ≡ machine_at key = cc in rw same (named_by_key key);
  answers = λ n k h e. record { name = cc; namespace = cc; cluster = cc; status = cc };
}

abbrev key_of : String → NamespacedName
key_of name = record { name = name; namespace = "default" }

-- The deployment makes its machines, another machine is reconciled, somebody waits, and then the
-- machine itself is reconciled.
abbrev made : History
made = history (reconcile_kind world Resource.machine_deployment (key_of "md-0") [])

abbrev neighbour : History
neighbour = history (reconcile_kind world Resource.kt_machine (key_of "md-0-y") made)

abbrev reconciled : History
reconciled =
    history (reconcile_kind world Resource.kt_machine (key_of "md-0-x") (Call.now ∷ neighbour))

operator_run : Fleet world (λ c h. touches (key_of "md-0-x") c ≡ false) [] reconciled
operator_run = Fleet.pass Resource.kt_machine (key_of "md-0-x") (
    Fleet.other Call.now refl (
      Fleet.pass Resource.kt_machine (key_of "md-0-y")
        (Fleet.pass Resource.machine_deployment (key_of "md-0") Fleet.start)))

Fleet-Passes_example : Passes world (key_of "md-0-x") [] reconciled
Fleet-Passes_example = Fleet-Passes world (key_of "md-0-x") world-AnswersByKey operator_run

-- Passes over two deployments and a machine.
abbrev deployed : History
deployed = history (
    reconcile_kind world Resource.machine_deployment (key_of "md-1")
      (history (reconcile_kind world Resource.kt_machine (key_of "md-0-x") made)))

Fleet-Deploys_example : Deploys world (key_of "md-0") (world-Inventory (key_of "md-0")) [] deployed
Fleet-Deploys_example =
    Fleet-Deploys world (key_of "md-0") (world-Inventory (key_of "md-0"))
      (world-Neighbours (key_of "md-0"))
      (Fleet.pass Resource.machine_deployment (key_of "md-1") (
        Fleet.pass Resource.kt_machine (key_of "md-0-x")
          (Fleet.pass Resource.machine_deployment (key_of "md-0") Fleet.start)))
