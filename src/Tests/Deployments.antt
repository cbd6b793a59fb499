-- ===== src/Tests/Deployments.antt =====
-- The reconciler of machine deployments.
use kt_cloud_operator.Common.{
  Member, Bool, ◌==◌, ◌∙◌, sym, false, true, ◌≤◌, refl, [], ◌∷◌, ◌≡◌, List, ap, arith,
}
use kt_cloud_operator.Api.{OwnerReference, NamespacedName, MachineDeployment, KtMachine}
use kt_cloud_operator.Controller.Results.{done}
use kt_cloud_operator.Controller.MachineDeployments.{
  count_child_machines_by_owner, reconcile_deployment, reconcile, deployment_key,
}
use kt_cloud_operator.Controller.MachineDeployments.Creation.{wanted, listing}
use kt_cloud_operator.Controller.MachineDeployments.Inventory.{owned}
use kt_cloud_operator.Controller.MachineDeployments.Bounds.{Deploys, Deploys-bounded}
use kt_cloud_operator.Controller.MachineDeployments.Settlement.{Answers, reconcile-settles}
use kt_cloud_operator.Runtime.Calls.{History, Call, Kind, create, machine}
use kt_cloud_operator.Controller.MachineDeployments.Orders.{HasOwner, count_child_machines-exact}
use mathlib.Core.List.Perm
use kt_cloud_operator.Runtime.Env.{value}
use kt_cloud_operator.Runtime.Effects.{ok, history}
use kt_cloud_operator.Tests.World.Inventories.{world-Inventory}
use kt_cloud_operator.Tests.World.{
  machines_of, the_template, world, new_machine_named, the_deployment, child_of_deployment,
}

abbrev after : History
after = history (reconcile_deployment world the_deployment [])

abbrev its_key : NamespacedName
its_key = deployment_key the_deployment

the_one :
    (h : History) (d : MachineDeployment)
    → world.get_deployment h its_key ≡ value d
    → the_deployment ≡ d
the_one h d e = cc

world-Answers : Answers world the_deployment
world-Answers = record {
  deployment = λ h. refl;
  template = λ h. (the_template, refl);
  listed = λ h. (machines_of "default" h, refl);
  owner = λ meta. (child_of_deployment "kt-cluster1-md-0" meta, refl);
  creates = λ h m. refl;
  draws = λ h n. (0, refl, omega arith);
}

reconcile-settles_example :
    (h' : History) × (reconcile world its_key [] ≡ ok done h')
    × (owned world its_key (world-Inventory its_key) h' ≡ 2)
    × (reconcile world its_key h'
        ≡ ok done (listing the_deployment ∷ Call.get Kind.deployment its_key ∷ h'))
reconcile-settles_example =
    reconcile-settles world the_deployment (world-Inventory its_key) world-Answers [] 2 refl
      (omega arith)

-- Two passes with a wait between them.
abbrev passed : History
passed = history (reconcile world its_key (Call.now ∷ history (reconcile world its_key [])))

Deploys-bounded_example :
    (owned world its_key (world-Inventory its_key) []
      ≤ owned world its_key (world-Inventory its_key) passed)
    × (owned world its_key (world-Inventory its_key) passed ≤ 2)
Deploys-bounded_example =
    Deploys-bounded world its_key (world-Inventory its_key) 2
      (λ h d e. omega (arith, ap (λ x. wanted x.spec.replicas) (the_one h d e))) (omega arith)
      (Deploys.pass (Deploys.other Call.now refl (Deploys.pass Deploys.start)))

-- A machine of the deployment with two references to it, and one of another deployment.
abbrev its_machine : KtMachine
its_machine = record (new_machine_named "a") {
  meta =
      child_of_deployment "kt-cluster1-md-0"
        (child_of_deployment "kt-cluster1-md-0" (new_machine_named "a").meta);
}

abbrev other_machine : KtMachine
other_machine = record (new_machine_named "b") {
  meta = child_of_deployment "md-1" (new_machine_named "b").meta;
}

its_own : HasOwner the_deployment its_machine
its_own = (_, Member.here refl, refl, refl)

owned_by_another :
    (r : OwnerReference)
    → Member r other_machine.meta.owner_references
    → r.name ≡ "kt-cluster1-md-0"
    → ⊥
owned_by_another r (Member.here same) named =
    let clash : ◌≡◌ {A = Bool} true false =
      ap (λ s. s == "kt-cluster1-md-0") (sym named ∙ ap (λ x. x.name) same) in
    cc
owned_by_another r (Member.there inside) named = elim inside [ ]

count_child_machines-exact_example :
    count_child_machines_by_owner world the_deployment
      (create (machine other_machine) ∷ create (machine its_machine) ∷ [])
    ≡ ok 1 (
        Call.list Kind.machine "default"
        ∷ create (machine other_machine)
        ∷ create (machine its_machine)
        ∷ [])
count_child_machines-exact_example =
    count_child_machines-exact world the_deployment
      (create (machine other_machine) ∷ create (machine its_machine) ∷ [])
      (other_machine ∷ its_machine ∷ []) (its_machine ∷ []) (other_machine ∷ []) refl
      (Perm.swap _ _ []) (its_own, tt)
      ((λ (r, inside, kind, named). owned_by_another r inside named), tt)
