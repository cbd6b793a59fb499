-- ===== src/Tests/World/Inventories.antt =====
-- The machines that the world lists, as the API server keeps a deployment's machines.
use text.Mathlib.TextEquality.{eq_iff}
use mathlib.Core.List.Perm
use kt_cloud_operator.Common.{map, String, ◌≡◌, refl, sym, ap, true, false, ◌==◌, ◌∷◌}
use kt_cloud_operator.Api.{ObjectMeta, NamespacedName, MachineDeployment}
use kt_cloud_operator.Httpapi.Plain.{writes_machine}
use kt_cloud_operator.Controller.MachineDeployments.{deployment_key, is_owned}
use kt_cloud_operator.Controller.MachineDeployments.Inventory.{Inventory, references_of}
use kt_cloud_operator.Controller.Fleet.Neighbours.{Neighbours}
use kt_cloud_operator.Runtime.Calls.{Object, Call, History, machine, create}
use kt_cloud_operator.Runtime.Env.{value}
use kt_cloud_operator.Tests.World.{world, machines_of, deployment_at, child_of_deployment}

pub machines_of-quiet :
    (namespace : String) (c : Call) (h : History)
    → writes_machine c ≡ false
    → machines_of namespace (c ∷ h) ≡ machines_of namespace h
machines_of-quiet namespace (create (machine m)) h e = cc
machines_of-quiet namespace (create (Object.template _)) h e = refl
machines_of-quiet namespace (create (Object.deployment _)) h e = refl
machines_of-quiet namespace (create (Object.kt_cluster _)) h e = refl
machines_of-quiet namespace (create (Object.cluster _)) h e = refl
machines_of-quiet namespace (create (Object.token _)) h e = refl
machines_of-quiet namespace (create (Object.firewall _)) h e = refl
machines_of-quiet namespace (create (Object.secret _)) h e = refl
machines_of-quiet namespace (Call.http r) h e = refl
machines_of-quiet namespace (Call.get k n) h e = refl
machines_of-quiet namespace (Call.list k n) h e = refl
machines_of-quiet namespace (Call.update o) h e = refl
machines_of-quiet namespace (Call.update_status o) h e = refl
machines_of-quiet namespace (Call.delete o) h e = refl
machines_of-quiet namespace (Call.rand n) h e = refl
machines_of-quiet namespace Call.now h e = refl
machines_of-quiet namespace (Call.sleep n) h e = refl

pub its_deployment :
    (h : History) (key : NamespacedName) (d : MachineDeployment)
    → world.get_deployment h key ≡ value d
    → deployment_key d ≡ key
its_deployment h key d e = let same : deployment_at key ≡ d = cc in ap deployment_key (sym same)

child_lem :
    (d : MachineDeployment) (meta meta' : ObjectMeta)
    → world.set_controller_reference (Object.deployment d) meta ≡ value meta'
    → child_of_deployment d.meta.name meta ≡ meta'
child_lem d meta meta' e = cc

pub names_owner :
    (key : NamespacedName) (d : MachineDeployment) (meta meta' : ObjectMeta)
    → deployment_key d ≡ key
    → world.set_controller_reference (Object.deployment d) meta ≡ value meta'
    → (is_owned key.name meta'.owner_references ≡ true) × (meta'.namespace ≡ meta.namespace)
unfolding is_owned
names_owner key d meta meta' same e =
    let child = child_lem d meta meta' e in
    let name : (d.meta.name == key.name) ≡ true =
      (eq_iff d.meta.name key.name).1 (ap (λ k. k.name) same) in
    (rw (← child, name) refl, ap (λ k. k.namespace) (sym child))

abbrev pub world-Inventory : (key : NamespacedName) → Inventory world key
world-Inventory key = record {
  stored = λ h. map references_of (machines_of key.namespace h);
  by_key = λ h d e. its_deployment h key d e;
  lists = λ h ms e.
      let same : machines_of key.namespace h ≡ ms = cc in
      rw same (Perm.refl (map references_of ms));
  created = λ h m accepted here.
      let inside : (m.meta.namespace == key.namespace) ≡ true =
        (eq_iff m.meta.namespace key.namespace).1 here in
      rw inside (Perm.refl (map references_of (m ∷ machines_of key.namespace h)));
  refused = λ h m x e. cc;
  quiet = λ c h e. ap (map references_of) (machines_of-quiet key.namespace c h e);
  sets_owner = names_owner key;
}

names_no_other :
    (d : MachineDeployment) (meta meta' : ObjectMeta)
    → world.set_controller_reference (Object.deployment d) meta ≡ value meta'
    → (meta'.namespace ≡ meta.namespace)
      × ((name : String)
          → (d.meta.name == name) ≡ false
          → is_owned name meta'.owner_references ≡ is_owned name meta.owner_references)
unfolding is_owned
names_no_other d meta meta' e =
    let child = child_lem d meta meta' e in
    (ap (λ k. k.namespace) (sym child), λ name other. rw (← child, other) refl)

pub world-Neighbours : (key : NamespacedName) → Neighbours world key (world-Inventory key)
world-Neighbours key = record {
  renewed = λ n h. refl;
  elsewhere = λ m h there. rw there refl;
  by_key = its_deployment;
  owners = names_no_other;
  answers = λ n k h e. record { name = cc; namespace = cc; cluster = cc; status = cc };
}
