-- ===== src/Controller/MachineDeployments/Inventory.antt =====
-- How the API server keeps the machines that a deployment owns.
use mathlib.Core.List.{Perm}
use kt_cloud_operator.Common.{
  map, ◌∙◌, ℕ, suc, String, ◌≡◌, refl, true, false, ap, none, some, List, [], ◌∷◌, if◌then◌else◌,
}
use kt_cloud_operator.Controller.MachineDeployments.Tallies.{tally, tally-Perm}
use kt_cloud_operator.Api.{OwnerReference, ObjectMeta, NamespacedName, KtMachine, MachineDeployment}
use kt_cloud_operator.Controller.MachineDeployments.{
  is_owned, is_child, count_children, deployment_key,
}
use kt_cloud_operator.Httpapi.Plain.{writes_machine}
use kt_cloud_operator.Runtime.Calls.{Error, Call, History, Object, create, machine}
use kt_cloud_operator.Runtime.Env.{Env, value}

-- How many machines name a deployment as their owner, from the owner references of each.
abbrev pub owned_by : String → List (List OwnerReference) → ℕ
owned_by name = tally (is_owned name)

abbrev pub references_of : KtMachine → List OwnerReference
references_of m = m.meta.owner_references

pub count_children_lem :
    (d : MachineDeployment) (ms : List KtMachine)
    → count_children d ms ≡ owned_by d.meta.name (map references_of ms)
unfolding count_children is_child
count_children_lem d [] = refl
count_children_lem d (m ∷ ms) =
    ap (λ n. if is_owned d.meta.name m.meta.owner_references then suc n else n)
      (count_children_lem d ms)

-- What is assumed of the API server and of `SetControllerReference`, for the deployment with a key:
-- a read returns the deployment with the key, a list has the machines of the namespace that are
-- stored, in any order and with whatever the server has set in them but their owner references, a
-- machine is stored with its references by a creation that is accepted and by none that is refused,
-- a call that writes no machine changes nothing, and the reference that is set names the deployment
-- and leaves the namespace alone.
pub record Inventory (env : Env) (key : NamespacedName) : Type 0 where
  -- the owner references of each machine that is stored in the namespace
  pub stored : History → List (List OwnerReference)
  pub by_key :
      (h : History) (d : MachineDeployment)
      → env.get_deployment h key ≡ value d
      → deployment_key d ≡ key
  pub lists :
      (h : History) (ms : List KtMachine)
      → env.list_machines h key.namespace ≡ value ms
      → Perm (map references_of ms) (stored h)
  pub created :
      (h : History) (m : KtMachine)
      → env.create h (machine m) ≡ none
      → m.meta.namespace ≡ key.namespace
      → Perm (stored (create (machine m) ∷ h)) (references_of m ∷ stored h)
  pub refused :
      (h : History) (m : KtMachine) (e : Error)
      → env.create h (machine m) ≡ some e
      → stored (create (machine m) ∷ h) ≡ stored h
  pub quiet : (c : Call) (h : History) → writes_machine c ≡ false → stored (c ∷ h) ≡ stored h
  pub sets_owner :
      (d : MachineDeployment) (meta meta' : ObjectMeta)
      → deployment_key d ≡ key
      → env.set_controller_reference (Object.deployment d) meta ≡ value meta'
      → (is_owned key.name meta'.owner_references ≡ true) × (meta'.namespace ≡ meta.namespace)

module _ (env : Env) (key : NamespacedName) (laws : Inventory env key) where
  -- The stored machines that the deployment owns.
  abbrev pub owned : History → ℕ
  owned h = owned_by key.name (laws.stored h)

  pub owned-create :
      (m : KtMachine) (h : History)
      → env.create h (machine m) ≡ none
      → m.meta.namespace ≡ key.namespace
      → owned (create (machine m) ∷ h) ≡ owned_by key.name (references_of m ∷ laws.stored h)
  owned-create m h accepted here = tally-Perm (is_owned key.name) (laws.created h m accepted here)

  -- The reconciler counts what is stored.
  pub count_children-owned :
      (d : MachineDeployment) (h : History) (ms : List KtMachine)
      → deployment_key d ≡ key
      → env.list_machines h d.meta.namespace ≡ value ms
      → count_children d ms ≡ owned h
  count_children-owned d h ms same answer =
      let listed = rw (ap (λ k. k.namespace) same) at answer in
      count_children_lem d ms
      ∙ (ap (λ k. owned_by k.name (map references_of ms)) same
          ∙ tally-Perm (is_owned key.name) (laws.lists h ms listed))
