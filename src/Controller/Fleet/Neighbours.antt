-- ===== src/Controller/Fleet/Neighbours.antt =====
-- What the API server does with the machines beside a deployment's own, and passes over machines.
use kt_cloud_operator.Common.{String, ◌≡◌, refl, ap, false, ◌==◌, ◌∷◌}
use kt_cloud_operator.Api.{ObjectMeta, NamespacedName, KtMachine, MachineDeployment}
use kt_cloud_operator.Httpapi.Plain.{writes_machine, unwritten}
use kt_cloud_operator.Controller.KtMachines as KtMachines
use kt_cloud_operator.Controller.MachineDeployments.{deployment_key, is_owned}
use kt_cloud_operator.Controller.MachineDeployments.Inventory.{Inventory, owned_by, owned}
use kt_cloud_operator.Controller.MachineDeployments.Bounds.{Deploys}
use kt_cloud_operator.Controller.Lifecycle.{Lifecycle, AnyCluster, Same}
use kt_cloud_operator.Controller.Lifecycle.Rules.{Rules}
use kt_cloud_operator.Controller.Lifecycle.Joins
use kt_cloud_operator.Controller.Lifecycle.Passes.{reconcile-Triple}
use kt_cloud_operator.Runtime.Calls.{Call, History, Object, create, update_status, machine}
use kt_cloud_operator.Runtime.Env.{Env, value}
use kt_cloud_operator.Runtime.Effects.{history}
use kt_cloud_operator.Runtime.Keeps.{Allows}
use kt_cloud_operator.Runtime.Hoare.{Ends-history}

-- What is assumed of the API server and of `SetControllerReference` beside the deployment's
-- machines: the status of a machine names no owner, a creation in another namespace stores nothing
-- in this one, deployments are read under their keys, and the reference that is set names no other
-- deployment and leaves the namespace alone. A status write is answered with what was sent.
pub record Neighbours (env : Env) (key : NamespacedName) (laws : Inventory env key) : Type 0 where
  pub renewed :
      (n : KtMachine) (h : History)
      → owned env key laws (update_status (machine n) ∷ h) ≡ owned env key laws h
  pub elsewhere :
      (m : KtMachine) (h : History)
      → (m.meta.namespace == key.namespace) ≡ false
      → laws.stored (create (machine m) ∷ h) ≡ laws.stored h
  pub by_key :
      (h : History) (own : NamespacedName) (d : MachineDeployment)
      → env.get_deployment h own ≡ value d
      → deployment_key d ≡ own
  pub owners :
      (d : MachineDeployment) (meta meta' : ObjectMeta)
      → env.set_controller_reference (Object.deployment d) meta ≡ value meta'
      → (meta'.namespace ≡ meta.namespace)
        × ((name : String)
            → (d.meta.name == name) ≡ false
            → is_owned name meta'.owner_references ≡ is_owned name meta.owner_references)
  pub answers : (n k : KtMachine) (h : History) → env.update_machine_status h n ≡ value k → Same n k

abbrev Anything : History → KtMachine → Type 0
Anything h m = Unit {0}

Anything-Lifecycle : (env : Env) → Lifecycle env Anything AnyCluster
Anything-Lifecycle env = record {
  owns = λ h m c e p. tt;
  later = λ c h m p. tt;
  same = λ h m n same p. tt;
  created = λ s h m answer p. tt;
  refreshed = λ s h m answer other p. tt;
  assigned = λ private ip nat h m p. tt;
  marked = λ h k m unattached q mark address p. tt;
  finished = λ h m c waits own made p. tt;
}

module _ (env : Env) (key : NamespacedName) (laws : Inventory env key) where
  -- Calls that leave the number of the deployment's machines alone.
  pub data Idle (h : History) : History → Type 0 where
    start : Idle h h
    call :
        {c : Call} {k : History}
        → owned env key laws (c ∷ k) ≡ owned env key laws k
        → Idle h k
        → Idle h (c ∷ k)

  pub Deploys-Idle :
      {h h' k : History} → Deploys env key laws h h' → Idle h' k → Deploys env key laws h k
  Deploys-Idle deploys Idle.start = deploys
  Deploys-Idle deploys (Idle.call {c = c} same idle) =
      Deploys.other c same (Deploys-Idle deploys idle)

  pub unwritten-Idle : (h : History) (c : Call) → writes_machine c ≡ false → Allows (Idle h) c
  unwritten-Idle h c e k idle = Idle.call (ap (λ l. owned_by key.name l) (laws.quiet c k e)) idle

  module _ (beside : Neighbours env key laws) where
    -- The passes over machines.
    Anything-Rules : (own : NamespacedName) (h : History) → Rules env own (Idle h) Anything
    Anything-Rules own h = record {
      reads = λ k m e idle. tt;
      plain = λ c e k idle. unwritten-Idle h c (unwritten c e) k idle;
      posts = λ q k idle. unwritten-Idle h _ refl k idle;
      written = λ n k idle good. Idle.call (beside.renewed n k) idle;
      answers = beside.answers;
    }

    pub machine_pass-Idle :
        (own : NamespacedName) (h : History) → Idle h (history (KtMachines.reconcile env own h))
    machine_pass-Idle own h =
        let rules = Anything-Rules own h in
        let any = Anything-Lifecycle env in
        Ends-history (Idle h) (KtMachines.reconcile env own h) (
          (reconcile-Triple env own (Idle h) Anything AnyCluster any rules
              (Joins.unconditional env own (Idle h) Anything AnyCluster any rules (λ k m p. tt))).at
            h Idle.start)
