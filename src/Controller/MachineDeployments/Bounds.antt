-- ===== src/Controller/MachineDeployments/Bounds.antt =====
-- How many machines a deployment owns between and behind passes of its reconciler, however they end.
use kt_cloud_operator.Common.{
  ℕ, zero, suc, ◌+◌, ◌≤◌, ◌≡◌, refl, true, ◌∷◌, ap, List, ◌∙◌, arith, sym,
}
use kt_cloud_operator.Api.{NamespacedName, KtMachine, KtMachineTemplate, MachineDeployment}
use kt_cloud_operator.Controller.Results.{done}
use kt_cloud_operator.Controller.MachineDeployments.{
  deployment_key, is_owned, new_machine, machines_to_create, create_machine, create_replica,
  create_replicas, count_children, kt_machine_for_machine_deployment, count_child_machines_by_owner,
  reconcile_deployment, reconcile,
}
use kt_cloud_operator.Controller.MachineDeployments.Replicas.{Keeps-random_string}
use kt_cloud_operator.Controller.MachineDeployments.Creation.{wanted, machines_to_create_lem}
use kt_cloud_operator.Controller.MachineDeployments.Inventory.{
  Inventory, owned_by, owned, owned-create, count_children-owned,
}
use kt_cloud_operator.Runtime.Calls.{Call, Kind, History, create, machine}
use kt_cloud_operator.Runtime.Env.{Env, value}
use kt_cloud_operator.Runtime.Effects.{history, pure, throw}
use kt_cloud_operator.Runtime.Hoare.{
  Triple, Triple-pure, Triple-throw, Triple-if, Triple-lift, Triple-bind, Triple-catch,
  Triple-after_Keeps, Triple-pre, Triple-fact, Triple-perform, Triple-perform_check, Ends-history,
}

module _ (env : Env) (key : NamespacedName) (laws : Inventory env key) where
  abbrev its_owned : History → ℕ
  its_owned = owned env key laws

  module _ (least most : ℕ) where
    -- The owned machines are between the bounds, with room for so many more.
    abbrev Between : ℕ → History → Type 0
    Between left h = (least ≤ its_owned h) × (its_owned h + left ≤ most)

    no_room : (left : ℕ) (h : History) → Between left h → Between 0 h
    no_room left h (low, high) = (low, omega (arith, high))

    same_stored :
        {h k : History} (left : ℕ) → laws.stored k ≡ laws.stored h → Between left h → Between left k
    same_stored left same between = rw same between

    create_machine-Triple :
        (m : KtMachine) (left : ℕ)
        → (is_owned key.name m.meta.owner_references ≡ true) × (m.meta.namespace ≡ key.namespace)
        → Triple (Between (suc left)) (λ _. Between left) (Between 0) (create_machine env m)
    unfolding create_machine
    create_machine-Triple m left (mine, here) =
        Triple-perform_check _ _
          (λ h accepted (low, high).
            let more : its_owned (create (machine m) ∷ h) ≡ suc (its_owned h) =
              owned-create env key laws m h accepted here ∙ rw mine refl in
            (omega (arith, low, more), omega (arith, high, more)))
          (λ h e refused between.
            same_stored 0 (laws.refused h m e refused) (no_room (suc left) h between))

    module _ (d : MachineDeployment) (same : deployment_key d ≡ key) where
      create_replica-Triple :
          (t : KtMachineTemplate) (i left : ℕ)
          → Triple (Between (suc left)) (λ _. Between left) (Between 0) (create_replica env d t i)
      unfolding create_replica new_machine
      create_replica-Triple t i left =
          Triple-after_Keeps
            (Keeps-random_string (Between (suc left))
              (λ n h between. same_stored (suc left) (laws.quiet (Call.rand n) h refl) between) env
              10)
            (no_room (suc left))
            (λ suffix.
              Triple-bind
                (Triple-lift _
                  (λ meta h answer between.
                    let (mine, here) = laws.sets_owner d _ meta same answer in
                    (between, (mine, here ∙ ap (λ k. k.namespace) same)))
                  (no_room (suc left)))
                (λ meta. Triple-fact (λ fact. create_machine-Triple _ left fact)))

      create_replicas-Triple :
          (t : KtMachineTemplate) (i left : ℕ)
          → Triple (Between left) (λ _. Between 0) (Between 0) (create_replicas env d t i left)
      unfolding create_replicas
      create_replicas-Triple t i zero = Triple-pure tt (λ h between. between)
      create_replicas-Triple t i (suc left) =
          Triple-bind (create_replica-Triple t i left) (λ _. create_replicas-Triple t (suc i) left)

      missing-Triple :
          (count : ℕ)
          → Triple
              (Between (machines_to_create count d.spec.replicas))
              (λ _. Between 0)
              (Between 0)
              (kt_machine_for_machine_deployment env d count)
      unfolding kt_machine_for_machine_deployment
      missing-Triple count =
          let left = machines_to_create count d.spec.replicas in
          Triple-bind
            (Triple-perform {Q = λ t. Between left} _ _
              (λ h t answer between. same_stored left (laws.quiet _ h refl) between)
              (λ h between. same_stored 0 (laws.quiet _ h refl) (no_room left h between)))
            (λ t. create_replicas-Triple t 0 left)

      listed-owned :
          (h : History) (ms : List KtMachine)
          → env.list_machines h d.meta.namespace ≡ value ms
          → count_children d ms ≡ its_owned (Call.list Kind.machine d.meta.namespace ∷ h)
      listed-owned h ms answer =
          count_children-owned env key laws d h ms same answer
          ∙ ap (λ l. owned_by key.name l)
              (sym (laws.quiet (Call.list Kind.machine d.meta.namespace) h refl))

      count-Triple :
          Triple
            (Between 0)
            (λ count h. Between 0 h × (count ≡ its_owned h))
            (Between 0)
            (count_child_machines_by_owner env d)
      unfolding count_child_machines_by_owner
      count-Triple =
          Triple-bind
            (Triple-perform {Q = λ ms h. Between 0 h × (count_children d ms ≡ its_owned h)} _ _
              (λ h ms answer between.
                (same_stored 0 (laws.quiet _ h refl) between, listed-owned h ms answer))
              (λ h between. same_stored 0 (laws.quiet _ h refl) between))
            (λ ms. Triple-pure _ (λ h found. found))

      reconcile_deployment-Triple :
          wanted d.spec.replicas ≤ most
          → Triple (Between 0) (λ _. Between 0) (Between 0) (reconcile_deployment env d)
      unfolding reconcile_deployment
      reconcile_deployment-Triple few =
          Triple-catch count-Triple
            (λ count.
              Triple-if _ _ _
                (λ more.
                  Triple-bind
                    (Triple-pre
                      (λ h (between, counted). (
                        between.0,
                        omega (
                          arith,
                          between.1,
                          counted,
                          few,
                          machines_to_create_lem count d.spec.replicas more,
                        ),
                      ))
                      (missing-Triple count))
                    (λ _. Triple-pure _ (λ h between. between)))
                (λ enough. Triple-pure _ (λ h found. found.0)))
            (λ e. Triple-pure _ (λ h between. between))

    reconcile-Triple :
        ((h : History) (d : MachineDeployment)
          → env.get_deployment h key ≡ value d
          → wanted d.spec.replicas ≤ most)
        → Triple (Between 0) (λ _. Between 0) (Between 0) (reconcile env key)
    unfolding reconcile
    reconcile-Triple asked =
        Triple-catch
          (Triple-perform
            {Q = λ d h. Between 0 h × ((deployment_key d ≡ key) × (wanted d.spec.replicas ≤ most))}
            _ _
            (λ h d answer between. (
              same_stored 0 (laws.quiet _ h refl) between,
              (laws.by_key h d answer, asked h d answer),
            ))
            (λ h between. same_stored 0 (laws.quiet _ h refl) between))
          (λ d. Triple-fact (λ (same, few). reconcile_deployment-Triple d same few))
          (λ e.
            Triple-if e.not_found (pure done) (throw e) (λ _. Triple-pure _ (λ h between. between))
              (λ _. Triple-throw _ (λ h between. between)))

  -- The calls so far, once passes over the deployment have run, with calls of others between them
  -- that leave the number of machines that it owns alone.
  pub data Deploys (h : History) : History → Type 0 where
    start : Deploys h h
    pass : {h' : History} → Deploys h h' → Deploys h (history (reconcile env key h'))
    other :
        {h' : History} (c : Call)
        → its_owned (c ∷ h') ≡ its_owned h'
        → Deploys h h'
        → Deploys h (c ∷ h')

  Deploys-Between :
      (least most : ℕ) {h h' : History}
      → ((k : History) (d : MachineDeployment)
          → env.get_deployment k key ≡ value d
          → wanted d.spec.replicas ≤ most)
      → Between least most 0 h
      → Deploys h h'
      → Between least most 0 h'
  Deploys-Between least most asked between Deploys.start = between
  Deploys-Between least most asked between (Deploys.pass {h' = k} before) =
      Ends-history (Between least most 0) (reconcile env key k)
        ((reconcile-Triple least most asked).at k (Deploys-Between least most asked between before))
  Deploys-Between least most asked between (Deploys.other c same before) =
      rw same (Deploys-Between least most asked between before)

  -- A deployment is never left with more machines than it asked for, nor with fewer than it had:
  -- over any number of passes of its reconciler, whatever is refused or fails in them, and of calls
  -- of others that leave the number of its machines alone, that number does not go down, and stays
  -- within every bound that it was within at first and that the replicas asked for are within at
  -- each read of the deployment. The API server reads its writes, and a creation that it refuses
  -- stores nothing.
  pub Deploys-bounded :
      (most : ℕ) {h h' : History}
      → ((k : History) (d : MachineDeployment)
          → env.get_deployment k key ≡ value d
          → wanted d.spec.replicas ≤ most)
      → its_owned h ≤ most
      → Deploys h h'
      → (its_owned h ≤ its_owned h') × (its_owned h' ≤ most)
  Deploys-bounded most {h} {h'} asked few deploys =
      let (low, high) =
        Deploys-Between (its_owned h) most asked (omega arith, omega (arith, few)) deploys in
      (low, omega (arith, high))
