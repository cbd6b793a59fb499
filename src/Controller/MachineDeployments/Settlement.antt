-- ===== src/Controller/MachineDeployments/Settlement.antt =====
-- One pass over a deployment, where no call of it is refused.
use kt_cloud_operator.Common.{
  ℕ, zero, suc, ◌<>◌, ◌≤◌, ◌≡◌, refl, List, ◌∷◌, ap, ◌∙◌, none, pos, Bool-cases, inl, inr,
}
use kt_cloud_operator.Api.{ObjectMeta, KtMachine, KtMachineTemplate, MachineDeployment}
use kt_cloud_operator.Controller.Results.{done}
use kt_cloud_operator.Controller.RandomNames.Draws.{Draws, random_string-length}
use kt_cloud_operator.Controller.MachineDeployments.{
  deployment_key, differs, machines_to_create, count_children, create_machine, create_replica,
  create_replicas, new_machine, kt_machine_for_machine_deployment, reconcile_deployment, reconcile,
}
use kt_cloud_operator.Controller.MachineDeployments.Creation.{
  differs_same, listing, wanted, reconcile_deployment_lem,
}
use kt_cloud_operator.Controller.MachineDeployments.Inventory.{
  Inventory, owned_by, owned, count_children-owned,
}
use kt_cloud_operator.Controller.MachineDeployments.Convergence.{owned-reconcile_deployment}
use kt_cloud_operator.Runtime.Calls.{Call, Kind, History, Object, create, machine}
use kt_cloud_operator.Runtime.Env.{Env, value}
use kt_cloud_operator.Runtime.Effects.{ok, perform_check, check, pure}
use kt_cloud_operator.Runtime.Steps.{>>=-of_ok, catch-of_ok, perform-of_value, lift-of_value}

-- The API server answers each call of the reconciler, and the source of randomness answers.
pub record Answers (env : Env) (d : MachineDeployment) : Type 0 where
  pub deployment : (h : History) → env.get_deployment h (deployment_key d) ≡ value d
  pub template :
      (h : History) → (t : KtMachineTemplate) × (env.get_template h (deployment_key d) ≡ value t)
  pub listed :
      (h : History) → (ms : List KtMachine) × (env.list_machines h d.meta.namespace ≡ value ms)
  pub owner :
      (meta : ObjectMeta)
      → (meta' : ObjectMeta) × (env.set_controller_reference (Object.deployment d) meta
          ≡ value meta')
  pub creates : (h : History) (m : KtMachine) → env.create h (machine m) ≡ none
  pub draws : Draws env

module _ (env : Env) (d : MachineDeployment) (laws : Inventory env (deployment_key d))
    (answers : Answers env d) where
  create_machine-total :
      (m : KtMachine) (h : History) → create_machine env m h ≡ ok tt (create (machine m) ∷ h)
  unfolding create_machine perform_check check
  create_machine-total m h = rw answers.creates refl

  create_replica-total :
      (t : KtMachineTemplate) (i : ℕ) (h : History)
      → (h' : History) × (create_replica env d t i h ≡ ok tt h')
  unfolding create_replica
  create_replica-total t i h =
      let (s, drew, number, all) = random_string-length env 10 h answers.draws in
      let (meta, set) =
        answers.owner (new_machine d t i (d.meta.name <> "-" <> env.to_lower s)).meta in
      (_, >>=-of_ok _ _ drew ∙ >>=-of_ok _ _ (lift-of_value _ set) ∙ create_machine-total _ _)

  create_replicas-total :
      (t : KtMachineTemplate) (i left : ℕ) (h : History)
      → (h' : History) × (create_replicas env d t i left h ≡ ok tt h')
  unfolding create_replicas pure
  create_replicas-total t i zero h = (h, refl)
  create_replicas-total t i (suc left) h =
      let (k, one) = create_replica-total t i h in
      let (h', more) = create_replicas-total t (suc i) left k in (h', >>=-of_ok _ _ one ∙ more)

  reconcile_deployment-total :
      (h : History) → (h' : History) × (reconcile_deployment env d h ≡ ok done h')
  unfolding kt_machine_for_machine_deployment pure
  reconcile_deployment-total h =
      let (ms, seen) = answers.listed h in
      let count = count_children d ms in
      elim (Bool-cases (differs count d.spec.replicas)) [
        | inl more ↦
            let (t, found) = answers.template (listing d ∷ h) in
            let (h', made) =
              create_replicas-total t 0 (machines_to_create count d.spec.replicas)
                (Call.get Kind.template (deployment_key d) ∷ listing d ∷ h) in
            (
              h',
              rw (reconcile_deployment_lem env d seen, more)
                  (>>=-of_ok _ _ (>>=-of_ok _ _ (perform-of_value _ _ found) ∙ made)),
            )
        | inr enough ↦ (listing d ∷ h, rw (reconcile_deployment_lem env d seen, enough) refl)
      ]

  reads_deployment :
      (h : History)
      → reconcile env (deployment_key d) h
        ≡ reconcile_deployment env d (Call.get Kind.deployment (deployment_key d) ∷ h)
  unfolding reconcile
  reads_deployment h = catch-of_ok _ _ _ (perform-of_value _ _ (answers.deployment h))

  idle :
      (h : History) (r : ℕ)
      → d.spec.replicas ≡ pos r
      → owned env (deployment_key d) laws h ≡ r
      → reconcile_deployment env d h ≡ ok done (listing d ∷ h)
  unfolding pure
  idle h r asked exact =
      let (ms, seen) = answers.listed h in
      let count = count_children-owned env (deployment_key d) laws d h ms refl seen in
      rw (reconcile_deployment_lem env d seen, count, exact, asked, differs_same r) refl

  -- A deployment settles in one pass: where no call is refused and the API server reads its writes,
  -- a pass over a deployment that asks for `r` replicas and owns at most `r` machines ends without
  -- an error and leaves it with exactly `r`, and the next pass reads the deployment, lists the
  -- machines and does nothing else.
  pub reconcile-settles :
      (h : History) (r : ℕ)
      → d.spec.replicas ≡ pos r
      → owned env (deployment_key d) laws h ≤ r
      → (h' : History) × (reconcile env (deployment_key d) h ≡ ok done h')
        × (owned env (deployment_key d) laws h' ≡ r)
        × (reconcile env (deployment_key d) h'
            ≡ ok done (listing d ∷ Call.get Kind.deployment (deployment_key d) ∷ h'))
  reconcile-settles h r asked few =
      let get = Call.get Kind.deployment (deployment_key d) in
      let quiet = λ (k : History). ap (λ l. owned_by d.meta.name l) (laws.quiet get k refl) in
      let (ms, seen) = answers.listed (get ∷ h) in
      let (h', run) = reconcile_deployment-total (get ∷ h) in
      let settled : owned env (deployment_key d) laws h' ≡ r =
        owned-reconcile_deployment env d laws (get ∷ h) ms seen (rw (quiet h, ap wanted asked) few)
          run
        ∙ ap wanted asked in
      (
        h',
        reads_deployment h ∙ run,
        settled,
        reads_deployment h' ∙ idle (get ∷ h') r asked (quiet h' ∙ settled),
      )
