-- ===== src/Controller/MachineDeployments/Convergence.antt =====
-- What a pass leaves where the API server reads its writes: as many replicas as asked for.
use kt_cloud_operator.Common.{
  ℕ, zero, suc, ◌+◌, ◌≤◌, ◌≡◌, refl, List, ◌∷◌, arith, ap, ◌∙◌, Bool-cases, inl, inr,
}
use kt_cloud_operator.Api.{KtMachine, KtMachineTemplate, MachineDeployment}
use kt_cloud_operator.Controller.Results.{done}
use kt_cloud_operator.Controller.MachineDeployments.{
  deployment_key, differs, count_children, kt_machine_for_machine_deployment, reconcile_deployment,
  create_replicas, new_machine,
}
use kt_cloud_operator.Controller.MachineDeployments.Inventory.{
  Inventory, owned_by, owned, owned-create, count_children-owned,
}
use kt_cloud_operator.Controller.MachineDeployments.Replicas.{
  Round, IsRand, rand_call, create_replica-Round,
}
use kt_cloud_operator.Runtime.Calls.{Call, History, Kind, rand}
use kt_cloud_operator.Runtime.Env.{Env, value}
use kt_cloud_operator.Runtime.Effects.{ok}
use kt_cloud_operator.Runtime.Since.{Since, start, call}
use kt_cloud_operator.Runtime.Steps.{>>=-eq_ok, pure-eq_ok, perform-eq_ok}
use kt_cloud_operator.Controller.MachineDeployments.Creation.{
  wanted, listing, machines_to_create_lem, differs-false, reconcile_deployment_lem,
}

module _ (env : Env) (d : MachineDeployment) (laws : Inventory env (deployment_key d)) where
  abbrev its_owned : History → ℕ
  its_owned = owned env (deployment_key d) laws

  same_owned : {h k : History} → laws.stored h ≡ laws.stored k → its_owned h ≡ its_owned k
  same_owned same = ap (λ l. owned_by d.meta.name l) same

  owned-Since : {h h' : History} → Since IsRand h h' → its_owned h' ≡ its_owned h
  owned-Since start = refl
  owned-Since (call (rand_call n) s) = same_owned (laws.quiet (rand n) _ refl) ∙ owned-Since s

  owned-Round :
      (t : KtMachineTemplate) {h h' : History}
      → Round env d t h h'
      → its_owned h' ≡ suc (its_owned h)
  unfolding new_machine
  owned-Round t r =
      let (mine, here) = laws.sets_owner d _ _ refl r.is_replica.owned in
      ap its_owned r.sent
      ∙ (owned-create env (deployment_key d) laws r.replica r.before r.accepted here
          ∙ (rw mine refl ∙ ap suc (owned-Since r.drawn)))

  owned-create_replicas :
      (t : KtMachineTemplate) (i left : ℕ) (h : History) {h' : History}
      → create_replicas env d t i left h ≡ ok tt h'
      → its_owned h' ≡ left + its_owned h
  unfolding create_replicas
  owned-create_replicas t i zero h e =
      let same = ap its_owned (pure-eq_ok tt h e).1 in omega (arith, same)
  owned-create_replicas t i (suc left) h e =
      let (_, h₁, one, e₁) = >>=-eq_ok _ _ h e in
      let first = owned-Round t (create_replica-Round env d t i h one) in
      let others = owned-create_replicas t (suc i) left h₁ e₁ in omega (arith, first, others)

  -- A successful pass over a deployment that owns at most the replicas it asks for leaves it with
  -- exactly as many.
  pub owned-reconcile_deployment :
      (h : History) (ms : List KtMachine) {h' : History}
      → env.list_machines h d.meta.namespace ≡ value ms
      → its_owned h ≤ wanted d.spec.replicas
      → reconcile_deployment env d h ≡ ok done h'
      → its_owned h' ≡ wanted d.spec.replicas
  unfolding kt_machine_for_machine_deployment
  owned-reconcile_deployment h ms listed few e =
      let count : count_children d ms ≡ its_owned h =
        count_children-owned env (deployment_key d) laws d h ms refl listed in
      let looked : its_owned (listing d ∷ h) ≡ its_owned h =
        same_owned (laws.quiet (listing d) h refl) in
      elim (Bool-cases (differs (count_children d ms) d.spec.replicas)) [
        | inl more ↦
            let run = rw (reconcile_deployment_lem env d listed, more) at e in
            let (_, h₁, made, last) = >>=-eq_ok _ _ _ run in
            let (t, h₂, got, rest) = >>=-eq_ok _ _ _ made in
            let read : its_owned h₂ ≡ its_owned (listing d ∷ h) =
              ap its_owned (perform-eq_ok _ _ _ got).1
              ∙ same_owned (laws.quiet (Call.get Kind.template (deployment_key d)) _ refl) in
            let all = owned-create_replicas t 0 _ h₂ rest in
            let end = ap its_owned (pure-eq_ok _ h₁ last).1 in
            omega (
              arith,
              count,
              looked,
              read,
              all,
              end,
              few,
              machines_to_create_lem (count_children d ms) d.spec.replicas more,
            )
        | inr none_missing ↦
            let run = rw (reconcile_deployment_lem env d listed, none_missing) at e in
            let end = ap its_owned (pure-eq_ok _ _ run).1 in
            omega (
              arith,
              count,
              looked,
              end,
              few,
              differs-false (count_children d ms) d.spec.replicas none_missing,
            )
      ]
