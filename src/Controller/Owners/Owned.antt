-- ===== src/Controller/Owners/Owned.antt =====
-- What the reconcilers of owner references have stored when they are done.
use kt_cloud_operator.Common.{
  ◌≡◌, ◌∙◌, sym, refl, ap, ◌∷◌, none, if◌then◌else◌, Bool-cases, inl, inr,
}
use kt_cloud_operator.Api.{
  ObjectMeta, NamespacedName, Cluster, KtCluster, KtMachineTemplate, MachineDeployment,
}
use kt_cloud_operator.Controller.Results.{done, requeue}
use kt_cloud_operator.Controller.Owners.{
  update_object, kt_cluster_for_cluster, reconcile_cluster, template_for_deployment,
  reconcile_template,
}
use kt_cloud_operator.Runtime.Calls.{Error, Object, Kind, Call, History}
use kt_cloud_operator.Runtime.Env.{Env, value}
use kt_cloud_operator.Runtime.Effects.{ok, pure, throw, catch, lift, ◌>>=◌}
use kt_cloud_operator.Runtime.Steps.{
  >>=-eq_ok, catch-eq_ok, lift-eq_ok, perform-eq_ok, perform_check-eq_ok, pure-eq_ok,
}

-- `child` was found, `owner` was set on its metadata, and `owned` of the new metadata is the last object
-- that was stored, behind the one read.
pub record Owned (env : Env) (owner : Object) (read : Call) (h h' : History) (meta : ObjectMeta)
    (owned : ObjectMeta → Object) : Type 0 where
  pub new_meta : ObjectMeta
  pub is_set : env.set_controller_reference owner meta ≡ value new_meta
  pub accepted : env.update (read ∷ h) (owned new_meta) ≡ none
  pub last : h' ≡ Call.update (owned new_meta) ∷ read ∷ h

later_not_done : {A : Type 0} (k : History) {h' : History} → pure (requeue 60) k ≡ ok done h' → A
unfolding pure
later_not_done k e = cc

module _ (env : Env) (owner : Object) (meta : ObjectMeta) (owned : ObjectMeta → Object)
    (read : Call) (h : History) where
  set-Owned :
      {h' : History}
      → (lift (env.set_controller_reference owner meta) >>= λ n. update_object env (owned n))
          (read ∷ h)
        ≡ ok tt h'
      → Owned env owner read h h' meta owned
  unfolding update_object
  set-Owned e =
      let (n, h₁, set, e₁) = >>=-eq_ok {A = ObjectMeta} _ _ (read ∷ h) e in
      let (answer, same) = lift-eq_ok _ _ set in
      let (accepted, last) = perform_check-eq_ok _ _ h₁ e₁ in
      record {
        new_meta = n;
        is_set = answer;
        accepted = ap (λ k. env.update k (owned n)) (sym same) ∙ accepted;
        last = last ∙ ap (λ k. Call.update (owned n) ∷ k) same;
      }

  stored-Owned :
      {h' : History}
      → catch
          (lift (env.set_controller_reference owner meta) >>= λ n. update_object env (owned n))
          (λ _. pure done)
          (λ _. pure (requeue 60))
          (read ∷ h)
        ≡ ok done h'
      → Owned env owner read h h' meta owned
  stored-Owned e = elim (catch-eq_ok {A = Unit {0}} _ _ _ (read ∷ h) e) [
    | inl (_, h₁, set, last) ↦ set-Owned (set ∙ ap (λ k. ok tt k) (sym (pure-eq_ok _ h₁ last).1))
    | inr (x, h₁, _, last) ↦ later_not_done h₁ last
  ]

missing_not_done :
    {A : Type 0} (x : Error) (k : History) {h' : History}
    → (if x.not_found then pure (requeue 60) else throw x) k ≡ ok done h'
    → A
unfolding throw
missing_not_done x k e = elim (Bool-cases x.not_found) [
  | inl absent ↦ later_not_done k (rw absent at e)
  | inr other ↦ let never = rw other at e in cc
]

-- A cluster that is reconciled owns its `KTCluster`: where the reconciler is done, and does not ask
-- to run again, it has read the `KTCluster` with the cluster's name and namespace, set the cluster
-- as its owner, and stored it with the new metadata and its own specification, in two calls.
pub reconcile_cluster-owns :
    (env : Env) (c : Cluster) (h : History) {h' : History}
    → reconcile_cluster env c h ≡ ok done h'
    → (key : NamespacedName) × (k : KtCluster) × (key.name ≡ c.meta.name)
      × (key.namespace ≡ c.meta.namespace)
      × (env.get_kt_cluster h key ≡ value k)
      × Owned env
          (Object.cluster c)
          (Call.get Kind.kt_cluster key)
          h
          h'
          k.meta
          (λ n. Object.kt_cluster (record k { meta = n }))
unfolding reconcile_cluster kt_cluster_for_cluster
reconcile_cluster-owns env c h {h'} e = elim (catch-eq_ok {A = KtCluster} _ _ _ h e) [
  | inl (k, h₁, got, e₁) ↦
      let (answer, same) = perform-eq_ok _ _ h got in
      (_, k, refl, refl, answer, stored-Owned env _ _ _ _ h (rw same at e₁))
  | inr (x, h₁, _, e₁) ↦ missing_not_done x h₁ e₁
]

-- A template that is reconciled owns its deployment: where the reconciler is done, and does not ask
-- to run again, it has read the deployment with the template's name and namespace, set the template
-- as its owner, and stored it with the new metadata and its own specification, in two calls.
pub reconcile_template-owns :
    (env : Env) (t : KtMachineTemplate) (h : History) {h' : History}
    → reconcile_template env t h ≡ ok done h'
    → (key : NamespacedName) × (d : MachineDeployment) × (key.name ≡ t.meta.name)
      × (key.namespace ≡ t.meta.namespace)
      × (env.get_deployment h key ≡ value d)
      × Owned env
          (Object.template t)
          (Call.get Kind.deployment key)
          h
          h'
          d.meta
          (λ n. Object.deployment (record d { meta = n }))
unfolding reconcile_template template_for_deployment
reconcile_template-owns env t h {h'} e = elim (catch-eq_ok {A = MachineDeployment} _ _ _ h e) [
  | inl (d, h₁, got, e₁) ↦
      let (answer, same) = perform-eq_ok _ _ h got in
      (_, d, refl, refl, answer, stored-Owned env _ _ _ _ h (rw same at e₁))
  | inr (x, h₁, _, e₁) ↦ missing_not_done x h₁ e₁
]
