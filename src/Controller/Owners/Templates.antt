-- ===== src/Controller/Owners/Templates.antt =====
-- Which templates the reconciler of `KTCluster`s reads and stores.
use kt_cloud_operator.Common.{
  String, ◌<>◌, ◌≡◌, refl, Bool, true, false, Option, none, some, ◌∷◌, ◌⊎◌, inl, inr,
}
use kt_cloud_operator.Api.{ObjectMeta, NamespacedName, KtCluster, KtMachineTemplate}
use kt_cloud_operator.Controller.Results.{done}
use kt_cloud_operator.Controller.Owners.{
  update_object, kt_cluster_for_machine_template, fetch_machine_template, reconcile_kt_cluster,
}
use kt_cloud_operator.Runtime.Calls.{Error, Object, Kind, Call, History}
use kt_cloud_operator.Runtime.Env.{Env, Result, value, failure}
use kt_cloud_operator.Runtime.Effects.{
  ok, err, continue, pure, throw, lift, check, perform, perform_check, catch, ◌>>=◌,
}

module _ (env : Env) (c : KtCluster) where
  abbrev pub template_key : String → NamespacedName
  template_key suffix = record { name = c.meta.name <> suffix; namespace = c.meta.namespace }

  abbrev pub read_call : String → Call
  read_call suffix = Call.get Kind.template (template_key suffix)

  abbrev pub owned_call : KtMachineTemplate → ObjectMeta → Call
  owned_call t meta = Call.update (Object.template (record t { meta = meta }))

  -- What becomes of the template with the suffix, whether it was found, and the calls then made:
  -- it cannot be read; it cannot get its owner; or it is sent with the cluster as its owner, its
  -- specification unchanged, whatever the API server answers.
  pub data Visit (suffix : String) (h : History) : Bool → History → Type 0 where
    missing :
        (e : Error)
        → env.get_template h (template_key suffix) ≡ failure e
        → Visit suffix h false (read_call suffix ∷ h)
    unowned :
        (t : KtMachineTemplate) (e : Error)
        → env.get_template h (template_key suffix) ≡ value t
        → env.set_controller_reference (Object.kt_cluster c) t.meta ≡ failure e
        → Visit suffix h true (read_call suffix ∷ h)
    owned :
        (t : KtMachineTemplate) (meta : ObjectMeta)
        → env.get_template h (template_key suffix) ≡ value t
        → env.set_controller_reference (Object.kt_cluster c) t.meta ≡ value meta
        → Visit suffix h true (owned_call t meta ∷ read_call suffix ∷ h)

  -- The control plane's template, and behind it, if it was found, the workers'.
  pub data Visits (h : History) : History → Type 0 where
    first_missing : {h' : History} → Visit "-control-plane" h false h' → Visits h h'
    both :
        {h₁ h' : History} {found : Bool}
        → Visit "-control-plane" h true h₁
        → Visit "-md-0" h₁ found h'
        → Visits h h'

  -- A fetch that found the template, or one that did not.
  abbrev Fetched : String → History → Type 0
  Fetched suffix h =
      ((t : KtMachineTemplate) × (h' : History) × (fetch_machine_template env c suffix h ≡ ok t h')
        × Visit suffix h true h')
      ⊎ ((e : Error) × (h' : History) × (fetch_machine_template env c suffix h ≡ err e h')
          × Visit suffix h false h')

  sent_anyway :
      (t : KtMachineTemplate) (x : Option Error) (k : History)
      → continue (check x k) (λ (_ : Unit {0}). pure t) (λ _. pure t) ≡ ok t k
  unfolding check pure
  sent_anyway t none k = refl
  sent_anyway t (some e) k = refl

  found_at :
      (suffix : String) (h : History) (t : KtMachineTemplate) (r : Result ObjectMeta)
      → env.get_template h (template_key suffix) ≡ value t
      → env.set_controller_reference (Object.kt_cluster c) t.meta ≡ r
      → Fetched suffix h
  unfolding fetch_machine_template kt_cluster_for_machine_template update_object perform lift
      perform_check catch throw pure ◌>>=◌
  found_at suffix h t (failure e) got set =
      inl (t, read_call suffix ∷ h, rw (got, set) refl, Visit.unowned t e got set)
  found_at suffix h t (value meta) got set = inl (
    t,
    owned_call t meta ∷ read_call suffix ∷ h,
    rw (got, set)
        (sent_anyway t
          (env.update (read_call suffix ∷ h) (Object.template (record t { meta = meta })))
          (owned_call t meta ∷ read_call suffix ∷ h)),
    Visit.owned t meta got set,
  )

  fetch_at :
      (suffix : String) (h : History) (r : Result KtMachineTemplate)
      → env.get_template h (template_key suffix) ≡ r
      → Fetched suffix h
  unfolding fetch_machine_template perform lift throw ◌>>=◌
  fetch_at suffix h (value t) got = found_at suffix h t _ got refl
  fetch_at suffix h (failure e) got =
      inr (e, read_call suffix ∷ h, rw got refl, Visit.missing e got)

  second_at :
      (h h₁ : History) (t : KtMachineTemplate)
      → fetch_machine_template env c "-control-plane" h ≡ ok t h₁
      → Visit "-control-plane" h true h₁
      → Fetched "-md-0" h₁
      → (h' : History) × (reconcile_kt_cluster env c h ≡ ok done h') × Visits h h'
  unfolding reconcile_kt_cluster catch pure throw ◌>>=◌
  second_at h h₁ t e v (inl (u, h', e₁, w)) = (h', rw (e, e₁) refl, Visits.both v w)
  second_at h h₁ t e v (inr (x, h', e₁, w)) = (h', rw (e, e₁) refl, Visits.both v w)

  first_at :
      (h : History)
      → Fetched "-control-plane" h
      → (h' : History) × (reconcile_kt_cluster env c h ≡ ok done h') × Visits h h'
  unfolding reconcile_kt_cluster catch pure throw ◌>>=◌
  first_at h (inl (t, h₁, e, v)) = second_at h h₁ t e v (fetch_at "-md-0" h₁ _ refl)
  first_at h (inr (x, h', e, v)) = (h', rw e refl, Visits.first_missing v)

-- The reconciler of a `KTCluster` is done on every answer, and these are its calls: it reads the
-- control plane's template, and, only where that is found, the workers' template; each template
-- that is found and can get the cluster as its owner is sent with it in an update, its
-- specification unchanged, right behind its read. No answer to such an update matters, and a
-- template that cannot be read is not asked for again.
pub reconcile_kt_cluster-Visits :
    (env : Env) (c : KtCluster) (h : History)
    → (h' : History) × (reconcile_kt_cluster env c h ≡ ok done h') × Visits env c h h'
reconcile_kt_cluster-Visits env c h = first_at env c h (fetch_at env c "-control-plane" h _ refl)
