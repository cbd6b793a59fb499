-- ===== src/Controller/Lookup/Logins.antt =====
-- What a login of cmd/httpapi/login.go changes for the machines' reconciler, which reads its token
-- under the name of the machine's cluster.
use kt_cloud_operator.Common.{
  String, ◌≡◌, refl, ◌∙◌, ap, Bool, true, false, ◌&&◌, ◌==◌, Option, none, some, ◌∷◌, if◌then◌else◌,
  Bool-cases, inl, inr,
}
use kt_cloud_operator.Api.{NamespacedName, KtMachine, KtCluster, KtSubjectToken}
use kt_cloud_operator.Controller.Lookup.{
  cluster_key, token_key, get_machine_associated_cluster, get_subject_token,
}
use kt_cloud_operator.Httpapi.Login.{
  token_name, assert, token_object, store_token, create_token_object, handle_login, kt_cloud_login,
}
use kt_cloud_operator.Httpapi.Send.Silent.{silent_rules}
use kt_cloud_operator.Runtime.Calls.{
  Object, Response, errors_new, Call, History, create, update, update_status, delete,
}
use kt_cloud_operator.Runtime.Env.{Env, Result, value, failure}
use kt_cloud_operator.Runtime.Effects.{Run, ok, err, panic, exit, history, lift, ◌>>=◌}
use kt_cloud_operator.Runtime.Keeps.{Keeps, Allows, keeps_rules}
use kt_cloud_operator.Runtime.Hoare.{
  Keeps-of_Triple, Triple-catch, Triple-perform, Triple-fact, Triple-of_Keeps,
}

-- The token's object with a key, or a cluster's object.
abbrev pub is_read : NamespacedName → Object → Bool
is_read key (Object.token t) = t.meta.name == key.name && t.meta.namespace == key.namespace
is_read key (Object.kt_cluster c) = true
is_read key _ = false

-- Can the call change what a machine finds under its cluster's name?
abbrev pub disturbs : NamespacedName → Call → Bool
disturbs key (create o) = is_read key o
disturbs key (update o) = is_read key o
disturbs key (update_status o) = is_read key o
disturbs key (delete o) = is_read key o
disturbs key _ = false

-- How the API server keeps tokens and clusters: under their keys, where a call on another object
-- changes nothing.
pub record KeepsTokens (env : Env) : Type 0 where
  pub by_key :
      (h : History) (key : NamespacedName) (t : KtSubjectToken)
      → env.get_token h key ≡ value t
      → (t.meta.name ≡ key.name) × (t.meta.namespace ≡ key.namespace)
  pub token_stays :
      (key : NamespacedName) (c : Call) (h : History)
      → disturbs key c ≡ false
      → env.get_token (c ∷ h) key ≡ env.get_token h key
  pub cluster_stays :
      (key cluster : NamespacedName) (c : Call) (h : History)
      → disturbs key c ≡ false
      → env.get_kt_cluster (c ∷ h) cluster ≡ env.get_kt_cluster h cluster

module _ (env : Env) (laws : KeepsTokens env) (key : NamespacedName)
    (apart : (token_name.name == key.name && token_name.namespace == key.namespace) ≡ false)
    (P : History → Type 0) (safe : (c : Call) → disturbs key c ≡ false → Allows P c) where
  Keeps-store_token :
      (token : KtSubjectToken)
      → is_read key (Object.token token) ≡ false
      → Keeps P (store_token env token)
  unfolding store_token
  Keeps-store_token token other = Keeps-of_Triple (
      Triple-catch
        (Triple-perform
          {Q = λ t h.
            P h × ((t.meta.name ≡ token_name.name) × (t.meta.namespace ≡ token_name.namespace))}
          _ _ (λ h t answer p. (safe _ refl h p, laws.by_key h token_name t answer))
          (λ h p. safe _ refl h p))
        (λ existing. Triple-fact (λ (name, namespace).
          let same : is_read key (Object.token existing) ≡ false = rw (name, namespace) apart in
          Triple-of_Keeps (search (keeps_rules, safe, same)) (λ a h p. p) (λ h p. p)))
        (λ e. Triple-of_Keeps (search (keeps_rules, safe, other)) (λ a h p. p) (λ h p. p)))

  Keeps-assert : {A : Type 0} (a : Option A) → Keeps P (assert a)
  Keeps-assert none = search keeps_rules
  Keeps-assert (some a) = search keeps_rules

  Keeps-create_token_object : (s body : String) → Keeps P (create_token_object env s body)
  unfolding create_token_object token_object
  Keeps-create_token_object s body =
      search (silent_rules, Keeps-assert, Keeps-store_token, apart) depth 12

  Keeps-handle_login : (r : Response) → Keeps P (handle_login env r)
  unfolding handle_login
  Keeps-handle_login r = search (silent_rules, Keeps-create_token_object) depth 9

  Keeps-kt_cloud_login : Keeps P (kt_cloud_login env)
  unfolding kt_cloud_login
  Keeps-kt_cloud_login = search (silent_rules, safe, refl, Keeps-handle_login) depth 9

-- The value or the `error` that a run returns, without the calls that it made.
abbrev pub returned : {A : Type 0} → Run A → Option (Result A)
returned (ok a h) = some (value a)
returned (err e h) = some (failure e)
returned (panic s h) = none
returned (exit h) = none

returned-lift : {A : Type 0} (r : Result A) (h : History) → returned (lift r h) ≡ some r
unfolding lift
returned-lift (value a) h = refl
returned-lift (failure e) h = refl

module _ (env : Env) (laws : KeepsTokens env) (m : KtMachine) (c : KtCluster) where
  -- What a machine whose cluster is stored gets.
  get_subject_token_lem :
      (h : History)
      → env.get_kt_cluster h (cluster_key m) ≡ value c
      → returned (get_subject_token env m h) ≡ (
          if c.meta.name == ""
          then some (failure (errors_new "failed to retrieve cluster for machine"))
          else some (env.get_token h (token_key m c)))
  unfolding get_subject_token get_machine_associated_cluster ◌>>=◌
  get_subject_token_lem h found = elim (Bool-cases (c.meta.name == "")) [
    | inl blank ↦ rw (found, blank) refl
    | inr named ↦
        rw (found, named) (returned-lift _ _ ∙ ap some (laws.token_stays (token_key m c) _ h refl))
  ]

  -- A login changes nothing for a machine: whatever its outcome, the machine's reconciler gets the
  -- token, or the error, that it would have got without it, since the login keeps its token in the
  -- object `ktcloudtoken` of the namespace `default` and the reconciler reads the one with the name
  -- of the machine's cluster. The cluster is stored and has another name, or the machine is in
  -- another namespace, and the API server keeps tokens and clusters under their keys.
  pub get_subject_token-login_free :
      (h : History)
      → env.get_kt_cluster h (cluster_key m) ≡ value c
      → (token_name.name == c.meta.name && token_name.namespace == m.meta.namespace) ≡ false
      → returned (get_subject_token env m (history (kt_cloud_login env h)))
        ≡ returned (get_subject_token env m h)
  get_subject_token-login_free h found apart =
      let (token, cluster) =
        (Keeps-kt_cloud_login env laws (token_key m c) apart
            (λ k.
              (env.get_token k (token_key m c) ≡ env.get_token h (token_key m c))
              × (env.get_kt_cluster k (cluster_key m) ≡ env.get_kt_cluster h (cluster_key m)))
            (λ call other k (token, cluster). (
              laws.token_stays (token_key m c) call k other ∙ token,
              laws.cluster_stays (token_key m c) (cluster_key m) call k other ∙ cluster,
            ))).at
          h (refl, refl) in
      rw (get_subject_token_lem _ (cluster ∙ found), get_subject_token_lem h found, token) refl
