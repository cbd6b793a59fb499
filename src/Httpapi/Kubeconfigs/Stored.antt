-- ===== src/Httpapi/Kubeconfigs/Stored.antt =====
-- What a change of the kubeconfig's domain leaves in the secret.
use text.Mathlib.TextEquality.{eq_iff}
use mathlib.Core.List.{Perm}
use kt_cloud_operator.Common.{
  ap, String, ◌==◌, ◌≡◌, refl, sym, ◌∙◌, false, if◌then◌else◌, List, [], ◌∷◌, Option, none, some,
  Bool-cases, inl, inr,
}
use kt_cloud_operator.Httpapi.Kubeconfigs.{
  value_of, put_value, set_value, wrapped, change_servers, change_kubeconfig_domain,
}
use kt_cloud_operator.Runtime.Calls.{Secret, Object, Call, History}
use kt_cloud_operator.Runtime.Env.{Env, value, Kubeconfig}
use kt_cloud_operator.Runtime.Effects.{M, ok, throw, panics}
use kt_cloud_operator.Runtime.Steps.{
  >>=-eq_ok, gets-eq_ok, catch-eq_ok, pure-eq_ok, lift-eq_ok, perform-eq_ok, perform_check-eq_ok,
}

-- What a key of the secret holds.
abbrev pub lookup : String → List (String × String) → Option String
lookup key [] = none
lookup key ((k, v) ∷ rest) = let later = lookup key rest in if k == key then some v else later

value_of-put_value :
    (text : String) (values : List (String × String)) → value_of (put_value text values) ≡ text
unfolding value_of put_value
value_of-put_value text [] = refl
value_of-put_value text ((k, v) ∷ rest) = elim (Bool-cases (k == "value")) [
  | inl this ↦ rw this refl
  | inr another ↦ rw another (rw another (value_of-put_value text rest))
]

-- All other keys keep what they hold.
lookup-put_value :
    (key text : String) (values : List (String × String))
    → ("value" == key) ≡ false
    → lookup key (put_value text values) ≡ lookup key values
unfolding put_value
lookup-put_value key text [] e = rw e refl
lookup-put_value key text ((k, v) ∷ rest) e = elim (Bool-cases (k == "value")) [
  | inl this ↦ rw this (let same = (eq_iff k "value").0 this in rw (same, e) refl)
  | inr another ↦ rw another (elim (Bool-cases (k == key)) [
    | inl here ↦ rw here refl
    | inr there ↦ rw there (lookup-put_value key text rest e)
  ])
]

wrapped-eq_ok :
    {A : Type 0} (text : String) (m : M A) (h : History) {a : A} {h' : History}
    → wrapped text m h ≡ ok a h'
    → m h ≡ ok a h'
unfolding throw
wrapped-eq_ok text m h e = elim (catch-eq_ok m _ _ h e) [
  | inl (x, k, run, returned) ↦
      let (same, calls) = pure-eq_ok x k returned in run ∙ (λ i. ok (same i) (sym calls i))
  | inr (x, k, run, thrown) ↦ cc
]

same_run :
    {A B : Type 0} (f : A → M B) {a a' : A} {b : B} {h k k' l : History}
    → a ≡ a'
    → k ≡ h
    → l ≡ k'
    → f a' k ≡ ok b k'
    → f a h ≡ ok b l
same_run f {b = b} p q r run = (λ i. f (p i) (sym q i)) ∙ run ∙ (λ i. ok b (sym r i))

set_value-eq_ok :
    (text : String) (values : List (String × String)) (h : History)
    {written : List (String × String)} {h' : History}
    → set_value text values h ≡ ok written h'
    → (written ≡ put_value text values) × (h' ≡ h)
unfolding set_value panics
set_value-eq_ok text [] h e = (cc, cc)
set_value-eq_ok text (entry ∷ values) h e =
    let (same, calls) = pure-eq_ok _ h e in (sym same, calls)

-- What a kubeconfig that is marshalled is unmarshalled to: the clusters are a map, whose order is
-- not kept.
pub record IsSame (k again : Kubeconfig) : Type 0 where
  pub clusters : Perm again.clusters k.clusters
  pub others : again.others ≡ k.others

-- The secret as it was read, the kubeconfig in it, and the secret as it is written.
pub record Moved (env : Env) (name namespace domain : String) (h h' : History) : Type 0 where
  pub secret : Secret
  pub read : env.get_secret h (record { name = name; namespace = namespace }) ≡ value secret
  pub raw : String
  pub decoded : env.base64_decode (value_of secret.values) ≡ value raw
  pub kubeconfig : Kubeconfig
  pub unmarshalled : env.unmarshal_kubeconfig raw ≡ value kubeconfig
  -- the clusters in the order of this visit of the map, and what the loop makes of them
  pub start : History
  pub before : History
  pub clusters : List (String × String)
  pub moved :
      change_servers env domain (env.range_clusters start kubeconfig.clusters) start
      ≡ ok clusters before
  pub written : Secret
  pub last : h' ≡ Call.update (Object.secret written) ∷ before
  pub accepted : env.update before (Object.secret written) ≡ none
  pub meta : written.meta ≡ secret.meta
  pub others :
      (key : String)
      → ("value" == key) ≡ false
      → lookup key written.values ≡ lookup key secret.values
  pub again : Kubeconfig
  pub stored : env.unmarshal_kubeconfig (value_of written.values) ≡ value again
  pub same : IsSame (record kubeconfig { clusters = clusters }) again

-- A change of the domain that succeeds is there to be read: the last call updates the secret, and
-- its kubeconfig's text decodes to the kubeconfig that was read with the servers that the loop has
-- moved, up to the order of the clusters, its metadata and its other keys being as they were. A
-- kubeconfig that is marshalled is unmarshalled to itself, up to that order.
pub change_kubeconfig_domain-Moved :
    (env : Env) (name namespace domain : String) (h h' : History)
    → ((k : Kubeconfig) (text : String)
        → env.marshal_kubeconfig k ≡ value text
        → (again : Kubeconfig) × (env.unmarshal_kubeconfig text ≡ value again) × IsSame k again)
    → change_kubeconfig_domain env name namespace domain h ≡ ok tt h'
    → Moved env name namespace domain h h'
unfolding change_kubeconfig_domain
change_kubeconfig_domain-Moved env name namespace domain h h' yaml e =
    let (secret, h₁, got, e₁) = >>=-eq_ok {A = Secret} _ _ h e in
    let (raw, h₂, decoded, e₂) = >>=-eq_ok {A = String} _ _ h₁ e₁ in
    let (k, h₃, unmarshalled, e₃) = >>=-eq_ok {A = Kubeconfig} _ _ h₂ e₂ in
    let (ranged, h₄, visit, e₄) = >>=-eq_ok {A = List (String × String)} _ _ h₃ e₃ in
    let (changed, h₅, moved, e₅) = >>=-eq_ok {A = List (String × String)} _ _ h₄ e₄ in
    let (updated, h₆, marshalled, e₆) = >>=-eq_ok {A = String} _ _ h₅ e₅ in
    let (read, _) = perform-eq_ok _ _ h (wrapped-eq_ok _ _ h got) in
    let (is_raw, _) = lift-eq_ok _ h₁ (wrapped-eq_ok _ _ h₁ decoded) in
    let (is_k, _) = lift-eq_ok _ h₂ (wrapped-eq_ok _ _ h₂ unmarshalled) in
    let (is_ranged, same₄) = gets-eq_ok _ h₃ visit in
    let (is_updated, same₆) = lift-eq_ok _ h₅ (wrapped-eq_ok _ _ h₅ marshalled) in
    let (values, h₇, put, e₇) = >>=-eq_ok {A = List (String × String)} _ _ h₆ e₆ in
    let (is_put, same₇) = set_value-eq_ok updated secret.values h₆ put in
    let (accepted, calls) = perform_check-eq_ok _ _ h₇ (wrapped-eq_ok {A = Unit {0}} _ _ h₇ e₇) in
    let (again, read_back, same) = yaml _ updated is_updated in
    record {
      secret = secret;
      read = read;
      raw = raw;
      decoded = is_raw;
      kubeconfig = k;
      unmarshalled = is_k;
      start = h₃;
      before = h₇;
      clusters = changed;
      moved = same_run (change_servers env domain) is_ranged same₄ (same₇ ∙ same₆) moved;
      written = record secret { values = values };
      last = calls;
      accepted = accepted;
      meta = refl;
      others = λ key other.
          ap (λ l. lookup key l) is_put ∙ lookup-put_value key updated secret.values other;
      again = again;
      stored = rw (is_put, value_of-put_value updated secret.values) read_back;
      same = same;
    }
