-- ===== src/Controller/Lifecycle/Passes.antt =====
-- Whole passes of the reconciler of machines as triples, and sequences of passes with calls of
-- others between them.
use kt_cloud_operator.Common.{◌≡◌, refl, false, ◌==◌, ◌∷◌}
use kt_cloud_operator.Api.{KtCluster, NamespacedName, KtMachine}
use kt_cloud_operator.Controller.Plain
use kt_cloud_operator.Controller.Lookup.{cluster_key, get_machine_associated_cluster}
use kt_cloud_operator.Controller.Results.{CtrlResult}
use kt_cloud_operator.Httpapi.Plain.{alters}
use kt_cloud_operator.Controller.KtMachines.{reconcile_machine, reconcile}
use kt_cloud_operator.Controller.Lifecycle.{Store, Lifecycle, touches}
use kt_cloud_operator.Controller.Lifecycle.Rules.{
  Rules, IsGood, IsGood-Allows, IsGood-Rules, AreGood, AreGood-plain,
}
use kt_cloud_operator.Runtime.Calls.{Kind, Call, History, get}
use kt_cloud_operator.Runtime.Env.{Env, Result, value, failure}
use kt_cloud_operator.Runtime.Effects.{history, lift, perform}
use kt_cloud_operator.Runtime.Keeps.{Allows}
use kt_cloud_operator.Runtime.Hoare.{
  Triple-bind, Triple-fact, Ends, Ends-history, Triple, Triple-pure, Triple-throw, Triple-if,
  Triple-bind, Triple-catch, Triple-of_Keeps,
}
use kt_cloud_operator.Controller.Lifecycle.Workers.{reconcile_infrastructure-Triple}
use kt_cloud_operator.Controller.Lifecycle.Joins
use kt_cloud_operator.Controller.Lifecycle.Joins.{Joins}
use kt_cloud_operator.Controller.Infrastructure.{set_joined}

module _ (env : Env) (key : NamespacedName) (Base : History → Type 0)
    (Good : History → KtMachine → Type 0) (Own : KtCluster → Type 0) (laws : Lifecycle env Good Own)
    (rules : Rules env key Base Good) (joins : Joins env key Base Good Own laws rules) where
  abbrev Both : KtMachine → KtMachine → History → Type 0
  Both = AreGood env key Base Good Own laws rules

  plain : (m : KtMachine) (c : Call) → alters c ≡ false → Allows (Both m m) c
  plain m = AreGood-plain env key Base Good Own laws rules m m

  -- The machine that is held from here on.
  abbrev Held : KtMachine → History → Type 0
  Held m = Both m m

  cluster_at :
      (m : KtMachine) (h : History) (r : Result KtCluster)
      → env.get_kt_cluster h (cluster_key m) ≡ r
      → Held m h
      → Ends (λ c k. Held m k × Own c) Base (lift r (get Kind.kt_cluster (cluster_key m) ∷ h))
  unfolding lift
  cluster_at m h (value c) e p = (plain m _ refl h p, laws.owns h m c e p.1)
  cluster_at m h (failure x) e p = (plain m (get Kind.kt_cluster (cluster_key m)) refl h p).0

  read_cluster-Triple :
      (m : KtMachine)
      → Triple
          (Held m)
          (λ c k. Held m k × Own c)
          Base
          (perform
            (get Kind.kt_cluster (cluster_key m))
            (λ h. env.get_kt_cluster h (cluster_key m)))
  unfolding perform
  read_cluster-Triple m = record { at = λ h p. cluster_at m h _ refl p }

  get_cluster-Triple :
      (m : KtMachine)
      → Triple (Held m) (λ c k. Held m k × Own c) Base (get_machine_associated_cluster env m)
  unfolding get_machine_associated_cluster
  get_cluster-Triple m = Triple-bind (read_cluster-Triple m) (λ c.
      Triple-if (c.meta.name == "") _ _ (λ _. Triple-throw _ (λ h p. p.0.0))
        (λ _. Triple-pure c (λ h p. p)))

  reconcile_machine-Triple :
      (m : KtMachine) → Triple (Held m) (λ (_ : CtrlResult). Base) Base (reconcile_machine env m)
  unfolding reconcile_machine
  reconcile_machine-Triple m =
      Triple-catch
        (Triple-of_Keeps {Q = λ _. Held m} (Plain.Keeps-get_subject_token (Held m) (plain m) env m)
          (λ a h p. p) (λ h p. p.0))
        (λ token.
          Triple-if (token.spec.subject_token == "") _ _ (λ _. Triple-pure _ (λ h p. p.0))
            (λ _. Triple-bind (get_cluster-Triple m) (λ c. Triple-fact (λ own.
              Triple-bind
                (reconcile_infrastructure-Triple env key Base Good Own laws rules joins m c
                  token.spec.subject_token own)
                (λ _. Triple-pure _ (λ h p. p))))))
        (λ e. Triple-pure _ (λ h p. p))

  read_at :
      (h : History) (r : Result KtMachine)
      → env.get_machine h key ≡ r
      → Base h
      → Ends Held Base (lift r (get Kind.machine key ∷ h))
  unfolding lift
  read_at h (value m) e p =
      let p' = rules.plain (get Kind.machine key) refl h p in
      let q : Good (get Kind.machine key ∷ h) m =
        laws.later (get Kind.machine key) h m (rules.reads h m e p) in
      (p', q, q)
  read_at h (failure x) e p = rules.plain (get Kind.machine key) refl h p

  read-Triple : Triple Base Held Base (perform (get Kind.machine key) (λ h. env.get_machine h key))
  unfolding perform
  read-Triple = record { at = λ h p. read_at h _ refl p }

  pub reconcile-Triple : Triple Base (λ (_ : CtrlResult). Base) Base (reconcile env key)
  unfolding reconcile
  reconcile-Triple = Triple-catch read-Triple reconcile_machine-Triple (λ e.
      Triple-if e.not_found _ _ (λ _. Triple-pure _ (λ h p. p)) (λ _. Triple-throw _ (λ h p. p)))

-- The calls so far, once passes over one machine have run, with calls of others between them that
-- leave it alone.
pub data Passes (env : Env) (key : NamespacedName) (h : History) : History → Type 0 where
  start : Passes env key h h
  pass : {h' : History} → Passes env key h h' → Passes env key h (history (reconcile env key h'))
  other :
      {h' : History} (c : Call)
      → touches key c ≡ false
      → Passes env key h h'
      → Passes env key h (c ∷ h')

module _ (env : Env) (key : NamespacedName) (store : Store env key)
    (Good : History → KtMachine → Type 0) (Own : KtCluster → Type 0) (laws : Lifecycle env Good Own)
    (joins : Joins env key
      (IsGood env key store Good Own laws)
      Good
      Own
      laws
      (IsGood-Rules env key store Good Own laws)) where
  -- What every edit keeps stays true of the stored machine over any number of passes.
  pub Passes-IsGood :
      {h h' : History} → Passes env key h h' → Good h (store.stored h) → Good h' (store.stored h')
  Passes-IsGood Passes.start p = p
  Passes-IsGood (Passes.pass {h' = k} passes) p =
      Ends-history (IsGood env key store Good Own laws) (reconcile env key k) (
        (reconcile-Triple env key (IsGood env key store Good Own laws) Good Own laws
            (IsGood-Rules env key store Good Own laws) joins).at
          k (Passes-IsGood passes p))
  Passes-IsGood (Passes.other {h' = k} c e passes) p =
      IsGood-Allows env key store Good Own laws c e k (Passes-IsGood passes p)

-- The same, where the mark that a worker has joined is of no matter.
pub Passes-keeps :
    (env : Env) (key : NamespacedName) (store : Store env key) (Good : History → KtMachine → Type 0)
    (Own : KtCluster → Type 0) (laws : Lifecycle env Good Own)
    → ((h : History) (m : KtMachine) → Good h m → Good h (set_joined m))
    → {h h' : History} → Passes env key h h'
    → Good h (store.stored h)
    → Good h' (store.stored h')
Passes-keeps env key store Good Own laws joined passes =
    Passes-IsGood env key store Good Own laws
      (Joins.unconditional env key (IsGood env key store Good Own laws) Good Own laws
        (IsGood-Rules env key store Good Own laws) joined)
      passes
