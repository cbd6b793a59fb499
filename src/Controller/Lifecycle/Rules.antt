-- ===== src/Controller/Lifecycle/Rules.antt =====
-- What the triples on a pass need of the predicate that holds between its calls, the rules for the
-- writes of a machine, and the predicate of the stored machine.
use kt_cloud_operator.Common.{◌≡◌, refl, false, ◌∷◌, inl, inr}
use kt_cloud_operator.Api.{NamespacedName, KtMachine, KtCluster}
use kt_cloud_operator.Httpapi.Plain.{alters}
use kt_cloud_operator.Runtime.Calls.{Request, Call, History, machine, http, update_status}
use kt_cloud_operator.Runtime.Env.{Env, Result, value, failure}
use kt_cloud_operator.Runtime.Effects.{lift, perform}
use kt_cloud_operator.Runtime.Keeps.{Allows}
use kt_cloud_operator.Runtime.Hoare.{Ends, Triple}
use kt_cloud_operator.Controller.Lifecycle.{Store, Lifecycle, Same, touches, touches-of_plain}

-- What the triples on a pass over the machine with a key need of `Base`, which holds between its
-- calls: what follows from it for the machine that is read, and that the calls of a pass keep it.
pub record Rules (env : Env) (key : NamespacedName) (Base : History → Type 0)
    (Good : History → KtMachine → Type 0) : Type 0 where
  pub reads : (h : History) (m : KtMachine) → env.get_machine h key ≡ value m → Base h → Good h m
  pub plain : (c : Call) → alters c ≡ false → Allows Base c
  pub posts : (q : Request) → Allows Base (http q)
  pub written :
      (n : KtMachine) (h : History) → Base h → Good h n → Base (update_status (machine n) ∷ h)
  pub answers : (n k : KtMachine) (h : History) → env.update_machine_status h n ≡ value k → Same n k

module _ (env : Env) (key : NamespacedName) (Base : History → Type 0)
    (Good : History → KtMachine → Type 0) (Own : KtCluster → Type 0) (laws : Lifecycle env Good Own)
    (rules : Rules env key Base Good) where
  -- What holds between the calls, and the machines in hand have the property.
  abbrev pub AreGood : KtMachine → KtMachine → History → Type 0
  AreGood m n h = Base h × Good h m × Good h n

  pub AreGood-plain : (m n : KtMachine) (c : Call) → alters c ≡ false → Allows (AreGood m n) c
  AreGood-plain m n c e h (p, q, r) = (rules.plain c e h p, laws.later c h m q, laws.later c h n r)

  pub AreGood-posts : (m n : KtMachine) (q : Request) → Allows (AreGood m n) (http q)
  AreGood-posts m n q h (p, g, r) =
      (rules.posts q h p, laws.later (http q) h m g, laws.later (http q) h n r)

  abbrev Written : KtMachine → KtMachine → KtMachine → History → Type 0
  Written m n k h = AreGood m k h × Same n k

  write_at :
      (m n : KtMachine) (h : History) (r : Result KtMachine)
      → env.update_machine_status h n ≡ r
      → Base h
      → Good h m
      → Good h n
      → Ends (Written m n) Base (lift r (update_status (machine n) ∷ h))
  unfolding lift
  write_at m n h (value k) e p q r =
      let same = rules.answers n k h e in
      ((rules.written n h p r, laws.later _ h m q, laws.same _ n k same (laws.later _ h n r)), same)
  write_at m n h (failure x) e p q r = rules.written n h p r

  -- A write of the status of a good machine, whatever the API server answers.
  pub write :
      (m n : KtMachine)
      → ((h : History) → Good h m → Good h n)
      → Triple
          (AreGood m m)
          (λ k h. AreGood m k h × Same n k)
          Base
          (perform (update_status (machine n)) (λ h. env.update_machine_status h n))
  unfolding perform
  write m n good = record { at = λ h p. write_at m n h _ refl p.0 p.1 (good h p.1) }

  -- The same, where the new machine is good on account of more.
  pub write_with :
      (F : History → Type 0) (m n : KtMachine)
      → ((h : History) → F h → Good h m → Good h n)
      → Triple
          (λ h. AreGood m m h × F h)
          (λ k h. AreGood m k h × Same n k)
          Base
          (perform (update_status (machine n)) (λ h. env.update_machine_status h n))
  unfolding perform
  write_with F m n good = record { at = λ h (p, f). write_at m n h _ refl p.0 p.1 (good h f p.1) }

module _ (env : Env) (key : NamespacedName) (store : Store env key)
    (Good : History → KtMachine → Type 0) (Own : KtCluster → Type 0)
    (laws : Lifecycle env Good Own) where
  -- The stored machine has the property.
  abbrev pub IsGood : History → Type 0
  IsGood h = Good h (store.stored h)

  pub IsGood-Allows : (c : Call) → touches key c ≡ false → Allows IsGood c
  IsGood-Allows c e h p = rw (store.others c h e) (laws.later c h _ p)

  IsGood-write :
      (n : KtMachine) (h : History) → IsGood h → Good h n → IsGood (update_status (machine n) ∷ h)
  IsGood-write n h p q = elim (store.writes n h) [
    | inl refused ↦ rw refused (laws.later _ h _ p)
    | inr written ↦ laws.same _ n _ written (laws.later _ h n q)
  ]

  pub IsGood-Rules : Rules env key IsGood Good
  IsGood-Rules = record {
    reads = λ h m e p. rw (store.reads h m e) p;
    plain = λ c e. IsGood-Allows c (touches-of_plain key c e);
    posts = λ q. IsGood-Allows (http q) refl;
    written = IsGood-write;
    answers = store.answers;
  }
