-- ===== src/Controller/MachineDeployments/Replicas.antt =====
-- Which machines a deployment's reconciler creates, and how many.
use kt_cloud_operator.Common.{
  ℕ, zero, suc, ◌+◌, ◌<>◌, pos, String, ◌≡◌, refl, List, [], ◌∷◌, ◌++◌, arith, All, length,
  length-append, All-snoc, append_assoc, sym, ap, ◌∙◌, none, some,
}
use kt_cloud_operator.Api.{zero_meta, KtMachine, KtMachineTemplate, MachineDeployment}
use kt_cloud_operator.Controller.RandomNames.{random_char, random_chars, random_string, or_panic}
use kt_cloud_operator.Controller.MachineDeployments.{
  new_machine, create_machine, create_replica, create_replicas,
}
use kt_cloud_operator.Runtime.Calls.{Call, History, Object, create, machine, rand}
use kt_cloud_operator.Runtime.Env.{Env, value}
use kt_cloud_operator.Runtime.Effects.{ok, history}
use kt_cloud_operator.Runtime.Keeps.{Keeps, Allows, keeps_rules}
use kt_cloud_operator.Runtime.Since.{Since, Makes, Makes-of_Keeps, Since-Allows}
use kt_cloud_operator.Runtime.Steps.{>>=-eq_ok, pure-eq_ok, lift-eq_ok, perform_check-eq_ok}

-- The machines among the objects that were sent to the API server to be created.
abbrev pub created : History → List KtMachine
created [] = []
created (create (machine m) ∷ h) = m ∷ created h
created (_ ∷ h) = created h

module _ (P : History → Type 0) (safe : (n : ℕ) → Allows P (Call.rand n)) (env : Env) where
  Keeps-or_panic : (c : _) → Keeps P (or_panic c)
  Keeps-or_panic none = search keeps_rules
  Keeps-or_panic (some c) = search keeps_rules

  pub Keeps-random_char : Keeps P (random_char env)
  unfolding random_char
  Keeps-random_char = search (keeps_rules, safe, Keeps-or_panic)

  Keeps-random_chars : (n : ℕ) → Keeps P (random_chars env n)
  unfolding random_chars
  Keeps-random_chars zero = search keeps_rules
  Keeps-random_chars (suc n) =
      let one = Keeps-random_char in let ih = Keeps-random_chars n in search keeps_rules

  pub Keeps-random_string : (n : ℕ) → Keeps P (random_string env n)
  unfolding random_string
  Keeps-random_string zero = search keeps_rules
  Keeps-random_string (suc n) = search (keeps_rules, Keeps-random_chars)

-- The draws of random numbers.
pub data IsRand : Call → Type 0 where
  rand_call : (n : ℕ) → IsRand (rand n)

Since-random_string : (env : Env) (n : ℕ) → Makes IsRand (random_string env n)
Since-random_string env n =
    Makes-of_Keeps IsRand (random_string env n)
      (λ h. Keeps-random_string (Since IsRand h) (λ k. Since-Allows (rand_call k)) env n)

created-Since : {h h' : History} → Since IsRand h h' → created h' ≡ created h
created-Since Since.start = refl
created-Since (Since.call (rand_call n) s) = created-Since s

-- A machine of a deployment, by its template: the flavor, the key, the disks and the network tier
-- are the template's, the cluster and the zone the deployment's, and its metadata those that the
-- owner's reference gives to its name and the deployment's namespace.
pub record IsReplica (env : Env) (d : MachineDeployment) (t : KtMachineTemplate) (m : KtMachine)
    : Type 0 where
  pub round : ℕ
  pub suffix : String
  pub owned :
      env.set_controller_reference (Object.deployment d) (record zero_meta {
        name = d.meta.name <> "-" <> env.to_lower suffix;
        namespace = d.meta.namespace;
      })
      ≡ value m.meta
  pub flavor : m.spec.flavor ≡ t.spec.template.spec.flavor
  pub ssh_key_name : m.spec.ssh_key_name ≡ t.spec.template.spec.ssh_key_name
  pub block_device_mapping : m.spec.block_device_mapping ≡ t.spec.template.spec.block_device_mapping
  pub network_tier : m.spec.network_tier ≡ t.spec.template.spec.network_tier
  pub cluster_name : m.spec.cluster_name ≡ d.spec.template.spec.cluster_name
  pub availability_zone : m.spec.availability_zone ≡ d.spec.template.spec.failure_domain
  pub control_plane_number : m.spec.control_plane_number ≡ pos (round + 1)

-- What a round that succeeds has sent: one replica, behind draws of random numbers.
pub record Round (env : Env) (d : MachineDeployment) (t : KtMachineTemplate) (h h' : History)
    : Type 0 where
  pub replica : KtMachine
  pub before : History
  pub drawn : Since IsRand h before
  pub sent : h' ≡ create (machine replica) ∷ before
  pub is_replica : IsReplica env d t replica
  pub accepted : env.create before (machine replica) ≡ none

module _ (env : Env) (d : MachineDeployment) (t : KtMachineTemplate) where
  pub create_replica-Round :
      (i : ℕ) (h : History) {h' : History}
      → create_replica env d t i h ≡ ok tt h'
      → Round env d t h h'
  unfolding create_replica create_machine new_machine
  create_replica-Round i h e =
      let (suffix, h₁, drew, e₁) = >>=-eq_ok _ _ h e in
      let (meta, h₂, got, e₂) = >>=-eq_ok _ _ h₁ e₁ in
      let (owned, same) = lift-eq_ok _ h₁ got in
      let (accepted, last) = perform_check-eq_ok _ _ h₂ e₂ in
      record {
        replica = _;
        before = h₂;
        drawn = rw (same, ← ap history drew) (Since-random_string env 10 h);
        sent = last;
        is_replica = record {
          round = i;
          suffix = suffix;
          owned = owned;
          flavor = refl;
          ssh_key_name = refl;
          block_device_mapping = refl;
          network_tier = refl;
          cluster_name = refl;
          availability_zone = refl;
          control_plane_number = refl;
        };
        accepted = accepted;
      }

  -- `left` rounds that succeed send `left` replicas.
  pub created-create_replicas :
      (i left : ℕ) (h : History) {h' : History}
      → create_replicas env d t i left h ≡ ok tt h'
      → (ms : List KtMachine) × (created h' ≡ ms ++ created h)
        × (length ms ≡ left)
        × All (IsReplica env d t) ms
  unfolding create_replicas
  created-create_replicas i zero h e = ([], ap created (pure-eq_ok tt h e).1, refl, tt)
  created-create_replicas i (suc left) h {h'} e =
      let (_, h₁, one, e₁) = >>=-eq_ok _ _ h e in
      let r = create_replica-Round i h one in
      let (ms, more, n, all) = created-create_replicas (suc i) left h₁ e₁ in
      (
        ms ++ r.replica ∷ [],
        more
            ∙ ap (λ l. ms ++ l) (rw r.sent (ap (λ l. r.replica ∷ l) (created-Since r.drawn)))
            ∙ sym (append_assoc ms (r.replica ∷ []) (created h)),
        omega (arith, length-append ms (r.replica ∷ [])),
        All-snoc _ ms all r.is_replica,
      )
