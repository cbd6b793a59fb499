-- ===== src/Controller/Lifecycle/Servers.antt =====
-- The identifier of a stored control plane over the passes, and the requests for a server.
use kt_cloud_operator.Common.{String, ◌≡◌, refl, ap, ◌∙◌, true, false, ◌==◌, contains, ◌∷◌}
use kt_cloud_operator.Api.{NamespacedName, KtMachine}
use kt_cloud_operator.Httpapi.Types.{ServerResponse}
use kt_cloud_operator.Httpapi.ServerAnswers.{Answered, Posts, Gets}
use kt_cloud_operator.Httpapi.ControlPlaneVm.{with_status}
use kt_cloud_operator.Httpapi.PublicIps.{assign_ip}
use kt_cloud_operator.Controller.Infrastructure.{set_bootstrap_ready, set_joined}
use kt_cloud_operator.Httpapi.Creates
use kt_cloud_operator.Httpapi.Creates.{creates_server}
use kt_cloud_operator.Controller.Lookup.{control_plane_label}
use kt_cloud_operator.Controller.Plain
use kt_cloud_operator.Controller.Results.{CtrlResult}
use kt_cloud_operator.Controller.Infrastructure.Creates.{needs_server, no_create}
use kt_cloud_operator.Controller.KtMachines.{reconcile_machine, reconcile}
use kt_cloud_operator.Controller.Lifecycle.{AnyCluster, Store, Lifecycle}
use kt_cloud_operator.Controller.Lifecycle.Passes.{Passes, Passes-keeps}
use kt_cloud_operator.Runtime.Calls.{Kind, History, get}
use kt_cloud_operator.Runtime.Env.{Env, Result, value, failure}
use kt_cloud_operator.Runtime.Effects.{history, lift, perform}
use kt_cloud_operator.Runtime.Keeps.{Keeps, keeps_rules}
use kt_cloud_operator.Runtime.Since.{Since, Since-Allows}
use kt_cloud_operator.Runtime.Hoare.{
  Ends, Ends-history, Triple, Triple-pure, Triple-throw, Triple-if, Triple-catch, Triple-of_Keeps,
  Triple-fact,
}

abbrev HasServer : History → KtMachine → Type 0
HasServer h m = (contains m.meta.name control_plane_label ≡ true) × ((m.status.id == "") ≡ false)

-- The cloud's answers carry a server's identifier: where it accepts the request for a new server,
-- and where it returns a server that is asked for by an identifier.
pub record AnswersId (env : Env) : Type 0 where
  pub posted : (s : ServerResponse) → Answered env (Posts env) s → (s.server.id == "") ≡ false
  pub got :
      (id : String) (s : ServerResponse)
      → (id == "") ≡ false
      → Answered env (Gets env id) s
      → (s.server.id == "") ≡ false

HasServer-Lifecycle : (env : Env) → AnswersId env → Lifecycle env HasServer AnyCluster
unfolding with_status assign_ip set_bootstrap_ready set_joined
HasServer-Lifecycle env ids = record {
  owns = λ h m c e p. tt;
  later = λ c h m p. p;
  same = λ h m n same p. (
    ap (λ s. contains s control_plane_label) same.name ∙ p.0,
    ap (λ s. s.id == "") same.status ∙ p.1,
  );
  created = λ s h m answer p. (p.0, ids.posted s answer);
  refreshed = λ s h m answer other p. (p.0, ids.got m.status.id s p.1 answer);
  assigned = λ private ip nat h m p. p;
  marked = λ h k m unattached q mark address p. p;
  finished = λ h m c waits own made p. p;
}

HasServer-set_joined : (h : History) (m : KtMachine) → HasServer h m → HasServer h (set_joined m)
unfolding set_joined
HasServer-set_joined h m p = p

HasServer-needs_none : (m : KtMachine) (h : History) → HasServer h m → needs_server m ≡ false
unfolding needs_server
HasServer-needs_none m h p = rw p.0 p.1

-- One pass over a stored machine that has its server.
module _ (env : Env) (key : NamespacedName) (store : Store env key) (h : History)
    (none_needed : needs_server (store.stored h) ≡ false) where
  abbrev Quiet : History → Type 0
  Quiet = Since (λ c. creates_server c ≡ false) h

  Keeps-reconcile_machine :
      (m : KtMachine) → needs_server m ≡ false → Keeps Quiet (reconcile_machine env m)
  unfolding reconcile_machine
  Keeps-reconcile_machine m none_needed_now =
      search
        (
          keeps_rules,
          none_needed_now,
          Plain.Keeps-get_subject_token Quiet (Creates.plain Quiet (λ c e. Since-Allows e)) env,
          Plain.Keeps-get_cluster Quiet (Creates.plain Quiet (λ c e. Since-Allows e)) env,
          no_create Quiet (λ c e. Since-Allows e) env,
        )
        depth 9

  read_at :
      (k : History) (r : Result KtMachine)
      → env.get_machine k key ≡ r
      → k ≡ h
      → Ends (λ m k'. Quiet k' × (needs_server m ≡ false)) Quiet (lift r (get Kind.machine key ∷ k))
  unfolding lift
  read_at k (value m) e same =
      (rw same (Since.call refl Since.start), rw (store.reads k m e, same) none_needed)
  read_at k (failure x) e same = rw same (Since.call refl Since.start)

  read-Triple :
      Triple
        (λ k. k ≡ h)
        (λ m k. Quiet k × (needs_server m ≡ false))
        Quiet
        (perform (get Kind.machine key) (λ k. env.get_machine k key))
  unfolding perform
  read-Triple = record { at = λ k same. read_at k _ refl same }

  reconcile-Triple : Triple (λ k. k ≡ h) (λ (_ : CtrlResult). Quiet) Quiet (reconcile env key)
  unfolding reconcile
  reconcile-Triple =
      Triple-catch read-Triple
        (λ m. Triple-fact (λ none_needed_now.
          Triple-of_Keeps (Keeps-reconcile_machine m none_needed_now) (λ a k p. p) (λ k p. p)))
        (λ e.
          Triple-if e.not_found _ _ (λ _. Triple-pure _ (λ k p. p))
            (λ _. Triple-throw _ (λ k p. p)))

  -- The pass asks for no server.
  pub reconcile-no_create : Since (λ c. creates_server c ≡ false) h (history (reconcile env key h))
  reconcile-no_create =
      Ends-history (Since (λ c. creates_server c ≡ false) h) (reconcile env key h)
        (reconcile-Triple.at h refl)

-- A control plane whose server the API server knows gets no second one: from calls after which the
-- stored machine, named as a control plane, has an identifier, any number of passes and of calls
-- of others that leave the machine alone lead to calls after which a further pass sends no POST
-- that creates a server. The cloud's answers that accept a new server or return one carry its
-- identifier, and the API server stores what a status write sends, or nothing.
pub Passes-no_create :
    (env : Env) (key : NamespacedName) (store : Store env key)
    → AnswersId env
    → (h h' : History) → Passes env key h h'
    → contains (store.stored h).meta.name control_plane_label ≡ true
    → ((store.stored h).status.id == "") ≡ false
    → Since (λ c. creates_server c ≡ false) h' (history (reconcile env key h'))
Passes-no_create env key store ids h h' passes label has =
    let good =
      Passes-keeps env key store HasServer AnyCluster (HasServer-Lifecycle env ids)
        HasServer-set_joined passes (label, has) in
    reconcile-no_create env key store h' (HasServer-needs_none (store.stored h') h' good)
