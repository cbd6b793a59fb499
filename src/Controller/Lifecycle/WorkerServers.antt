-- ===== src/Controller/Lifecycle/WorkerServers.antt =====
-- The server of a stored worker over the passes.
use kt_cloud_operator.Common.{
  String, ◌≡◌, refl, ap, sym, ◌∙◌, Bool, true, false, not, ◌==◌, ◌&&◌, contains, Bool-cases, inl,
  inr, blank-ne,
}
use kt_cloud_operator.Api.{NamespacedName, KtMachine, KtMachineStatus}
use kt_cloud_operator.Httpapi.Types.{ServerResponse}
use kt_cloud_operator.Httpapi.ServerAnswers.{Answered, Gets}
use kt_cloud_operator.Httpapi.ControlPlaneVm.{with_status}
use kt_cloud_operator.Httpapi.PublicIps.{assign_ip}
use kt_cloud_operator.Httpapi.Creates.{creates_server}
use kt_cloud_operator.Controller.Infrastructure.{set_bootstrap_ready, set_joined}
use kt_cloud_operator.Controller.Infrastructure.Creates.{needs_server}
use kt_cloud_operator.Controller.KtMachines.{reconcile}
use kt_cloud_operator.Controller.Lookup.{control_plane_label}
use kt_cloud_operator.Controller.Lifecycle.{AnyCluster, Store, Lifecycle, Same}
use kt_cloud_operator.Controller.Lifecycle.Passes.{Passes, Passes-keeps}
use kt_cloud_operator.Controller.Lifecycle.Servers.{AnswersId, reconcile-no_create}
use kt_cloud_operator.Runtime.Calls.{History}
use kt_cloud_operator.Runtime.Env.{Env}
use kt_cloud_operator.Runtime.Effects.{history}
use kt_cloud_operator.Runtime.Since.{Since}

-- A server that the cloud returns under its identifier has a state, and any server that it returns
-- with a state has an identifier.
pub record AnswersState (env : Env) : Type 0 where
  pub state :
      (id : String) (s : ServerResponse)
      → (id == "") ≡ false
      → Answered env (Gets env id) s
      → (s.server.status == "") ≡ false
  pub known :
      (id : String) (s : ServerResponse)
      → Answered env (Gets env id) s
      → (s.server.status == "") ≡ false
      → (s.server.id == "") ≡ false

-- A worker for which the reconciler asks for no server, and that has an identifier where it has a
-- state.
record HasWorker (h : History) (m : KtMachine) : Type 0 where
  worker : contains m.meta.name control_plane_label ≡ false
  waits_for_none : (m.status.status == "" && not m.status.worker_ref.joined_control_plane) ≡ false
  known : (m.status.status == "") ≡ false → (m.status.id == "") ≡ false

HasWorker-needs_none : (h : History) (m : KtMachine) → HasWorker h m → needs_server m ≡ false
unfolding needs_server
HasWorker-needs_none h m w = rw w.worker w.waits_for_none

HasWorker-Same : (h : History) (m n : KtMachine) → Same m n → HasWorker h m → HasWorker h n
HasWorker-Same h m n same w = record {
  worker = ap (λ s. contains s control_plane_label) same.name ∙ w.worker;
  waits_for_none =
      ap (λ s. s.status == "" && not s.worker_ref.joined_control_plane) same.status
      ∙ w.waits_for_none;
  known = λ e.
      ap (λ s. s.id == "") same.status ∙ w.known (ap (λ s. s.status == "") (sym same.status) ∙ e);
}

-- A status with a state and an identifier.
HasWorker-status :
    (h : History) (m : KtMachine) (s : KtMachineStatus)
    → HasWorker h m
    → (s.status == "") ≡ false
    → (s.id == "") ≡ false
    → HasWorker h (record m { status = s })
HasWorker-status h m s w state id = record {
  worker = w.worker;
  waits_for_none = rw state refl;
  known = λ e. id;
}

HasWorker-refreshed :
    (env : Env)
    → AnswersId env
    → AnswersState env
    → (s : ServerResponse) (h : History) (m : KtMachine) → Answered env (Gets env m.status.id) s
    → (m.status.status == s.server.status) ≡ false
    → HasWorker h m
    → HasWorker h (record m { status = s.server })
HasWorker-refreshed env ids states s h m answer other w = elim (Bool-cases (m.status.id == "")) [
  | inl none_yet ↦ elim (Bool-cases (m.status.status == "")) [
    | inl blank ↦
        let state = blank-ne m.status.status s.server.status blank other in
        HasWorker-status h m s.server w state (states.known m.status.id s answer state)
    | inr state ↦ let f = w.known state in cc
  ]
  | inr has ↦
      HasWorker-status h m s.server w (states.state m.status.id s has answer)
        (ids.got m.status.id s has answer)
]

HasWorker-Lifecycle :
    (env : Env) → AnswersId env → AnswersState env → Lifecycle env HasWorker AnyCluster
unfolding with_status assign_ip set_bootstrap_ready
HasWorker-Lifecycle env ids states = record {
  owns = λ h m c e p. tt;
  later =
      λ c h m w. record { worker = w.worker; waits_for_none = w.waits_for_none; known = w.known };
  same = HasWorker-Same;
  created = λ s h m answer w. HasWorker-status h m _ w refl (ids.posted s answer);
  refreshed = HasWorker-refreshed env ids states;
  assigned = λ private ip nat h m w. record {
    worker = w.worker;
    waits_for_none = w.waits_for_none;
    known = w.known;
  };
  marked = λ h k m unattached q mark address w. record {
    worker = w.worker;
    waits_for_none = w.waits_for_none;
    known = w.known;
  };
  finished = λ h m c waits own made w. record {
    worker = w.worker;
    waits_for_none = w.waits_for_none;
    known = w.known;
  };
}

joined-waits_for_none : (b : Bool) → (b && not true) ≡ false
joined-waits_for_none true = refl
joined-waits_for_none false = refl

HasWorker-set_joined : (h : History) (m : KtMachine) → HasWorker h m → HasWorker h (set_joined m)
unfolding set_joined
HasWorker-set_joined h m w = record {
  worker = w.worker;
  waits_for_none = joined-waits_for_none _;
  known = w.known;
}

-- A worker gets no second server either: from calls after which the stored machine, not named as a
-- control plane, has a state or the mark that it has joined, and an identifier if it has a state,
-- any number of passes and of calls of others that leave the machine alone lead to calls after
-- which a further pass sends no POST that creates a server. The cloud's answers that accept a new
-- server or return one under an identifier carry its identifier, those that return one under an
-- identifier carry its state, and those with a state carry an identifier; and the API server stores
-- what a status write sends, or nothing.
pub Passes-no_create_worker :
    (env : Env) (key : NamespacedName) (store : Store env key)
    → AnswersId env
    → AnswersState env
    → (h h' : History) → Passes env key h h'
    → contains (store.stored h).meta.name control_plane_label ≡ false
    → needs_server (store.stored h) ≡ false
    → (((store.stored h).status.status == "") ≡ false → ((store.stored h).status.id == "") ≡ false)
    → Since (λ c. creates_server c ≡ false) h' (history (reconcile env key h'))
unfolding needs_server
Passes-no_create_worker env key store ids states h h' passes worker none_needed known =
    let laws = HasWorker-Lifecycle env ids states in
    let good =
      Passes-keeps env key store HasWorker AnyCluster laws HasWorker-set_joined passes
        (record { worker = worker; waits_for_none = rw worker at none_needed; known = known }) in
    reconcile-no_create env key store h' (HasWorker-needs_none h' (store.stored h') good)
