-- ===== src/Start/Order.antt =====
-- When the manager starts.
use kt_cloud_operator.Common.{
  ℕ, suc, String, ◌≡◌, refl, ◌==◌, Bool, true, false, ◌||◌, Option, none, some, List, [], ◌∷◌, ◌++◌,
  All, map, if◌then◌else◌, ◌⊎◌, inl, inr,
}
use kt_cloud_operator.Api.Registration.{Resource, resource_kind}
use kt_cloud_operator.Runtime.Calls.{Error}
use kt_cloud_operator.Start.Controllers.{controllers}
use kt_cloud_operator.Start.{
  unless_failed, Flags, default_flags, ManagerOptions, Event, Exit, Trace, Answers, run_steps,
  steps, manager_options, metrics_server_options, main,
}

abbrev pub is_start : Event → Bool
is_start Event.start = true
is_start _ = false

-- Has the manager been started?
abbrev pub starts : Trace → Bool
starts [] = false
starts (e ∷ trace) = is_start e || starts trace

-- Every call was accepted, by what came before it.
abbrev pub AllAccepted : Answers → Trace → Type 0
AllAccepted answers [] = Unit
AllAccepted answers (e ∷ trace) = (answers trace e ≡ none) × AllAccepted answers trace

-- How often a controller for the resource was set up.
pub set_ups : Resource → Trace → ℕ
set_ups r [] = 0
set_ups r (Event.setup c ∷ trace) =
    let rest = set_ups r trace in
    if resource_kind c.watches == resource_kind r then suc rest else rest
set_ups r (_ ∷ trace) = set_ups r trace

-- The managers made, the last one first.
abbrev pub managers : Trace → List ManagerOptions
managers [] = []
managers (Event.new_manager o ∷ trace) = o ∷ managers trace
managers (_ ∷ trace) = managers trace

abbrev pub checks : Trace → List String
checks [] = []
checks (Event.add_healthz_check name ∷ trace) = name ∷ checks trace
checks (Event.add_readyz_check name ∷ trace) = name ∷ checks trace
checks (_ ∷ trace) = checks trace

-- The trace with the steps made behind it.
abbrev done : List Event → Trace → Trace
done [] trace = trace
done (e ∷ es) trace = done es (e ∷ trace)

-- One manager was made, of the options that the flags give, a controller was set up for each of
-- the ten resources, and the two checks were added.
pub record IsPrepared (flags : Flags) (trace : Trace) : Type 0 where
  pub manager : ManagerOptions
  pub only : managers trace ≡ manager ∷ []
  pub probes : manager.health_probe_bind_address ≡ flags.probe_addr
  pub elects : manager.leader_election ≡ flags.enable_leader_election
  pub serves : manager.metrics.bind_address ≡ flags.metrics_addr
  pub controllers : (r : Resource) → set_ups r trace ≡ 1
  pub checked : checks trace ≡ "readyz" ∷ "healthz" ∷ []

answer-cases : (x : Option Error) → (x ≡ none) ⊎ ((e : Error) × (x ≡ some e))
answer-cases none = inl refl
answer-cases (some e) = inr (e, refl)

either_way :
    (x : Option Error) (a b : Exit) (trace : Trace)
    → (unless_failed (a, trace) x (b, trace)).1 ≡ trace
either_way none a b trace = refl
either_way (some e) a b trace = refl

last_step :
    (answers : Answers) (es : List Event) (trace : Trace)
    → All (λ e. is_start e ≡ false) es
    → AllAccepted answers trace
    → starts trace ≡ false
    → starts (run_steps answers (es ++ Event.start ∷ []) trace).1 ≡ true
    → ((run_steps answers (es ++ Event.start ∷ []) trace).1 ≡ Event.start ∷ done es trace)
      × AllAccepted answers (done es trace)
unfolding run_steps
last_step answers [] trace others before unstarted q =
    (either_way (answers trace Event.start) Exit.exited Exit.returned (Event.start ∷ trace), before)
last_step answers (e ∷ es) trace others before unstarted q = elim (answer-cases (answers trace e)) [
  | inl fine ↦
      let q' = rw fine at q in
      rw fine (last_step answers es (e ∷ trace) others.1 (fine, before) (rw others.0 unstarted) q')
  | inr (x, refused) ↦ let never = rw (refused, others.0, unstarted) at q in cc
]

-- What the program does up to the manager's start.
abbrev before_start : Flags → List Event
before_start flags =
    Event.process_env_variables
      ∷ Event.add_client_scheme
      ∷ Event.add_scheme
      ∷ Event.get_config
      ∷ Event.new_manager (manager_options flags)
      ∷ map Event.setup controllers
    ++ Event.add_healthz_check "healthz" ∷ Event.add_readyz_check "readyz" ∷ []

set_up_once : (flags : Flags) (r : Resource) → set_ups r (done (before_start flags) []) ≡ 1
unfolding set_ups resource_kind
set_up_once flags Resource.cluster = refl
set_up_once flags Resource.kt_cluster = refl
set_up_once flags Resource.kt_machine = refl
set_up_once flags Resource.kt_machine_template = refl
set_up_once flags Resource.kt_network_firewall = refl
set_up_once flags Resource.kt_public_network = refl
set_up_once flags Resource.kt_subject_token = refl
set_up_once flags Resource.kubeadm_config_template = refl
set_up_once flags Resource.kubeadm_control_plane = refl
set_up_once flags Resource.machine_deployment = refl

others : (flags : Flags) → All (λ e. is_start e ≡ false) (before_start flags)
others flags = (
  refl,
  (
    refl,
    (
      refl,
      (
        refl,
        (
          refl,
          (
            refl,
            (
              refl,
              (refl, (refl, (refl, (refl, (refl, (refl, (refl, (refl, (refl, (refl, tt)))))))))),
            ),
          ),
        ),
      ),
    ),
  ),
)

before_start-IsPrepared : (flags : Flags) → IsPrepared flags (done (before_start flags) [])
unfolding set_ups resource_kind manager_options metrics_server_options
before_start-IsPrepared flags = record {
  manager = manager_options flags;
  only = refl;
  probes = refl;
  elects = refl;
  serves = refl;
  controllers = set_up_once flags;
  checked = refl;
}

-- The manager starts last, and only where all else is in place: if the program starts it, that is
-- the program's last call, every call before it was accepted, and these have made one manager with
-- the addresses and the election of the flags, have set up one controller for each of the ten
-- resources, and have added the two checks.
pub main-starts_last :
    (answers : Answers) (parse : Flags → Flags)
    → starts (main answers parse).1 ≡ true
    → (before : Trace) × ((main answers parse).1 ≡ Event.start ∷ before)
      × AllAccepted answers before
      × IsPrepared (parse default_flags) before
unfolding main steps
main-starts_last answers parse q =
    let flags = parse default_flags in
    let (last, accepted) = last_step answers (before_start flags) [] (others flags) tt refl q in
    (done (before_start flags) [], last, accepted, before_start-IsPrepared flags)
