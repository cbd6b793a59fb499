-- ===== src/Start.antt =====
-- cmd/main.go: the operator's flags, the options of its manager, and the steps up to its start.
pub mod Controllers
pub mod Order
pub mod Kinds
use kt_cloud_operator.Common.{
  String, Bool, true, false, Option, none, some, List, [], ◌∷◌, ◌++◌, map, if◌then◌else◌,
}
use kt_cloud_operator.Runtime.Calls.{Error}
use kt_cloud_operator.Start.Controllers.{Controller, controllers}

-- The variables that the flags are bound to.
pub record Flags : Type 0 where
  pub metrics_addr : String
  pub probe_addr : String
  pub enable_leader_election : Bool
  pub secure_metrics : Bool
  pub enable_http2 : Bool

abbrev pub default_flags : Flags
default_flags = record {
  metrics_addr = "0";
  probe_addr = ":8081";
  enable_leader_election = false;
  secure_metrics = true;
  enable_http2 = false;
}

-- `tls.Config`, of which the code sets one field.
pub record TlsConfig : Type 0 where
  pub next_protos : List String

abbrev pub disable_http2 : TlsConfig → TlsConfig
disable_http2 c = record { next_protos = "http/1.1" ∷ [] }

unfoldable pub tls_opts : Flags → List (TlsConfig → TlsConfig)
tls_opts flags = if flags.enable_http2 then [] else disable_http2 ∷ []

-- `has_filter_provider` says that `filters.WithAuthenticationAndAuthorization` is set.
pub record MetricsOptions : Type 0 where
  pub bind_address : String
  pub secure_serving : Bool
  pub tls_opts : List (TlsConfig → TlsConfig)
  pub has_filter_provider : Bool

unfoldable pub metrics_server_options : Flags → MetricsOptions
metrics_server_options flags = record {
  bind_address = flags.metrics_addr;
  secure_serving = flags.secure_metrics;
  tls_opts = tls_opts flags;
  has_filter_provider = if flags.secure_metrics then true else false;
}

-- `ctrl.Options`; the webhook server is given by its TLS options.
pub record ManagerOptions : Type 0 where
  pub metrics : MetricsOptions
  pub webhook_tls_opts : List (TlsConfig → TlsConfig)
  pub health_probe_bind_address : String
  pub leader_election : Bool
  pub leader_election_id : String

unfoldable pub manager_options : Flags → ManagerOptions
manager_options flags = record {
  metrics = metrics_server_options flags;
  webhook_tls_opts = tls_opts flags;
  health_probe_bind_address = flags.probe_addr;
  leader_election = flags.enable_leader_election;
  leader_election_id = "03f78d7a.dcnlab.ssu.ac.kr";
}

-- The calls that can fail. The first is the `init` of cmd/httpapi, which main imports through the
-- controllers, and the next two main's own, where `utilruntime.Must` panics; all others are calls
-- of client-go and controller-runtime, and end in `os.Exit(1)`.
pub data Event : Type 0 where
  process_env_variables add_client_scheme add_scheme get_config : Event
  new_manager : ManagerOptions → Event
  setup : Controller → Event
  add_healthz_check add_readyz_check : String → Event
  start : Event

pub data Exit : Type 0 where
  returned panicked exited : Exit

abbrev pub failed : Event → Exit
failed Event.process_env_variables = Exit.panicked
failed Event.add_client_scheme = Exit.panicked
failed Event.add_scheme = Exit.panicked
failed _ = Exit.exited

-- The calls made, the last one first.
abbrev pub Trace : Type 0
Trace = List Event

-- What each call answers, which may depend on those before it.
abbrev pub Answers : Type 0
Answers = Trace → Event → Option Error

-- `if err := ...; err != nil { os.Exit(1) }`, with the end of a failure and what follows.
abbrev pub unless_failed : Exit × Trace → Option Error → Exit × Trace → Exit × Trace
unless_failed stop none rest = rest
unless_failed stop (some _) rest = stop

unfoldable pub run_steps : Answers → List Event → Trace → Exit × Trace
run_steps answers [] trace = (Exit.returned, trace)
run_steps answers (e ∷ es) trace =
    let rest = run_steps answers es (e ∷ trace) in
    unless_failed (failed e, e ∷ trace) (answers trace e) rest

unfoldable pub steps : Flags → List Event
steps flags =
    Event.process_env_variables
      ∷ Event.add_client_scheme
      ∷ Event.add_scheme
      ∷ Event.get_config
      ∷ Event.new_manager (manager_options flags)
      ∷ map Event.setup controllers
    ++ Event.add_healthz_check "healthz" ∷ Event.add_readyz_check "readyz" ∷ Event.start ∷ []

-- The inits of cmd/httpapi and of main, and `main`. `flag.Parse` makes the flags from their
-- defaults and the command line.
unfoldable pub main : Answers → (Flags → Flags) → Exit × Trace
main answers parse = run_steps answers (steps (parse default_flags)) []
