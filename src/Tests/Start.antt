-- ===== src/Tests/Start.antt =====
-- The program's start.
use kt_cloud_operator.Common.{◌≡◌, refl, true, none, some, List, [], ◌∷◌}
use kt_cloud_operator.Runtime.Calls.{errors_new}
use kt_cloud_operator.Start.{
  Flags, default_flags, TlsConfig, Event, Exit, Trace, Answers, tls_opts, metrics_server_options,
  run_steps, steps, main,
}
use kt_cloud_operator.Start.Order.{AllAccepted, IsPrepared, main-starts_last}

-- The cache of the manager cannot be made.
abbrev no_manager : Answers
no_manager _ (Event.new_manager _) = some (errors_new "unable to start manager")
no_manager _ _ = none

abbrev with_http2 : Flags → Flags
with_http2 flags = record flags { enable_http2 = true }

main-starts_last_example :
    (before : Trace) × ((main (λ _ _. none) with_http2).1 ≡ Event.start ∷ before)
    × AllAccepted (λ _ _. none) before
    × IsPrepared (with_http2 default_flags) before
unfolding main run_steps steps
main-starts_last_example = main-starts_last (λ _ _. none) with_http2 refl

exits_without_manager : (main no_manager with_http2).0 ≡ Exit.exited
unfolding main run_steps steps
exits_without_manager = refl

returns_at_the_end : (main (λ _ _. none) with_http2).0 ≡ Exit.returned
unfolding main run_steps steps
returns_at_the_end = refl

-- HTTP/2 is off unless it is asked for.
abbrev apply_all : List (TlsConfig → TlsConfig) → TlsConfig → TlsConfig
apply_all [] c = c
apply_all (f ∷ fs) c = apply_all fs (f c)

http2_is_off :
    apply_all (tls_opts default_flags) (record { next_protos = "h2" ∷ [] })
    ≡ record { next_protos = "http/1.1" ∷ [] }
unfolding tls_opts
http2_is_off = refl

http2_is_on :
    apply_all (tls_opts (with_http2 default_flags)) (record { next_protos = "h2" ∷ [] })
    ≡ record { next_protos = "h2" ∷ [] }
unfolding tls_opts
http2_is_on = refl

metrics_are_filtered : (metrics_server_options default_flags).has_filter_provider ≡ true
unfolding metrics_server_options
metrics_are_filtered = refl
