-- ===== src/Tests/Workers.antt =====
-- Sequences of passes over a worker that the cloud has created.
use kt_cloud_operator.Common.{refl, ◌≡◌, false, ◌∷◌, [], contains}
use kt_cloud_operator.Api.{KtMachine, NamespacedName, zero_status}
use kt_cloud_operator.Httpapi.Creates.{creates_server}
use kt_cloud_operator.Controller.Infrastructure.Creates.{needs_server}
use kt_cloud_operator.Controller.KtMachines.{reconcile}
use kt_cloud_operator.Controller.Lifecycle.Passes.{Passes}
use kt_cloud_operator.Controller.Lifecycle.Servers.{AnswersId}
use kt_cloud_operator.Controller.Lifecycle.WorkerServers.{AnswersState, Passes-no_create_worker}
use kt_cloud_operator.Runtime.Calls.{Call, History, machine}
use kt_cloud_operator.Runtime.Effects.{history}
use kt_cloud_operator.Runtime.Since.{Since}
use kt_cloud_operator.Tests.World.{worker}
use kt_cloud_operator.Tests.World.Stores.{stored_where, storing_world, the_store}

abbrev worker_key : NamespacedName
worker_key = record { name = "kt-cluster1-md-0-x"; namespace = "default" }

-- The worker's server has just been created.
abbrev creating : KtMachine
creating = record worker { status = record zero_status { id = "vm-1"; status = "Creating" } }

abbrev created : History
created = Call.update_status (machine creating) ∷ []

ids : AnswersId storing_world
ids = record {
  posted = λ s a. (let e = a.parsed in cc);
  got = λ id s has a. (let e = a.parsed in cc);
}

states : AnswersState storing_world
states = record {
  state = λ id s has a. (let e = a.parsed in cc);
  known = λ id s a has. (let e = a.parsed in cc);
}

-- The calls up to the end of one pass.
abbrev refreshed : History
refreshed = history (reconcile storing_world worker_key created)

Passes-no_create_worker_example :
    Since
      (λ c. creates_server c ≡ false)
      refreshed
      (history (reconcile storing_world worker_key refreshed))
unfolding contains stored_where needs_server
Passes-no_create_worker_example =
    Passes-no_create_worker storing_world worker_key (the_store worker_key) ids states created
      refreshed (Passes.pass Passes.start) refl refl (λ e. refl)
