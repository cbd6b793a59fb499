-- ===== src/Tests/Lifecycle.antt =====
-- Sequences of passes of the reconciler of machines.
use kt_cloud_operator.Common.{ap, sym, ◌≡◌, refl, suc, true, inl, false, [], ◌∷◌, contains}
use kt_cloud_operator.Api.{KtMachine, NamespacedName, zero_status}
use kt_cloud_operator.Httpapi.Send.{
  send, read_all, client_or_panic, client_or_fatal, get_rest_config, get_client,
}
use kt_cloud_operator.Httpapi.Bootstrap.{check_control_plane_machine_ready}
use kt_cloud_operator.Httpapi.Servers.{get_created_vm}
use kt_cloud_operator.Httpapi.Kubeconfigs.{
  fetch_kubeconfig, fetched_data, kubeconfig_secret, change_kubeconfig_domain,
  fetch_and_create_kubeconfig_secret,
}
use kt_cloud_operator.Httpapi.Creates.{creates_server}
use kt_cloud_operator.Controller.Results.{requeue}
use kt_cloud_operator.Controller.Lookup.{
  is_bootstrap_ready, get_machine_associated_cluster, get_subject_token,
}
use kt_cloud_operator.Controller.Infrastructure.{
  set_bootstrap_ready, waits_for_bootstrap, update_status, sync_status, ensure_network,
  finish_bootstrap, ensure_bootstrap, reconcile_active, reconcile_created, reconcile_control_plane,
  reconcile_infrastructure,
}
use kt_cloud_operator.Controller.KtMachines.{reconcile_machine, reconcile}
use kt_cloud_operator.Controller.Lifecycle.{Store, Same, is_named}
use kt_cloud_operator.Controller.Infrastructure.Creates.{needs_server}
use kt_cloud_operator.Controller.KtMachines.LostServers.{
  LosesServer, plane_request, lost_calls, reconcile_infrastructure-loses_server,
}
use kt_cloud_operator.Controller.KtMachines.Boots.{
  Boots, IsWaiting, ready_call, reconcile-boots_ready,
}
use kt_cloud_operator.Runtime.Env.{Env, value, failure}
use kt_cloud_operator.Controller.Lifecycle.Passes.{Passes}
use kt_cloud_operator.Controller.Lifecycle.Servers.{AnswersId, Passes-no_create}
use kt_cloud_operator.Controller.Lifecycle.Marks.{
  AnswersUnmarked, AnswersUnready, ReadsByName, HasSecret, IsCalm, Passes-HasSecret, Passes-IsCalm,
}
use kt_cloud_operator.Runtime.Calls.{Kind, Error, Object, Call, History, machine, http, errors_new}
use kt_cloud_operator.Runtime.Effects.{ok, err, catch, history, first, ◌>>=◌}
use kt_cloud_operator.Runtime.Since.{Since, count}
use kt_cloud_operator.Tests.World.{
  plane, worker, the_token, new_machine_named, success, the_cluster,
}
use kt_cloud_operator.Tests.World.Stores.{
  cluster_named, stored_where, stored_in, storing_world, the_store,
}

abbrev plane_key : NamespacedName
plane_key = record { name = "kt-cluster1-control-plane-x"; namespace = "default" }

-- The control plane is stored, and waits for its bootstrap server.
abbrev waiting : History
waiting = Call.update_status (machine (set_bootstrap_ready plane false)) ∷ []

-- The calls up to the end of one pass over it.
abbrev passed : History
passed = history (reconcile storing_world plane_key waiting)

ids : AnswersId storing_world
ids = record {
  posted = λ s a. (let e = a.parsed in cc);
  got = λ id s has a. (let e = a.parsed in cc);
}

unmarked : AnswersUnmarked storing_world
unmarked = record {
  posted = λ s a. (let e = a.parsed in cc);
  got = λ id s a. (let e = a.parsed in cc);
}

-- The one cluster is found under its name alone.
by_name : ReadsByName storing_world
by_name h key c e = let same : cluster_named key.name ≡ c = cc in ap (λ x. x.meta.name) (sym same)

unready : AnswersUnready storing_world
unready = record {
  posted = λ s a. (let e = a.parsed in cc);
  got = λ id s a. (let e = a.parsed in cc);
}

Passes-no_create_example :
    Since
      (λ c. creates_server c ≡ false)
      passed
      (history (reconcile storing_world plane_key passed))
unfolding contains stored_where set_bootstrap_ready
Passes-no_create_example =
    Passes-no_create storing_world plane_key (the_store plane_key) ids waiting passed
      (Passes.pass Passes.start) refl refl

Passes-HasSecret_example : HasSecret storing_world "kt-cluster1" passed
unfolding contains stored_where set_bootstrap_ready reconcile reconcile_machine get_subject_token
    get_machine_associated_cluster reconcile_infrastructure reconcile_control_plane
    reconcile_created get_created_vm send read_all sync_status reconcile_active ensure_network
    ensure_bootstrap waits_for_bootstrap finish_bootstrap check_control_plane_machine_ready first
    fetch_and_create_kubeconfig_secret fetch_kubeconfig fetched_data kubeconfig_secret
    change_kubeconfig_domain update_status ◌>>=◌
Passes-HasSecret_example =
    Passes-HasSecret storing_world plane_key (the_store plane_key) by_name unready waiting passed
      (Passes.pass Passes.start) refl refl

Passes-IsCalm_example :
    IsCalm (check_control_plane_machine_ready storing_world (stored_in plane_key waiting) [])
unfolding stored_where set_bootstrap_ready
Passes-IsCalm_example =
    Passes-IsCalm storing_world plane_key (the_store plane_key) unmarked waiting waiting
      Passes.start (λ e. refl) refl []

-- The API server refuses every status write, and stores nothing.
abbrev conflict : Error
conflict = errors_new "the object has been modified"

abbrev refusing_store : Env
refusing_store = record storing_world {
  get_machine = λ h key. value (new_machine_named key.name);
  update_machine_status = λ _ _. failure conflict;
}

abbrev never_written : Store refusing_store plane_key
never_written = record {
  stored = λ h. new_machine_named "kt-cluster1-control-plane-x";
  reads = λ h m e. cc;
  others = λ c h e. refl;
  writes = λ n h. inl refl;
  answers = λ n k h e. cc;
}

client_made :
    client_or_panic refusing_store (
      http (plane_request refusing_store (new_machine_named "kt-cluster1-control-plane-x") "secret")
      ∷ [])
    ≡ ok tt (
        http
          (plane_request refusing_store (new_machine_named "kt-cluster1-control-plane-x") "secret")
        ∷ [])
unfolding client_or_panic client_or_fatal get_rest_config get_client catch ◌>>=◌
client_made = refl

abbrev losing :
    LosesServer refusing_store
      (new_machine_named "kt-cluster1-control-plane-x")
      "secret"
      conflict
      []
losing = record {
  is_valid = refl;
  response = success;
  answered = refl;
  accepted = refl;
  whole = refl;
  server = record { server = record zero_status { id = "vm-1"; status = "ACTIVE" } };
  parsed = refl;
  client = client_made;
  refused = refl;
}

reconcile_infrastructure-loses_server_example :
    (reconcile_infrastructure refusing_store (never_written.stored []) the_cluster "secret" []
      ≡ err conflict
          (lost_calls refusing_store (never_written.stored []) "secret" conflict [] losing))
    × (count creates_server
          (lost_calls refusing_store (never_written.stored []) "secret" conflict [] losing)
        ≡ suc (count creates_server []))
    × (never_written.stored
          (lost_calls refusing_store (never_written.stored []) "secret" conflict [] losing)
        ≡ never_written.stored [])
    × (needs_server (
          never_written.stored
            (lost_calls refusing_store (never_written.stored []) "secret" conflict [] losing))
        ≡ true)
unfolding contains
reconcile_infrastructure-loses_server_example =
    reconcile_infrastructure-loses_server refusing_store plane_key never_written the_cluster
      "secret" conflict [] losing (λ n x k e. refl) refl refl

-- The pass over the waiting control plane, call by call.
abbrev held : KtMachine
held = set_bootstrap_ready plane false

abbrev token_calls : History
token_calls =
    history (get_subject_token storing_world held (Call.get Kind.machine plane_key ∷ waiting))

abbrev cluster_calls : History
cluster_calls = history (get_machine_associated_cluster storing_world held token_calls)

abbrev status_calls : History
status_calls = history (get_created_vm storing_world held "secret" cluster_calls)

abbrev check_calls : History
check_calls = history (check_control_plane_machine_ready storing_world held status_calls)

abbrev secret_calls : History
secret_calls = history (
    fetch_and_create_kubeconfig_secret storing_world held (cluster_named "kt-cluster1") check_calls)

waiting_is_read : storing_world.get_machine waiting plane_key ≡ value (stored_in plane_key waiting)
waiting_is_read = refl

boots : Boots storing_world plane_key (stored_in plane_key waiting) waiting
unfolding stored_where get_subject_token get_machine_associated_cluster get_created_vm send read_all
    check_control_plane_machine_ready first fetch_and_create_kubeconfig_secret fetch_kubeconfig
    fetched_data kubeconfig_secret change_kubeconfig_domain set_bootstrap_ready ◌>>=◌
boots = record {
  read = refl;
  token = the_token;
  h₁ = token_calls;
  got_token = refl;
  has_token = refl;
  cluster = cluster_named "kt-cluster1";
  h₂ = cluster_calls;
  got_cluster = refl;
  status = record zero_status { id = "vm-1"; status = "ACTIVE" };
  h₃ = status_calls;
  got_status = refl;
  unchanged = refl;
  h₄ = check_calls;
  answers = refl;
  h₅ = secret_calls;
  made_secret = refl;
  stored = set_bootstrap_ready plane true;
  accepted = refl;
}

waits : IsWaiting (stored_in plane_key waiting)
unfolding stored_where set_bootstrap_ready waits_for_bootstrap contains
waits = record {
  labelled = refl;
  has_server = refl;
  active = refl;
  has_address = refl;
  waits = refl;
}

-- What is written under the key is stored.
stores :
    (n k : KtMachine) (l : History)
    → is_named plane_key (Object.machine n) ≡ true
    → storing_world.update_machine_status l n ≡ value k
    → Same n (stored_in plane_key (Call.update_status (Object.machine n) ∷ l))
unfolding stored_where
stores n k l named e =
    rw named (record { name = refl; namespace = refl; cluster = refl; status = refl })

reconcile-boots_ready_example :
    (reconcile storing_world plane_key waiting
      ≡ ok (requeue 60) (ready_call (stored_in plane_key waiting) ∷ boots.h₅))
    × (is_bootstrap_ready worker
          (stored_in plane_key (ready_call (stored_in plane_key waiting) ∷ boots.h₅))
        ≡ true)
unfolding stored_where set_bootstrap_ready
reconcile-boots_ready_example =
    reconcile-boots_ready storing_world plane_key (the_store plane_key) waiting boots worker waits
      refl stores refl
