-- ===== src/Tests/Conflicts.antt =====
-- A worker's mark, with an API server that refuses old statuses.
use text.Mathlib.TextEquality.{eq_iff}
use text.Mathlib.TextPositions.{len-append}
use Prim.Native.String.{len}
use kt_cloud_operator.Common.{
  Bool-cases, inl, inr, false, ◌≡◌, refl, ap, sym, ◌∙◌, Bool, true, ◌∷◌, [], if◌then◌else◌, ◌⊎◌,
  contains, String, ◌<>◌, ◌==◌, ◌&&◌, &&-right, arith,
}
use kt_cloud_operator.Api.{KtMachine, NamespacedName}
use kt_cloud_operator.Httpapi.Send.{
  send, read_all, client_or_panic, client_or_fatal, get_rest_config, get_client,
}
use kt_cloud_operator.Httpapi.Bootstrap.{check_control_plane_machine_ready}
use kt_cloud_operator.Httpapi.ControlPlaneVm.{
  with_status, update_vm_status, post_server, handle_created,
}
use kt_cloud_operator.Httpapi.WorkerVm.{create_worker_vm, pick_control_plane, join_control_plane}
use kt_cloud_operator.Controller.Infrastructure.{
  set_joined, set_bootstrap_ready, join_worker, update_status, refresh_worker, reconcile_worker,
  reconcile_infrastructure,
}
use kt_cloud_operator.Controller.KtMachines.{reconcile_machine, reconcile}
use kt_cloud_operator.Httpapi.Servers.{get_created_vm}
use kt_cloud_operator.Controller.Lifecycle.Passes.{Passes}
use kt_cloud_operator.Controller.Lifecycle.Versions.{Versions}
use kt_cloud_operator.Controller.Lifecycle.JoinMarks.{
  RefusedFor, AnswersUnjoined, Passes-RefusedFor,
}
use kt_cloud_operator.Controller.Lookup.{
  is_bootstrap_ready, get_subject_token, get_machine_associated_cluster,
  get_bootstrap_ready_machine_control_plane,
}
use kt_cloud_operator.Controller.KtMachines.Conflicts.{
  WasRefused, KeepsServer, mark_call, join_worker-created_conflicts,
}
use kt_cloud_operator.Controller.Lifecycle.{Store, Same, is_named}
use kt_cloud_operator.Runtime.Calls.{
  Object, Error, Call, History, machine, errors_new, http, get, list, create, update, delete, rand,
  now, sleep,
}
use kt_cloud_operator.Runtime.Env.{Env, Result, value, failure}
use kt_cloud_operator.Runtime.Effects.{err, catch, history, first, ◌>>=◌}
use kt_cloud_operator.Tests.World.{world, success, refused as forbidden, plane, worker}
use kt_cloud_operator.Tests.World.Stores.{stored_where, others, writes}

abbrev worker_key : NamespacedName
worker_key = record { name = "kt-cluster1-md-0-x"; namespace = "default" }

abbrev modified : Error
modified = errors_new "the object has been modified"

-- Each version is the last one with a mark behind it.
abbrev bumped : KtMachine → KtMachine
bumped n = record n { meta = record n.meta { resource_version = n.meta.resource_version <> "+" } }

abbrev is_current : KtMachine → KtMachine → Bool
is_current old n = n.meta.resource_version == old.meta.resource_version

abbrev stored_worker : History → KtMachine
stored_worker = stored_where is_current bumped worker_key

abbrev saved : KtMachine → KtMachine → Result KtMachine
saved old n = if is_current old n then value (bumped n) else failure modified

-- A world with one worker, whose old statuses the API server refuses.
abbrev versioned : Env → Env
versioned env = record env {
  get_machine = λ h key. value (stored_worker h);
  list_machines = λ h _. value (plane ∷ []);
  update_machine_status = λ h n. saved (stored_worker h) n;
}

saved-value :
    (old n k : KtMachine) → saved old n ≡ value k → (is_current old n ≡ true) × (bumped n ≡ k)
saved-value old n k e = elim (Bool-cases (is_current old n)) [
  | inl taken ↦ (let f : value (bumped n) ≡ value k = rw taken at e in (taken, cc))
  | inr refused ↦ let f : failure modified ≡ value k = rw refused at e in cc
]

saved-failure : (old n : KtMachine) (x : Error) → saved old n ≡ failure x → is_current old n ≡ false
saved-failure old n x e = elim (Bool-cases (is_current old n)) [
  | inl taken ↦ let f : value (bumped n) ≡ failure x = rw taken at e in cc
  | inr refused ↦ refused
]

bumped-Same : (n : KtMachine) → Same n (bumped n)
bumped-Same n = record { name = refl; namespace = refl; cluster = refl; status = refl }

version-ne-next : (v : String) → (v == v <> "+") ≡ false
version-ne-next v = elim (Bool-cases (v == v <> "+")) [
  | inl same ↦
      let lengths = ap len ((eq_iff v (v <> "+")).0 same) ∙ len-append v "+" in absurd (omega arith)
  | inr distinct ↦ distinct
]

stored_worker-named : (h : History) → is_named worker_key (machine (stored_worker h)) ≡ true
unfolding stored_where
stored_worker-named [] = refl
stored_worker-named (Call.update_status (machine n) ∷ h) =
    elim (Bool-cases (is_current (stored_worker h) n && is_named worker_key (machine n))) [
      | inl this ↦ rw this (&&-right (is_current (stored_worker h) n) _ this)
      | inr another ↦ rw another (stored_worker-named h)
    ]
stored_worker-named (Call.update_status (Object.template _) ∷ h) = stored_worker-named h
stored_worker-named (Call.update_status (Object.deployment _) ∷ h) = stored_worker-named h
stored_worker-named (Call.update_status (Object.kt_cluster _) ∷ h) = stored_worker-named h
stored_worker-named (Call.update_status (Object.cluster _) ∷ h) = stored_worker-named h
stored_worker-named (Call.update_status (Object.token _) ∷ h) = stored_worker-named h
stored_worker-named (Call.update_status (Object.firewall _) ∷ h) = stored_worker-named h
stored_worker-named (Call.update_status (Object.secret _) ∷ h) = stored_worker-named h
stored_worker-named (http r ∷ h) = stored_worker-named h
stored_worker-named (get k n ∷ h) = stored_worker-named h
stored_worker-named (list k n ∷ h) = stored_worker-named h
stored_worker-named (create o ∷ h) = stored_worker-named h
stored_worker-named (update o ∷ h) = stored_worker-named h
stored_worker-named (delete o ∷ h) = stored_worker-named h
stored_worker-named (rand n ∷ h) = stored_worker-named h
stored_worker-named (now ∷ h) = stored_worker-named h
stored_worker-named (sleep n ∷ h) = stored_worker-named h

module _ (env : Env) where
  abbrev versioned_store : Store (versioned env) worker_key
  versioned_store = record {
    stored = stored_worker;
    reads = λ h m e. cc;
    others = others is_current bumped worker_key;
    writes = writes is_current bumped worker_key bumped-Same;
    answers = λ n k h e.
        let same = (saved-value (stored_worker h) n k e).1 in rw (sym same) (bumped-Same n);
  }

  stores :
      (n k : KtMachine) (h : History)
      → is_named worker_key (machine n) ≡ true
      → saved (stored_worker h) n ≡ value k
      → Same n (stored_worker (Call.update_status (machine n) ∷ h))
  unfolding stored_where
  stores n k h named e = rw ((saved-value (stored_worker h) n k e).0, named) (bumped-Same n)

  versions : Versions (versioned env) worker_key versioned_store
  unfolding stored_where
  versions = record {
    named = stored_worker-named;
    stale = λ n h named old. (modified, rw old refl);
    unstored = λ n x h e. rw (saved-failure (stored_worker h) n x e);
    bumps = λ n k h named e.
        rw ((saved-value (stored_worker h) n k e).0, named)
          (version-ne-next n.meta.resource_version);
  }

abbrev listed_calls : History
listed_calls = history (get_bootstrap_ready_machine_control_plane (versioned world) worker [])

abbrev joined_calls : History
joined_calls =
    history (join_control_plane (versioned world) (plane ∷ []) worker "secret" listed_calls)

join_worker-created_conflicts_example :
    WasRefused (versioned world) joined_calls
    ⊎ ((x : Error) × (join_worker (versioned world) worker "secret" []
          ≡ err x (mark_call worker ∷ joined_calls))
        × KeepsServer
            (versioned world)
            (stored_worker (mark_call worker ∷ joined_calls))
            joined_calls)
unfolding get_bootstrap_ready_machine_control_plane is_bootstrap_ready join_control_plane
    pick_control_plane check_control_plane_machine_ready create_worker_vm post_server handle_created
    send read_all client_or_panic client_or_fatal get_rest_config get_client update_vm_status
    with_status set_joined set_bootstrap_ready contains first catch stored_where ◌>>=◌
join_worker-created_conflicts_example =
    join_worker-created_conflicts (versioned world) worker_key (versioned_store world)
      (versions world) (stores world) worker plane [] "secret" [] listed_calls joined_calls refl
      refl refl refl

-- The cloud refuses all that is about servers.
abbrev serverless : Env
serverless = record world {
  do_request = λ _ r. value (if contains r.url "/server/servers" then forbidden else success);
}

unjoined : AnswersUnjoined (versioned serverless)
unjoined = record {
  posted = λ s a. (let e = a.parsed in cc);
  got = λ id s a. (let e = a.parsed in cc);
}

abbrev marked_calls : History
marked_calls = history (reconcile (versioned serverless) worker_key [])

Passes-RefusedFor_example : RefusedFor (versioned serverless) worker_key marked_calls
unfolding stored_where reconcile reconcile_machine get_subject_token get_machine_associated_cluster
    reconcile_infrastructure reconcile_worker join_worker get_bootstrap_ready_machine_control_plane
    is_bootstrap_ready join_control_plane pick_control_plane check_control_plane_machine_ready
    create_worker_vm post_server handle_created send read_all set_joined set_bootstrap_ready
    contains first catch update_status refresh_worker get_created_vm ◌>>=◌
Passes-RefusedFor_example =
    Passes-RefusedFor (versioned serverless) worker_key (versioned_store serverless)
      (versions serverless) unjoined [] marked_calls (Passes.pass Passes.start) refl refl
