-- ===== src/Controller/KtMachines/Conflicts.antt =====
-- A worker whose server is created, and whose mark the API server then refuses, as it refuses a
-- status that was read before the server's was stored.
use kt_cloud_operator.Common.{
  String, ◌≡◌, refl, ap, ◌∙◌, true, false, List, ◌∷◌, contains, is_2xx, ◌⊎◌, inl, inr,
}
use kt_cloud_operator.Api.{NamespacedName, KtMachine}
use kt_cloud_operator.Httpapi.Types.{ServerResponse}
use kt_cloud_operator.Httpapi.ControlPlaneVm.{with_status}
use kt_cloud_operator.Httpapi.ControlPlaneVm.Outcomes.{Posted, server_request}
use kt_cloud_operator.Httpapi.ServerAnswers.{Answered, Posts}
use kt_cloud_operator.Httpapi.WorkerVm.{join_control_plane}
use kt_cloud_operator.Httpapi.WorkerVm.Joined.{join_control_plane-HasJoined}
use kt_cloud_operator.Controller.Lookup.{
  control_plane_label, get_bootstrap_ready_machine_control_plane,
}
use kt_cloud_operator.Controller.Infrastructure.{set_joined, update_status, join_worker}
use kt_cloud_operator.Controller.Infrastructure.Creates.{needs_server}
use kt_cloud_operator.Controller.Lifecycle.Versions.{Versions, conflict-after_status}
use kt_cloud_operator.Controller.Lifecycle.{Store, Same, is_named}
use kt_cloud_operator.Runtime.Calls.{http, Error, Call, Request, Response, History, machine}
use kt_cloud_operator.Runtime.Env.{Env, value, failure}
use kt_cloud_operator.Runtime.Effects.{ok, err, ◌>>=◌}

-- The write of the mark, with the status that the pass has read.
abbrev pub mark_call : KtMachine → Call
mark_call m = Call.update_status (machine (set_joined m))

-- The last of the calls asked for a server, and the cloud has refused it.
pub record WasRefused (env : Env) (h : History) : Type 0 where
  pub request : Request
  pub asks : Posts env request
  pub calls : History
  pub response : Response
  pub answered : env.do_request calls request ≡ value response
  pub refused : is_2xx response.status_code ≡ false
  pub last : h ≡ http request ∷ calls

-- The last of the calls asked for a server and wrote a status, and the machine `n` has the server
-- that the cloud has created, and needs no other.
pub record KeepsServer (env : Env) (n : KtMachine) (h : History) : Type 0 where
  pub server : ServerResponse
  pub answer : Answered env (Posts env) server
  pub written : KtMachine
  pub last : h ≡ Call.update_status (machine written) ∷ http answer.request ∷ answer.calls
  pub id : n.status.id ≡ server.server.id
  pub state : n.status.status ≡ "Creating"
  pub none_needed : needs_server n ≡ false

WasRefused-of_post :
    (env : Env) (m : KtMachine) (token script : String) (r : Response) (h h' : History)
    → env.do_request h (server_request env m token script) ≡ value r
    → is_2xx r.status_code ≡ false
    → h' ≡ http (server_request env m token script) ∷ h
    → WasRefused env h'
WasRefused-of_post env m token script r h h' answered bad last = record {
  request = server_request env m token script;
  asks = (refl, refl);
  calls = h;
  response = r;
  answered = answered;
  refused = bad;
  last = last;
}

creating-none_needed :
    (n : KtMachine)
    → contains n.meta.name control_plane_label ≡ false
    → n.status.status ≡ "Creating"
    → needs_server n ≡ false
unfolding needs_server
creating-none_needed n worker state = rw (worker, state) refl

module _ (env : Env) (key : NamespacedName) (store : Store env key)
    (stores : (n k : KtMachine) (l : History)
      → is_named key (machine n) ≡ true
      → env.update_machine_status l n ≡ value k
      → Same n (store.stored (Call.update_status (machine n) ∷ l)))
    (unstored : (n : KtMachine) (x : Error) (l : History)
      → env.update_machine_status l n ≡ failure x
      → store.stored (Call.update_status (machine n) ∷ l) ≡ store.stored l) where
  created-KeepsServer :
      (m k : KtMachine) (s : ServerResponse) (answer : Answered env (Posts env) s)
      → is_named key (machine m) ≡ true
      → contains m.meta.name control_plane_label ≡ false
      → env.update_machine_status
          (http answer.request ∷ answer.calls)
          (with_status m s.server "Creating")
        ≡ value k
      → KeepsServer env
          (store.stored (
            Call.update_status (machine (with_status m s.server "Creating"))
            ∷ http answer.request
            ∷ answer.calls))
          (Call.update_status (machine (with_status m s.server "Creating"))
            ∷ http answer.request
            ∷ answer.calls)
  unfolding with_status
  created-KeepsServer m k s answer named worker accepted =
      let same = stores (with_status m s.server "Creating") k _ named accepted in
      let state = ap (λ t. t.status) same.status in
      record {
        server = s;
        answer = answer;
        written = with_status m s.server "Creating";
        last = refl;
        id = ap (λ t. t.id) same.status;
        state = state;
        none_needed =
            creating-none_needed _ (ap (λ n. contains n control_plane_label) same.name ∙ worker)
              state;
      }

  join_outcome :
      (m n : KtMachine) (token script : String) (h h' : History)
      → is_named key (machine m) ≡ true
      → contains m.meta.name control_plane_label ≡ false
      → Posted env m token script h n h'
      → WasRefused env h' ⊎ KeepsServer env (store.stored h') h'
  join_outcome m n token script h h' named worker
        (Posted.was_refused r answered bad handed_back last) =
      inl (WasRefused-of_post env m token script r h h' answered bad last)
  join_outcome m n token script h h' named worker
        (Posted.was_created r s answered good parsed accepted last) =
      inr (
        rw last (
          created-KeepsServer m n s
            (record {
              calls = h;
              request = server_request env m token script;
              asks = (refl, refl);
              response = r;
              answered = answered;
              accepted = good;
              parsed = parsed;
            })
            named worker accepted))

  -- A conflict behind a worker's creation loses no server: where the join of a machine that is not
  -- named as a control plane returns no error, and the API server refuses the write of the mark
  -- that follows, the pass ends with that error, and either the join's last call was a POST for a
  -- server that the cloud refused, or its last two were one that the cloud accepted and a status
  -- write, and the stored machine has the identifier of the answer's server, is "Creating", and
  -- needs no other server. The API server stores an accepted status under the machine's key,
  -- and nothing of a refused one.
  pub join_worker-survives_conflict :
      (m q : KtMachine) (ps : List KtMachine) (token : String) (x : Error) (h h₁ h₂ : History)
      → is_named key (machine m) ≡ true
      → contains m.meta.name control_plane_label ≡ false
      → get_bootstrap_ready_machine_control_plane env m h ≡ ok (q ∷ ps) h₁
      → join_control_plane env (q ∷ ps) m token h₁ ≡ ok tt h₂
      → env.update_machine_status h₂ (set_joined m) ≡ failure x
      → (join_worker env m token h ≡ err x (mark_call m ∷ h₂))
        × (WasRefused env h₂ ⊎ KeepsServer env (store.stored (mark_call m ∷ h₂)) h₂)
  unfolding join_worker update_status ◌>>=◌
  join_worker-survives_conflict m q ps token x h h₁ h₂ named worker planes joined refused =
      let j = join_control_plane-HasJoined env (q ∷ ps) m token h₁ joined in
      (
        rw (planes, joined, refused) refl,
        rw (unstored (set_joined m) x h₂ refused)
            (join_outcome m j.handed_back token _ j.asked h₂ named worker j.posted),
      )

module _ (env : Env) (key : NamespacedName) (store : Store env key)
    (versions : Versions env key store)
    (stores : (n k : KtMachine) (l : History)
      → is_named key (machine n) ≡ true
      → env.update_machine_status l n ≡ value k
      → Same n (store.stored (Call.update_status (machine n) ∷ l))) where
  stale_mark :
      (m n : KtMachine) (token script : String) (h h' : History)
      → is_named key (machine m) ≡ true
      → Posted env m token script h n h'
      → WasRefused env h'
        ⊎ ((x : Error) × (env.update_machine_status h' (set_joined m) ≡ failure x))
  unfolding with_status
  stale_mark m n token script h h' named (Posted.was_refused r answered bad handed_back last) =
      inl (WasRefused-of_post env m token script r h h' answered bad last)
  stale_mark m n token script h h' named
        (Posted.was_created r s answered good parsed accepted last) =
      inr (
        rw last (
          conflict-after_status env key store versions m (with_status m s.server "Creating") n _
            named refl accepted))

  -- The mark of a worker whose server is created is always refused, and no server is lost by it:
  -- where the join of a machine that is not named as a control plane returns no error, either its
  -- last call was a POST for a server that the cloud refused, or the pass ends with an error after
  -- the mark's write, the last two calls before that were a POST that the cloud accepted and a
  -- status write, and the stored machine has the identifier of the answer's server, is "Creating",
  -- and needs no other server. The API server stores an accepted status under the machine's key,
  -- only for a machine with the stored resource version, gives it another one, and stores nothing
  -- of a status that it refuses.
  pub join_worker-created_conflicts :
      (m q : KtMachine) (ps : List KtMachine) (token : String) (h h₁ h₂ : History)
      → is_named key (machine m) ≡ true
      → contains m.meta.name control_plane_label ≡ false
      → get_bootstrap_ready_machine_control_plane env m h ≡ ok (q ∷ ps) h₁
      → join_control_plane env (q ∷ ps) m token h₁ ≡ ok tt h₂
      → WasRefused env h₂
        ⊎ ((x : Error) × (join_worker env m token h ≡ err x (mark_call m ∷ h₂))
            × KeepsServer env (store.stored (mark_call m ∷ h₂)) h₂)
  join_worker-created_conflicts m q ps token h h₁ h₂ named worker planes joined =
      let j = join_control_plane-HasJoined env (q ∷ ps) m token h₁ joined in
      elim (stale_mark m j.handed_back token _ j.asked h₂ named j.posted) [
        | inl known ↦ inl known
        | inr (x, e) ↦
            let (run, outcome) =
              join_worker-survives_conflict env key store stores versions.unstored m q ps token x h
                h₁ h₂ named worker planes joined e in
            elim outcome [ inl known ↦ inl known | inr keeps ↦ inr (x, run, keeps) ]
      ]
