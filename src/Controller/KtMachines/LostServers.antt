-- ===== src/Controller/KtMachines/LostServers.antt =====
-- A server that the cloud has created and the API server does not come to know.
use kt_cloud_operator.Common.{suc, String, ◌==◌, ◌≡◌, refl, ◌∙◌, true, ◌∷◌, none, contains, is_2xx}
use kt_cloud_operator.Api.{NamespacedName, KtMachine, KtCluster}
use kt_cloud_operator.Httpapi.Types.{ServerResponse}
use kt_cloud_operator.Httpapi.Send.{send, read_all, client_or_panic}
use kt_cloud_operator.Httpapi.CloudInit.{control_plane_cloud_init}
use kt_cloud_operator.Httpapi.ControlPlaneVm.{
  with_status, update_vm_status, handle_created, post_server, create_vm,
}
use kt_cloud_operator.Httpapi.ControlPlaneVm.Outcomes.{server_request}
use kt_cloud_operator.Httpapi.Creates.{creates_server}
use kt_cloud_operator.Controller.Lookup.{control_plane_label}
use kt_cloud_operator.Controller.Infrastructure.{reconcile_control_plane, reconcile_infrastructure}
use kt_cloud_operator.Runtime.Calls.{
  Error, Request, Response, Method, History, http, update_status, machine,
}
use kt_cloud_operator.Runtime.Env.{Env, value, failure}
use kt_cloud_operator.Runtime.Effects.{ok, err, ◌>>=◌}
use kt_cloud_operator.Controller.Infrastructure.Creates.{needs_server}
use kt_cloud_operator.Controller.Lifecycle.{Store}
use kt_cloud_operator.Runtime.Steps.{>>=-of_err}
use kt_cloud_operator.Runtime.Since.{count, count-cons_true, count-cons_false}

-- The POST for a control plane's server.
abbrev pub plane_request : Env → KtMachine → String → Request
plane_request env m token = server_request env m token (env.base64_encode control_plane_cloud_init)

-- The cloud accepts the POST, and the API server then refuses the machine's new status.
pub record LosesServer (env : Env) (m : KtMachine) (token : String) (e : Error) (h : History)
    : Type 0 where
  pub is_valid : env.new_request Method.post (plane_request env m token).url ≡ none
  pub response : Response
  pub answered : env.do_request h (plane_request env m token) ≡ value response
  pub accepted : is_2xx response.status_code ≡ true
  pub whole : response.read_error ≡ none
  pub server : ServerResponse
  pub parsed : env.unmarshal_server response.body ≡ value server
  pub client :
      client_or_panic env (http (plane_request env m token) ∷ h)
      ≡ ok tt (http (plane_request env m token) ∷ h)
  pub refused :
      env.update_machine_status
        (http (plane_request env m token) ∷ h)
        (with_status m server.server "Creating")
      ≡ failure e

-- The calls of the pass.
abbrev pub lost_calls :
    (env : Env) (m : KtMachine) (token : String) (e : Error) (h : History)
    → LosesServer env m token e h
    → History
lost_calls env m token e h l =
    update_status (machine (with_status m l.server.server "Creating"))
    ∷ http (plane_request env m token)
    ∷ h

create_vm-loses :
    (env : Env) (m : KtMachine) (token : String) (e : Error) (h : History)
    (l : LosesServer env m token e h)
    → create_vm env m token h ≡ err e (lost_calls env m token e h l)
unfolding create_vm post_server send handle_created read_all update_vm_status ◌>>=◌
create_vm-loses env m token e h l =
    rw (l.is_valid, l.answered, l.whole, l.accepted, l.parsed, l.client, l.refused) refl

-- A failed write of the new status loses a server: where the cloud accepts the POST of a control
-- plane without an identifier, and the API server then refuses the status, reconciliation returns
-- that error after exactly one POST that creates a server, and the stored machine is as it was and
-- still needs a server, so that the next pass asks for another one. A status write that is refused
-- stores nothing.
pub reconcile_infrastructure-loses_server :
    (env : Env) (key : NamespacedName) (store : Store env key) (c : KtCluster) (token : String)
    (e : Error) (h : History) (l : LosesServer env (store.stored h) token e h)
    → ((n : KtMachine) (x : Error) (k : History)
        → env.update_machine_status k n ≡ failure x
        → store.stored (update_status (machine n) ∷ k) ≡ store.stored k)
    → contains (store.stored h).meta.name control_plane_label ≡ true
    → ((store.stored h).status.id == "") ≡ true
    → (reconcile_infrastructure env (store.stored h) c token h
        ≡ err e (lost_calls env (store.stored h) token e h l))
      × (count creates_server (lost_calls env (store.stored h) token e h l)
          ≡ suc (count creates_server h))
      × (store.stored (lost_calls env (store.stored h) token e h l) ≡ store.stored h)
      × (needs_server (store.stored (lost_calls env (store.stored h) token e h l)) ≡ true)
unfolding reconcile_infrastructure reconcile_control_plane needs_server
reconcile_infrastructure-loses_server env key store c token e h l unstored label absent =
    let m = store.stored h in
    let posted = http (plane_request env m token) in
    let same =
      unstored (with_status m l.server.server "Creating") e (posted ∷ h) l.refused
      ∙ store.others posted h refl in
    (
      rw (label, absent) (>>=-of_err (create_vm env m token) _ (create_vm-loses env m token e h l)),
      count-cons_false creates_server _ (posted ∷ h) refl
          ∙ count-cons_true creates_server posted h refl,
      same,
      rw same (rw (label, absent) refl),
    )
