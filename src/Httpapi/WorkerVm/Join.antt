-- ===== src/Httpapi/WorkerVm/Join.antt =====
-- Which control plane a worker joins, and what happens when the cloud refuses the server.
use kt_cloud_operator.Common.{
  String, ◌≡◌, refl, ◌∙◌, false, List, [], ◌∷◌, ◌++◌, none, is_2xx, is_empty,
}
use kt_cloud_operator.Api.{KtMachine, AssignedPublicIps, zero_machine}
use kt_cloud_operator.Httpapi.Send.{auth_headers, api_url, send, read_all}
use kt_cloud_operator.Httpapi.ControlPlaneVm.{request_payload, handle_created, post_server}
use kt_cloud_operator.Httpapi.Bootstrap.{check_control_plane_machine_ready}
use kt_cloud_operator.Httpapi.WorkerVm.{create_worker_vm, pick_control_plane, join_control_plane}
use kt_cloud_operator.Runtime.Calls.{Error, Method, Body, Response, History}
use kt_cloud_operator.Runtime.Env.{Env}
use kt_cloud_operator.Runtime.Effects.{ok, err, panic, pure, ◌>>=◌, first}
use kt_cloud_operator.Runtime.Steps.{catch-of_ok, catch-of_err}

-- None of the machines is ready, each asked after the ones before it.
pub data NoneReady (env : Env) : List KtMachine → History → History → Type 0 where
  no_more : {h : History} → NoneReady env [] h h
  not_ready :
      {m : KtMachine} {ms : List KtMachine} {h h₁ h' : History} (e : Error)
      → check_control_plane_machine_ready env m h ≡ err e h₁
      → NoneReady env ms h₁ h'
      → NoneReady env (m ∷ ms) h h'

pick_control_plane-none :
    (env : Env) {ms : List KtMachine} {h h' : History}
    → NoneReady env ms h h'
    → pick_control_plane env ms h ≡ ok zero_machine h'
unfolding pick_control_plane pure
pick_control_plane-none env no_more = refl
pick_control_plane-none env (not_ready e failed rest) =
    catch-of_err _ _ _ failed ∙ pick_control_plane-none env rest

-- When no control plane of a non-empty list answers, the join does not report an error: it takes
-- the first public address of Go's zero machine, which has none, and panics.
pub join_control_plane-NoneReady :
    (env : Env) (p : KtMachine) (ps : List KtMachine) (m : KtMachine) (token : String)
    (h h' : History)
    → NoneReady env (p ∷ ps) h h'
    → join_control_plane env (p ∷ ps) m token h ≡ panic "index out of range" h'
unfolding join_control_plane first ◌>>=◌
join_control_plane-NoneReady env p ps m token h h' unready =
    rw (pick_control_plane-none env unready)

pick_control_plane-first :
    (env : Env) (m : KtMachine) (after : List KtMachine) {before : List KtMachine}
    {h h₁ h' : History}
    → NoneReady env before h h₁
    → check_control_plane_machine_ready env m h₁ ≡ ok tt h'
    → pick_control_plane env (before ++ m ∷ after) h ≡ ok m h'
unfolding pick_control_plane pure
pick_control_plane-first env m after no_more ready = catch-of_ok _ _ _ ready
pick_control_plane-first env m after (not_ready e failed rest) ready =
    catch-of_err _ _ _ failed ∙ pick_control_plane-first env m after rest ready

not_empty :
    (before : List KtMachine) (m : KtMachine) (after : List KtMachine)
    → is_empty (before ++ m ∷ after) ≡ false
not_empty [] m after = refl
not_empty (_ ∷ _) m after = refl

-- The worker joins the first control plane that answers: where those before it do not, and it has a
-- public address, the join is the creation of the worker's server with the private address that is
-- paired with the plane's first public one.
pub join_control_plane-first_ready :
    (env : Env) (before : List KtMachine) (p : KtMachine) (after : List KtMachine) (m : KtMachine)
    (token : String) (ip : AssignedPublicIps) (ips : List AssignedPublicIps) (h : History)
    {h₁ h' : History}
    → NoneReady env before h h₁
    → check_control_plane_machine_ready env p h₁ ≡ ok tt h'
    → p.status.assigned_public_ips ≡ ip ∷ ips
    → join_control_plane env (before ++ p ∷ after) m token h
      ≡ (create_worker_vm env m token ip.paired_pvt_network.vm_pvt_ip >>= λ _. pure tt) h'
unfolding join_control_plane first ◌>>=◌
join_control_plane-first_ready env before p after m token ip ips h unready ready has =
    rw (pick_control_plane-first env p after unready ready, not_empty before p after, has)

-- A refusal is no error: where the cloud answers the request for a server with a status outside
-- 200 to 299, the request and its answer are all that happens, and the machine is returned as it is
-- with no error.
pub post_server-refused :
    (env : Env) (m : KtMachine) (token user_data : String) (r : Response) (h : History)
    {h' : History}
    → send env Method.post
        (api_url env "/server/servers")
        (auth_headers token)
        (Body.server (request_payload m user_data))
        h
      ≡ ok r h'
    → r.read_error ≡ none
    → is_2xx r.status_code ≡ false
    → post_server env m token user_data h ≡ ok m h'
unfolding post_server handle_created read_all ◌>>=◌
post_server-refused env m token user_data r h sent whole refused = rw (sent, whole, refused)
