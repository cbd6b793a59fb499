-- ===== src/Httpapi/ControlPlaneVm/Outcomes.antt =====
-- What a request for a server that returns no error has done.
use kt_cloud_operator.Common.{String, ◌≡◌, ◌∙◌, sym, true, false, ◌∷◌, Bool-cases, inl, inr, is_2xx}
use kt_cloud_operator.Api.{KtMachine}
use kt_cloud_operator.Httpapi.Types.{ServerResponse}
use kt_cloud_operator.Httpapi.Send.{auth_headers, api_url, client_or_panic}
use kt_cloud_operator.Httpapi.Send.Answers.{send-eq_ok, read_all-eq_ok, client_or_panic-eq_ok}
use kt_cloud_operator.Httpapi.ControlPlaneVm.{
  request_payload, with_status, update_vm_status, handle_created, post_server,
}
use kt_cloud_operator.Runtime.Calls.{Method, Body, Request, Response, Object, Call, History, http}
use kt_cloud_operator.Runtime.Env.{Env, value}
use kt_cloud_operator.Runtime.Effects.{ok, lift, ◌>>=◌}
use kt_cloud_operator.Runtime.Steps.{>>=-eq_ok, lift-eq_ok, pure-eq_ok, perform-eq_ok}

abbrev pub server_request : Env → KtMachine → String → String → Request
server_request env m token user_data = record {
  method = Method.post;
  url = api_url env "/server/servers";
  headers = auth_headers token;
  body = Body.server (request_payload m user_data);
}

-- The machine `n` that is handed back, and the calls made: the cloud refused the server, or the
-- answer's server was stored as the machine's status with the state "Creating".
pub data Posted (env : Env) (m : KtMachine) (token user_data : String) (h : History) (n : KtMachine)
    (h' : History) : Type 0 where
  was_refused :
      (r : Response)
      → env.do_request h (server_request env m token user_data) ≡ value r
      → is_2xx r.status_code ≡ false
      → n ≡ m
      → h' ≡ http (server_request env m token user_data) ∷ h
      → Posted env m token user_data h n h'
  was_created :
      (r : Response) (s : ServerResponse)
      → env.do_request h (server_request env m token user_data) ≡ value r
      → is_2xx r.status_code ≡ true
      → env.unmarshal_server r.body ≡ value s
      → env.update_machine_status
          (http (server_request env m token user_data) ∷ h)
          (with_status m s.server "Creating")
        ≡ value n
      → h'
        ≡ Call.update_status (Object.machine (with_status m s.server "Creating"))
          ∷ http (server_request env m token user_data)
          ∷ h
      → Posted env m token user_data h n h'

module _ (env : Env) (m : KtMachine) where
  store_created-eq_ok :
      (body : String) (h : History) {n : KtMachine} {h' : History}
      → (lift (env.unmarshal_server body) >>= λ s.
            client_or_panic env >>= λ _. update_vm_status env m s.server "Creating")
          h
        ≡ ok n h'
      → (s : ServerResponse) × (env.unmarshal_server body ≡ value s)
        × (env.update_machine_status h (with_status m s.server "Creating") ≡ value n)
        × (h' ≡ Call.update_status (Object.machine (with_status m s.server "Creating")) ∷ h)
  unfolding update_vm_status
  store_created-eq_ok body h e =
      let (s, h₁, parsed, e₁) = >>=-eq_ok {A = ServerResponse} _ _ h e in
      let (_, h₂, client, e₂) = >>=-eq_ok {A = Unit {0}} _ _ h₁ e₁ in
      let (answer, same) = lift-eq_ok _ h parsed in
      let calls = client_or_panic-eq_ok env h₁ client ∙ same in
      let (stored, last) = perform-eq_ok _ _ h (rw calls at e₂) in (s, answer, stored, last)

  handle_created-eq_ok :
      (token user_data : String) (r : Response) (h k : History) {n : KtMachine} {h' : History}
      → env.do_request h (server_request env m token user_data) ≡ value r
      → k ≡ http (server_request env m token user_data) ∷ h
      → handle_created env m r k ≡ ok n h'
      → Posted env m token user_data h n h'
  unfolding handle_created
  handle_created-eq_ok token user_data r h k answer sent e =
      let (body, k₁, read, e₁) = >>=-eq_ok {A = String} _ _ k e in
      let (whole, same) = read_all-eq_ok r k read in
      let calls = same ∙ sent in
      elim (Bool-cases (is_2xx r.status_code)) [
        | inl good ↦
            let run = rw good at e₁ in
            let (s, parsed, stored, last) = store_created-eq_ok body _ (rw calls at run) in
            was_created r s answer good (rw whole at parsed) stored last
        | inr bad ↦
            let (handed_back, last) = pure-eq_ok m k₁ (rw bad at e₁) in
            was_refused r answer bad (sym handed_back) (last ∙ calls)
      ]

-- What a request for a server comes to, where it returns no error: the cloud has answered the one
-- POST with the machine's payload, and either its status is outside 200 to 299, the machine is handed
-- back as it was and nothing is stored, or the server of the answer has become the machine's status, with
-- the state "Creating", in one write, and the machine handed back is the one that the API server
-- returned.
pub post_server-Posted :
    (env : Env) (m : KtMachine) (token user_data : String) (h : History) {n : KtMachine}
    {h' : History}
    → post_server env m token user_data h ≡ ok n h'
    → Posted env m token user_data h n h'
unfolding post_server
post_server-Posted env m token user_data h e =
    let (r, h₁, sent, e₁) = >>=-eq_ok {A = Response} _ _ h e in
    let (answer, calls) = send-eq_ok env (server_request env m token user_data) h sent in
    handle_created-eq_ok env m token user_data r h h₁ answer calls e₁
