-- ===== src/Httpapi/Servers/Deletion.antt =====
-- The deletion of a server on its branches.
use kt_cloud_operator.Common.{
  String, ◌<>◌, ◌≡◌, ◌∙◌, sym, ap, true, false, ◌∷◌, none, is_empty, is_2xx, ◌==◌, ◌⊎◌, inl, inr,
  Bool-cases,
}
use kt_cloud_operator.Api.{KtMachine, KtMachineStatus}
use kt_cloud_operator.Httpapi.Send.{auth_headers, send, read_all, client_or_panic}
use kt_cloud_operator.Httpapi.Send.Answers.{send-eq_ok, read_all-eq_ok}
use kt_cloud_operator.Httpapi.Servers.{
  key_of, get_failed, server_url, get_created_vm, delete_firewall_settings,
  delete_vm_dependent_resources, post_force_delete, delete_vm,
}
use kt_cloud_operator.Httpapi.Servers.Dependents.{Freed, delete_vm_dependent_resources-Freed}
use kt_cloud_operator.Runtime.Calls.{
  Error, Method, Body, Request, Response, Kind, Call, History, http,
}
use kt_cloud_operator.Runtime.Env.{Env, value, failure}
use kt_cloud_operator.Runtime.Effects.{ok, err, pure, throw, catch, ◌>>=◌}
use kt_cloud_operator.Runtime.Steps.{>>=-eq_ok, catch-of_err, catch-eq_ok, pure-eq_ok}

get_created_vm-refused :
    (env : Env) (m : KtMachine) (token : String) (r : Response) (h : History) {h' : History}
    → send env Method.get (server_url env m) (auth_headers token) Body.empty h ≡ ok r h'
    → r.read_error ≡ none
    → is_2xx r.status_code ≡ false
    → get_created_vm env m token h ≡ err (get_failed r.status) h'
unfolding get_created_vm read_all ◌>>=◌
get_created_vm-refused env m token r h sent whole refused = rw (sent, whole, refused)

-- Deleting is idempotent: a server that the cloud no longer knows is deleted without an error, and
-- the one request that asked for it is the only one.
pub delete_vm-gone :
    (env : Env) (m : KtMachine) (token : String) (r : Response) (h : History) {h' : History}
    → send env Method.get (server_url env m) (auth_headers token) Body.empty h ≡ ok r h'
    → r.read_error ≡ none
    → r.status_code ≡ 404
    → r.status ≡ "404 Not Found"
    → delete_vm env m token h ≡ ok tt h'
unfolding delete_vm pure
delete_vm-gone env m token r h sent whole code status =
    catch-of_err _ _ _ (get_created_vm-refused env m token r h sent whole (rw code)) ∙ rw status

no_throw : {A B : Type 0} (x : Error) (h : History) {a : A} {h' : History} → throw x h ≡ ok a h' → B
unfolding throw
no_throw x h e = cc

-- A server with a public address is never deleted while its firewall's object cannot be read: the
-- deletion ends with the error of that read, which is its last call, and neither the static NATs
-- nor the server are deleted.
pub delete_vm-no_firewall :
    (env : Env) (m : KtMachine) (token : String) (s : KtMachineStatus) (e : Error) (h : History)
    {h₁ h₂ : History}
    → get_created_vm env m token h ≡ ok s h₁
    → is_empty m.status.assigned_public_ips ≡ false
    → client_or_panic env h₁ ≡ ok tt h₂
    → env.get_firewall h₂ (key_of m) ≡ failure e
    → delete_vm env m token h ≡ err e (Call.get Kind.firewall (key_of m) ∷ h₂)
unfolding delete_vm delete_vm_dependent_resources delete_firewall_settings catch ◌>>=◌
delete_vm-no_firewall env m token s e h found has_ip client missing =
    rw (found, has_ip, client, missing)

abbrev pub force_delete_request : Env → KtMachine → String → Request
force_delete_request env m token = record {
  method = Method.post;
  url = server_url env m <> "/action";
  headers = auth_headers token;
  body = Body.force_delete (record { force_delete = "null" });
}

-- The POST that deletes the server was accepted, and was the last call.
pub record ForceDeleted (env : Env) (m : KtMachine) (token : String) (h h' : History) : Type 0 where
  pub response : Response
  pub answer : env.do_request h (force_delete_request env m token) ≡ value response
  pub accepted : is_2xx response.status_code ≡ true
  pub last : h' ≡ http (force_delete_request env m token) ∷ h

post_force_delete-eq_ok :
    (env : Env) (m : KtMachine) (token : String) (h : History) {h' : History}
    → post_force_delete env m token h ≡ ok tt h'
    → ForceDeleted env m token h h'
unfolding post_force_delete
post_force_delete-eq_ok env m token h e =
    let (r, h₁, sent, e₁) = >>=-eq_ok {A = Response} _ _ h e in
    let (answer, calls) = send-eq_ok env (force_delete_request env m token) h sent in
    let (_, h₂, read, e₂) = >>=-eq_ok {A = String} _ _ h₁ e₁ in
    let (_, same) = read_all-eq_ok r h₁ read in
    elim (Bool-cases (is_2xx r.status_code)) [
      | inl good ↦ record {
        response = r;
        answer = answer;
        accepted = good;
        last = (pure-eq_ok tt h₂ (rw good at e₂)).1 ∙ same ∙ calls;
      }
      | inr bad ↦ let never = rw bad at e₂ in no_throw _ h₂ never
    ]

-- A deletion that reports success has deleted the server: either the cloud did not know it, which
-- the error's text says, and nothing was done behind the query; or the server was found, and then
-- the cloud accepted the POST that deletes it, which is the last call. Before that, where the
-- machine has public addresses, its firewall's object was deleted, and the cloud was asked to delete
-- each of the object's jobs and each of the machine's static NATs, whatever it answered; a request
-- that cannot be made is left out.
pub delete_vm-ForceDeleted :
    (env : Env) (m : KtMachine) (token : String) (h : History) {h' : History}
    → delete_vm env m token h ≡ ok tt h'
    → ((s : KtMachineStatus) × (h₁ : History) × (h₂ : History) × (get_created_vm env m token h
          ≡ ok s h₁)
        × (((is_empty m.status.assigned_public_ips ≡ true) × (h₂ ≡ h₁)) ⊎ Freed env m token h₂)
        × ForceDeleted env m token h₂ h')
      ⊎ ((e : Error) × (get_created_vm env m token h ≡ err e h')
          × ((e.text == "GET request failed with status: 404 Not Found") ≡ true))
unfolding delete_vm
delete_vm-ForceDeleted env m token h {h'} e = elim (catch-eq_ok {A = KtMachineStatus} _ _ _ h e) [
  | inl (s, h₁, found, e₁) ↦
      let (_, h₂, freed, e₂) = >>=-eq_ok {A = Unit {0}} _ _ h₁ e₁ in
      inl (
        s,
        h₁,
        h₂,
        found,
        delete_vm_dependent_resources-Freed env m token h₁ freed,
        post_force_delete-eq_ok env m token h₂ e₂,
      )
  | inr (x, h₁, failed, e₁) ↦
      elim (Bool-cases (x.text == "GET request failed with status: 404 Not Found")) [
        | inl gone ↦
            let last = (pure-eq_ok tt h₁ (rw gone at e₁)).1 in
            inr (x, failed ∙ ap (λ k. err x k) (sym last), gone)
        | inr other ↦ no_throw x h₁ (rw other at e₁)
      ]
]
