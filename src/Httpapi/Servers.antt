-- ===== src/Httpapi/Servers.antt =====
-- The server calls of cmd/httpapi/common.go: `GetCreatedVM`, and `DeleteVM` with what depends on
-- the server.
pub mod Dependents
pub mod Deletion
use kt_cloud_operator.Common.{
  String, ◌<>◌, not, List, [], ◌∷◌, if◌then◌else◌, is_2xx, ◌==◌, is_empty,
}
use kt_cloud_operator.Api.{
  NamespacedName, KtMachine, KtMachineStatus, AssignedPublicIps, FirewallJobs,
}
use kt_cloud_operator.Httpapi.Send.{auth_headers, api_url, send, read_all, client_or_panic}
use kt_cloud_operator.Runtime.Calls.{Error, Method, Body, Object, Kind, Call, errors_new}
use kt_cloud_operator.Runtime.Env.{Env}
use kt_cloud_operator.Runtime.Effects.{
  M, pure, throw, lift, perform, perform_check, catch, ◌>>=◌, ◌>>◌,
}

abbrev pub key_of : KtMachine → NamespacedName
key_of machine = record { name = machine.meta.name; namespace = machine.meta.namespace }

abbrev pub get_failed : String → Error
get_failed status = errors_new ("GET request failed with status: " <> status)

module _ (env : Env) where
  abbrev pub server_url : KtMachine → String
  server_url machine = api_url env "/server/servers/" <> machine.status.id

  -- The status that is returned is never nil where there is no error.
  unfoldable pub get_created_vm : KtMachine → String → M KtMachineStatus
  get_created_vm machine token = do
    response ← send env Method.get (server_url machine) (auth_headers token) Body.empty
    body ← read_all response
    if not (is_2xx response.status_code)
        then throw (get_failed response.status)
        else do server_response ← lift (env.unmarshal_server body); pure server_response.server

  -- A DELETE, whose answer is only read for its status; `failed` begins the error's text.
  unfoldable pub delete_on_cloud : String → String → String → M (Unit {0})
  delete_on_cloud url token failed = do
    response ← send env Method.delete url (auth_headers token) Body.empty
    read_all response
    if is_2xx response.status_code then pure tt else throw (errors_new (failed <> response.status))

  abbrev pub delete_firewall_on_cloud : String → String → M (Unit {0})
  delete_firewall_on_cloud job_id token =
      delete_on_cloud (api_url env "/nsm/v1/firewall/policy/" <> job_id) token
        "delete request firewall request failed with status: "

  abbrev pub delete_static_nat_on_cloud : String → String → M (Unit {0})
  delete_static_nat_on_cloud static_nat_id token =
      delete_on_cloud (api_url env "/nsm/v1/staticNat/" <> static_nat_id) token
        "delete staticnat request failed with status: "

  -- The two loops go on past an error, which they only log.
  unfoldable pub delete_jobs : List FirewallJobs → String → M (Unit {0})
  delete_jobs [] token = pure tt
  delete_jobs (job ∷ jobs) token =
      catch (delete_firewall_on_cloud job.policy_id token) (λ _. delete_jobs jobs token)
        (λ _. delete_jobs jobs token)

  unfoldable pub delete_static_nats : List AssignedPublicIps → String → M (Unit {0})
  delete_static_nats [] token = pure tt
  delete_static_nats (ip ∷ ips) token =
      catch (delete_static_nat_on_cloud ip.static_nat_id token) (λ _. delete_static_nats ips token)
        (λ _. delete_static_nats ips token)

  unfoldable pub delete_firewall_settings : KtMachine → String → M (Unit {0})
  delete_firewall_settings machine token = do
    client_or_panic env
    firewall ←
        perform (Call.get Kind.firewall (key_of machine)) (λ h. env.get_firewall h (key_of machine))
    delete_jobs firewall.status.firewall_jobs token
    perform_check (Call.delete (Object.firewall firewall))
        (λ h. env.delete h (Object.firewall firewall))

  unfoldable pub delete_vm_dependent_resources : KtMachine → String → M (Unit {0})
  delete_vm_dependent_resources machine token =
      if is_empty machine.status.assigned_public_ips then pure tt else do
        delete_firewall_settings machine token
        delete_static_nats machine.status.assigned_public_ips token

  -- The POST that ends `DeleteVM`.
  unfoldable pub post_force_delete : KtMachine → String → M (Unit {0})
  post_force_delete machine token = do
    response ←
        send env Method.post (server_url machine <> "/action") (auth_headers token)
          (Body.force_delete (record { force_delete = "null" }))
    read_all response
    if is_2xx response.status_code then pure tt else throw (get_failed response.status)

  unfoldable pub delete_vm : KtMachine → String → M (Unit {0})
  delete_vm machine token =
      catch (get_created_vm machine token)
        (λ _. do delete_vm_dependent_resources machine token; post_force_delete machine token)
        (λ e.
          if e.text == "GET request failed with status: 404 Not Found" then pure tt else throw e)
