-- ===== src/Httpapi/Send.antt =====
-- The steps that every function of cmd/httpapi repeats: a request with its headers, the response's
-- body, and the Kubernetes client.
pub mod Answers
pub mod Silent
use kt_cloud_operator.Common.{String, ◌<>◌, ◌==◌, Option, none, some, List, [], ◌∷◌, if◌then◌else◌}
use kt_cloud_operator.Runtime.Calls.{Error, errors_new, Method, Body, Request, Response, Call}
use kt_cloud_operator.Runtime.Env.{Env}
use kt_cloud_operator.Runtime.Effects.{
  M, pure, throw, panics, fatal, gets, check, catch, perform, ◌>>=◌, ◌>>◌,
}

abbrev pub auth_headers : String → List (String × String)
auth_headers token = ("Content-Type", "application/json") ∷ ("X-Auth-Token", token) ∷ []

abbrev pub plain_headers : List (String × String)
plain_headers = ("Content-Type", "application/json") ∷ []

abbrev pub return_error : Option Error → M (Unit {0})
return_error none = pure tt
return_error (some e) = throw e

abbrev pub exit_error : Option Error → M (Unit {0})
exit_error none = pure tt
exit_error (some e) = fatal

-- `fmt.Errorf(text + "%v", err)`
abbrev pub wrap : String → Option Error → Option Error
wrap text none = none
wrap text (some e) = some (errors_new (text <> e.text))

-- `body, err := io.ReadAll(resp.Body)`
unfoldable pub read_all : Response → M String
read_all r = do return_error r.read_error; pure r.body

module _ (env : Env) where
  -- `Config.ApiBaseURL + Config.Zone + path`
  abbrev pub api_url : String → String
  api_url path = env.config.api_base_url <> env.config.zone <> path

  -- `http.NewRequest`, the headers, and `client.Do`
  unfoldable pub send : Method → String → List (String × String) → Body → M Response
  send method url headers body = do
    check (env.new_request method url)
    let r : Request = record { method = method; url = url; headers = headers; body = body }
    perform (Call.http r) (λ h. env.do_request h r)

  -- `getRestConfig`
  unfoldable pub get_rest_config : String → M (Unit {0})
  get_rest_config kubeconfig_path =
      if kubeconfig_path == ""
      then gets env.get_config >>= return_error
      else gets (λ h. env.build_config_from_flags h kubeconfig_path) >>= return_error

  -- `getClient`
  unfoldable pub get_client : M (Unit {0})
  get_client = do
    registered ← gets env.add_to_scheme
    return_error (wrap "failed to add custom resources to scheme: " registered)
    client ← gets env.client_new
    return_error client

  -- A client that cannot be made ends the process: `logger1.Fatalf`.
  unfoldable pub client_or_fatal : M (Unit {0})
  client_or_fatal = catch get_client pure (λ _. fatal)

  -- The two calls as they stand in all functions but one: the first's error is a panic.
  unfoldable pub client_or_panic : M (Unit {0})
  client_or_panic =
      catch (get_rest_config env.config.kubeconfig) (λ _. client_or_fatal) (λ e. panics e.text)

  -- The two calls where the first's error is returned.
  unfoldable pub client_or_error : M (Unit {0})
  client_or_error = do get_rest_config env.config.kubeconfig; client_or_fatal
