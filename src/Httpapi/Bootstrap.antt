-- ===== src/Httpapi/Bootstrap.antt =====
-- cmd/httpapi/cp_bootstrap.go: is the control plane's bootstrap server up on port 8000?
use kt_cloud_operator.Common.{String, ◌<>◌, if◌then◌else◌, is_2xx}
use kt_cloud_operator.Api.{KtMachine}
use kt_cloud_operator.Httpapi.Send.{plain_headers, send}
use kt_cloud_operator.Runtime.Calls.{Method, Body, errors_new}
use kt_cloud_operator.Runtime.Env.{Env}
use kt_cloud_operator.Runtime.Effects.{M, pure, throw, first, ◌>>=◌}

abbrev pub bootstrap_url : String → String
bootstrap_url ip = "http://" <> ip <> ":8000"

module _ (env : Env) where
  unfoldable pub check_control_plane_machine_ready : KtMachine → M (Unit {0})
  check_control_plane_machine_ready machine = do
    ip ← first machine.status.assigned_public_ips
    response ← send env Method.get (bootstrap_url ip.ip) plain_headers Body.empty
    if is_2xx response.status_code
        then pure tt
        else throw (
            errors_new ("GET control-plane status request failed with status: " <> response.status))
