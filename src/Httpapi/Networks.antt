-- ===== src/Httpapi/Networks.antt =====
-- The network and job queries of cmd/httpapi/network.go.
pub mod External
use kt_cloud_operator.Common.{
  String, ◌<>◌, ◌||◌, not, List, [], ◌∷◌, Option, none, some, if◌then◌else◌, ◌==◌, is_2xx,
}
use kt_cloud_operator.Httpapi.Types.{NetworkData}
use kt_cloud_operator.Httpapi.Send.{auth_headers, api_url, send, read_all}
use kt_cloud_operator.Httpapi.Servers.{get_failed}
use kt_cloud_operator.Runtime.Calls.{Error, Method, Body, errors_new}
use kt_cloud_operator.Runtime.Env.{Env}
use kt_cloud_operator.Runtime.Effects.{M, pure, throw, lift, ◌>>=◌}

abbrev pub network_not_found : String → Error
network_not_found name = errors_new ("network with name '" <> (name <> "' not found"))

-- The loop of `GetNetworkIdByName`.
unfoldable pub find_by_name : String → List NetworkData → M NetworkData
find_by_name name [] = throw (network_not_found name)
find_by_name name (network ∷ networks) =
    let rest = find_by_name name networks in if network.name == name then pure network else rest

-- The loop of `AddFirewallSettings` over the networks: "" if there is no external one.
unfoldable pub external_network_id : List NetworkData → String
external_network_id [] = ""
external_network_id (network ∷ networks) =
    let rest = external_network_id networks in
    if network.name == "external" || network.type == "UNTRUST" then network.id else rest

abbrev pub or_nil : Option String → String → M String
or_nil (some id) what = pure id
or_nil none what = throw (errors_new what)

module _ (env : Env) where
  unfoldable pub get_network_all_networks : String → M (List NetworkData)
  get_network_all_networks token = do
    response ←
        send env Method.get (api_url env "/nsm/v1/network?networkType=ALL") (auth_headers token)
          Body.empty
    body ← read_all response
    if not (is_2xx response.status_code)
        then throw (get_failed response.status)
        else do server_response ← lift (env.unmarshal_networks body); pure server_response.networks

  -- The request and its errors are those of `GetNetworkAllNetworks`.
  unfoldable pub get_network_id_by_name : String → String → M NetworkData
  get_network_id_by_name token name = do
    networks ← get_network_all_networks token
    find_by_name name networks

  unfoldable pub get_networking_job_id : String → String → String → M String
  get_networking_job_id token job_id job_type = do
    response ←
        send env Method.get (api_url env "/nsm/v1/job/status/" <> job_id) (auth_headers token)
          Body.empty
    body ← read_all response
    if not (is_2xx response.status_code)
        then throw (errors_new ("get request failed with status: " <> response.status))
        else do
          server_response ← lift (env.unmarshal_job body)
          if job_type == "Firewall_Create"
              then or_nil server_response.job.policy_id "PolicyId is nil"
              else or_nil server_response.job.vpc_id "VpcId is nil"
