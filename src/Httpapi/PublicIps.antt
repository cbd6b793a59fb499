-- ===== src/Httpapi/PublicIps.antt =====
-- The public addresses of cmd/httpapi/network.go: the two listings, and `AttachPublicIP`.
pub mod Attach
use kt_cloud_operator.Common.{
  String, ◌<>◌, Bool, not, ◌&&◌, List, [], ◌∷◌, ◌++◌, map, filter, is_empty, if◌then◌else◌, ◌==◌,
  is_2xx, is_2xx_ℤ,
}
use kt_cloud_operator.Api.{KtMachine, Addresses}
use kt_cloud_operator.Httpapi.Types.{PublicIp, MachinePrivateAddresses}
use kt_cloud_operator.Httpapi.Send.{auth_headers, api_url, send, read_all, client_or_error}
use kt_cloud_operator.Httpapi.ControlPlaneVm.{update_vm_status}
use kt_cloud_operator.Httpapi.Servers.{get_failed}
use kt_cloud_operator.Runtime.Calls.{Error, Method, Body, errors_new}
use kt_cloud_operator.Runtime.Env.{Env}
use kt_cloud_operator.Runtime.Effects.{M, pure, throw, lift, gets, first_or, ◌>>=◌, ◌>>◌}

-- The loop over the networks and their addresses.
unfoldable pub private_addresses : Addresses → List MachinePrivateAddresses
private_addresses [] = []
private_addresses ((network, addresses) ∷ rest) =
    map (λ a. record { network_name = network; address = a.addr }) addresses
    ++ private_addresses rest

abbrev pub is_available : PublicIp → Bool
is_available ip = ip.type == "ASSOCIATE"

abbrev pub is_assigned : PublicIp → Bool
is_assigned ip = ip.type == "STATICNAT" && not (is_empty ip.static_nats)

abbrev pub no_address : Error
no_address =
    errors_new
      ("failed to get machine address to pair with public ip address for " <> "firewall settings")

abbrev pub no_public_ip : Error
no_public_ip = errors_new (
    "no available public ip addresses on the cloud, maybe try creating in the cloud in same "
    <> "zone as the cluster")

-- The status with one more assigned address.
unfoldable pub assign_ip : KtMachine → MachinePrivateAddresses → PublicIp → String → KtMachine
assign_ip machine private ip static_nat_id = record machine {
  status = record machine.status {
    assigned_public_ips =
        machine.status.assigned_public_ips
        ++ record {
          ip = ip.ip;
          id = ip.id;
          static_nat_id = static_nat_id;
          paired_pvt_network = record {
            network_name = private.network_name;
            network_id = "";
            network_os_id = "";
            vm_pvt_ip = private.address;
          };
        }
          ∷ [];
  };
}

module _ (env : Env) where
  -- `GetAvailablePublicIpAddresses` and `GetAssignedPublicIpAddresses` differ in the test.
  unfoldable pub get_public_ips : (PublicIp → Bool) → String → M (List PublicIp)
  get_public_ips wanted token = do
    response ← send env Method.get (api_url env "/nsm/v1/publicIp") (auth_headers token) Body.empty
    body ← read_all response
    if not (is_2xx response.status_code) then throw (get_failed response.status) else do
      server_response ← lift (env.unmarshal_public_ips body)
      pure (filter wanted server_response.public_ips)

  abbrev pub get_available_public_ip_addresses : String → M (List PublicIp)
  get_available_public_ip_addresses = get_public_ips is_available

  abbrev pub get_assigned_public_ip_addresses : String → M (List PublicIp)
  get_assigned_public_ip_addresses = get_public_ips is_assigned

  -- The POST of `AttachPublicIP` and what follows it.
  unfoldable pub attach_address :
      KtMachine → String → MachinePrivateAddresses → PublicIp → M KtMachine
  attach_address machine token private ip = do
    response ←
        send env Method.post (api_url env "/nsm/v1/staticNat") (auth_headers token)
          (Body.static_nat (record { mapped_ip = private.address; public_ip_id = ip.id }))
    body ← read_all response
    if not (is_2xx response.status_code)
        then throw (errors_new ("post request failed with status:" <> response.status))
        else do
          server_response ← lift (env.unmarshal_nat body)
          if not (is_2xx_ℤ server_response.http_status)
              then throw
                  (errors_new ("Failed to attach public IP: " <> server_response.nat.static_nat_id))
              else do
                client_or_error env
                let m = assign_ip machine private ip server_response.nat.static_nat_id
                update_vm_status env machine m.status machine.status.status

  unfoldable pub attach_public_ip : KtMachine → String → M KtMachine
  attach_public_ip machine token = do
    addresses ← gets (λ h. env.range_addresses h machine.status.addresses)
    private ← first_or no_address (private_addresses addresses)
    public_ips ← get_available_public_ip_addresses token
    ip ← first_or no_public_ip public_ips
    attach_address machine token private ip
