-- ===== src/Httpapi/ControlPlaneVm.antt =====
-- cmd/httpapi/cp_vm.go: the request that creates a server, and what its answer does to the machine.
pub mod Outcomes
use kt_cloud_operator.Common.{String, map, not, if◌then◌else◌, is_2xx}
use kt_cloud_operator.Api.{KtMachine, KtMachineStatus}
use kt_cloud_operator.Api.Templates as Api
use kt_cloud_operator.Httpapi.Types.{NetworkTier, BlockDeviceMappingV2, RequestPayload}
use kt_cloud_operator.Httpapi.CloudInit.{control_plane_cloud_init}
use kt_cloud_operator.Httpapi.Send.{auth_headers, api_url, send, read_all, client_or_panic}
use kt_cloud_operator.Runtime.Calls.{Method, Body, Response, Object, Call}
use kt_cloud_operator.Runtime.Env.{Env}
use kt_cloud_operator.Runtime.Effects.{M, pure, lift, perform, ◌>>=◌, ◌>>◌}

abbrev network_tier : Api.NetworkTier → NetworkTier
network_tier network = record { uuid = network.id }

abbrev block_device : Api.BlockDeviceMapping → BlockDeviceMappingV2
block_device b = record {
  destination_type = b.destination_type;
  boot_index = b.boot_index;
  source_type = b.source_type;
  volume_size = b.volume_size;
  uuid = b.id;
}

-- The payload of `CreateVM` and of `CreateWorkerVM`.
unfoldable pub request_payload : KtMachine → String → RequestPayload
request_payload machine user_data = record {
  server = record {
    name = machine.meta.name;
    key_name = machine.spec.ssh_key_name;
    flavor_ref = machine.spec.flavor;
    availability_zone = machine.spec.availability_zone;
    networks = map network_tier machine.spec.network_tier;
    block_device_mapping_v2 = map block_device machine.spec.block_device_mapping;
    user_data = user_data;
  };
}

-- The machine that `updateVMStatus` writes.
unfoldable pub with_status : KtMachine → KtMachineStatus → String → KtMachine
with_status machine new_status state = record machine {
  status = record new_status { status = state };
}

module _ (env : Env) where
  -- `updateVMStatus`. The object is the one that the API server sends back.
  unfoldable pub update_vm_status : KtMachine → KtMachineStatus → String → M KtMachine
  update_vm_status machine new_status state =
      let m = with_status machine new_status state in
      perform (Call.update_status (Object.machine m)) (λ h. env.update_machine_status h m)

  -- What follows the response in `CreateVM` and `CreateWorkerVM`.
  unfoldable pub handle_created : KtMachine → Response → M KtMachine
  handle_created machine response = do
    body ← read_all response
    if not (is_2xx response.status_code) then pure machine else do
      server_response ← lift (env.unmarshal_server body)
      client_or_panic env
      update_vm_status machine server_response.server "Creating"

  -- What `CreateVM` and `CreateWorkerVM` do with their payload.
  unfoldable pub post_server : KtMachine → String → String → M KtMachine
  post_server machine token user_data = do
    response ←
        send env Method.post (api_url env "/server/servers") (auth_headers token)
          (Body.server (request_payload machine user_data))
    handle_created machine response

  unfoldable pub create_vm : KtMachine → String → M KtMachine
  create_vm machine token = post_server machine token (env.base64_encode control_plane_cloud_init)
