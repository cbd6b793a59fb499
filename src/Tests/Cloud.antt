-- ===== src/Tests/Cloud.antt =====
-- The calls to KT Cloud.
use kt_cloud_operator.Common.{is_empty, ◌⊎◌, ◌==◌, ◌≡◌, refl, [], ◌∷◌, ◌++◌, true, false, pos}
use kt_cloud_operator.Httpapi.Send.{
  send, read_all, client_or_error, client_or_panic, client_or_fatal, get_rest_config, get_client,
}
use kt_cloud_operator.Httpapi.Bootstrap.{check_control_plane_machine_ready}
use kt_cloud_operator.Httpapi.ControlPlaneVm.Outcomes.{Posted, post_server-Posted}
use kt_cloud_operator.Httpapi.ControlPlaneVm.{
  post_server, handle_created, with_status, update_vm_status,
}
use kt_cloud_operator.Httpapi.WorkerVm.{pick_control_plane, create_worker_vm, join_control_plane}
use kt_cloud_operator.Httpapi.WorkerVm.Joined.{HasJoined, join_control_plane-HasJoined}
use kt_cloud_operator.Httpapi.WorkerVm.Join.{
  no_more, not_ready, join_control_plane-first_ready, join_control_plane-NoneReady,
}
use kt_cloud_operator.Httpapi.Servers.{
  delete_vm_dependent_resources, delete_firewall_settings, delete_jobs, delete_static_nats,
  delete_on_cloud, post_force_delete, get_created_vm, delete_vm,
}
use kt_cloud_operator.Httpapi.Servers.Deletion.{ForceDeleted, delete_vm-ForceDeleted}
use kt_cloud_operator.Httpapi.Servers.Dependents.{Freed}
use kt_cloud_operator.Httpapi.PublicIps.{
  private_addresses, assign_ip, get_public_ips, attach_address, attach_public_ip,
}
use kt_cloud_operator.Httpapi.PublicIps.Attach.{Attached, attach_public_ip-stored}
use kt_cloud_operator.Httpapi.FirewallSettings.{
  group_rules, create_firewall_object, add_firewall_settings,
}
use kt_cloud_operator.Httpapi.FirewallSettings.Opened.{Opened}
use kt_cloud_operator.Httpapi.Types.{PublicIp, NcCreateFirewallRuleResponse}
use kt_cloud_operator.Api.{KtMachine, KtMachineStatus, zero_status}
use kt_cloud_operator.Controller.Infrastructure.{set_bootstrap_ready}
use kt_cloud_operator.Runtime.Calls.{Error, History, errors_new}
use kt_cloud_operator.Runtime.Env.{Env, value}
use kt_cloud_operator.Runtime.Effects.{catch, ok, err, panic, history, pure, first, first_or, ◌>>=◌}
use kt_cloud_operator.Tests.World.{
  world, answering, success, free_ip, one_free_ip, plane, worker, bare_plane, public_ip, refused,
  ingress, network_named,
}

abbrev not_up : Error
not_up = errors_new "GET control-plane status request failed with status: 403 Forbidden"

abbrev asked : History
asked = history (check_control_plane_machine_ready (answering refused) plane [])

join_control_plane-NoneReady_example :
    join_control_plane (answering refused) (plane ∷ []) worker "t" []
    ≡ panic "index out of range" asked
unfolding check_control_plane_machine_ready send first set_bootstrap_ready ◌>>=◌
join_control_plane-NoneReady_example =
    join_control_plane-NoneReady (answering refused) plane [] worker "t" [] asked
      (not_ready not_up refl no_more)

-- The first plane does not answer, the second one does.
abbrev second_answers : Env
second_answers = record world {
  do_request = λ h _. elim h [ [] ↦ value refused | _ ∷ _ ↦ value success ];
}

join_control_plane-first_ready_example :
    join_control_plane second_answers ((plane ∷ []) ++ plane ∷ []) worker "t" []
    ≡ (create_worker_vm second_answers worker "t" "172.25.0.8" >>= λ _. pure tt) (
        history (
          check_control_plane_machine_ready second_answers plane
            (history (check_control_plane_machine_ready second_answers plane []))))
unfolding check_control_plane_machine_ready send first set_bootstrap_ready ◌>>=◌
join_control_plane-first_ready_example =
    join_control_plane-first_ready second_answers (plane ∷ []) plane [] worker "t" public_ip [] []
      (not_ready not_up refl no_more) refl refl

attach_public_ip-stored_example :
    Attached one_free_ip bare_plane
      (with_status bare_plane
        (assign_ip bare_plane
          (record { network_name = "tier"; address = "172.25.0.8" })
          free_ip
          "nat-1").status
        "ACTIVE")
      "t"
      []
      (history (attach_public_ip one_free_ip bare_plane "t" []))
unfolding attach_public_ip private_addresses get_public_ips attach_address send read_all
    client_or_error client_or_fatal get_rest_config get_client update_vm_status with_status
    assign_ip first_or ◌>>=◌
attach_public_ip-stored_example = attach_public_ip-stored one_free_ip bare_plane "t" [] refl

abbrev made : NcCreateFirewallRuleResponse
made = record {
  http_status = pos 200;
  job_id = "job-1";
  detail = "";
  vpc_id = "";
  policy_id = "policy-1";
}

abbrev recorded_calls : History
recorded_calls =
    history (create_firewall_object world plane made (group_rules ingress "2" "nat-1") [])

abbrev creating : KtMachine
creating = record worker { status = record zero_status { id = "vm-1"; status = "Creating" } }

post_server-Posted_example :
    Posted world worker "t" "script" [] creating
      (history (post_server world worker "t" "script" []))
unfolding post_server handle_created send read_all client_or_panic client_or_fatal get_rest_config
    get_client update_vm_status with_status ◌>>=◌
post_server-Posted_example = post_server-Posted world worker "t" "script" [] refl

abbrev deleted_calls : History
deleted_calls = history (delete_vm world plane "t" [])

delete_vm-ForceDeleted_example :
    ((s : KtMachineStatus) × (h₁ : History) × (h₂ : History) × (get_created_vm world plane "t" []
        ≡ ok s h₁)
      × (((is_empty plane.status.assigned_public_ips ≡ true) × (h₂ ≡ h₁))
          ⊎ Freed world plane "t" h₂)
      × ForceDeleted world plane "t" h₂ deleted_calls)
    ⊎ ((e : Error) × (get_created_vm world plane "t" [] ≡ err e deleted_calls)
        × ((e.text == "GET request failed with status: 404 Not Found") ≡ true))
unfolding delete_vm get_created_vm delete_vm_dependent_resources delete_firewall_settings
    delete_jobs delete_static_nats delete_on_cloud post_force_delete send read_all client_or_panic
    client_or_fatal get_rest_config get_client set_bootstrap_ready catch ◌>>=◌
delete_vm-ForceDeleted_example = delete_vm-ForceDeleted world plane "t" [] {h' = deleted_calls} refl

abbrev joined_calls : History
joined_calls = history (join_control_plane world (plane ∷ []) worker "t" [])

join_control_plane-HasJoined_example : HasJoined world (plane ∷ []) worker "t" joined_calls
unfolding join_control_plane pick_control_plane check_control_plane_machine_ready create_worker_vm
    post_server handle_created send read_all client_or_panic client_or_fatal get_rest_config
    get_client update_vm_status set_bootstrap_ready first catch ◌>>=◌
join_control_plane-HasJoined_example =
    join_control_plane-HasJoined world (plane ∷ []) worker "t" [] {h' = joined_calls} refl

-- One address is assigned on the cloud, and there is an external network.
abbrev assigned_ip : PublicIp
assigned_ip = record free_ip {
  type = "STATICNAT";
  static_nats =
      record {
        id = "nat-1";
        name = "";
        vpc_id = "";
        mapped_ip = "172.25.0.8";
        network_id = "";
        public_ip_id = "ip-1";
        public_ip = "211.0.0.1";
      }
      ∷ [];
}

abbrev open_world : Env
open_world = record world {
  unmarshal_public_ips =
      λ _. value (record { http_status = pos 200; public_ips = assigned_ip ∷ [] });
  unmarshal_networks =
      λ _. value (record { http_status = pos 200; networks = network_named "external" "2" ∷ [] });
}

abbrev opened_calls : History
opened_calls = history (add_firewall_settings open_world plane "t" ingress false [])
