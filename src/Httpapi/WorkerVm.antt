-- ===== src/Httpapi/WorkerVm.antt =====
-- cmd/httpapi/worker_vm.go: a worker joins the first control plane that answers.
pub mod Join
pub mod Joined
use kt_cloud_operator.Common.{String, List, [], ◌∷◌, if◌then◌else◌, is_empty}
use kt_cloud_operator.Api.{KtMachine, zero_machine}
use kt_cloud_operator.Httpapi.CloudInit.{worker_cloud_init}
use kt_cloud_operator.Httpapi.ControlPlaneVm.{post_server}
use kt_cloud_operator.Httpapi.Bootstrap.{check_control_plane_machine_ready}
use kt_cloud_operator.Runtime.Calls.{errors_new}
use kt_cloud_operator.Runtime.Env.{Env}
use kt_cloud_operator.Runtime.Effects.{M, pure, throw, catch, first, ◌>>=◌, ◌>>◌}

module _ (env : Env) where
  unfoldable pub create_worker_vm : KtMachine → String → String → M KtMachine
  create_worker_vm machine token control_plane_ip =
      post_server env machine token (env.base64_encode (worker_cloud_init control_plane_ip))

  -- The loop of `JoinControlPlane`: the first machine that is ready, or Go's zero value.
  unfoldable pub pick_control_plane : List KtMachine → M KtMachine
  pick_control_plane [] = pure zero_machine
  pick_control_plane (m ∷ ms) =
      catch (check_control_plane_machine_ready env m) (λ _. pure m) (λ _. pick_control_plane ms)

  -- The machine is passed by value: the caller's object does not change.
  unfoldable pub join_control_plane : List KtMachine → KtMachine → String → M (Unit {0})
  join_control_plane planes machine token = do
    plane ← pick_control_plane planes
    if is_empty planes
        then throw (errors_new "ready and boostrapped control plane list is zero")
        else do
          ip ← first plane.status.assigned_public_ips
          create_worker_vm machine token ip.paired_pvt_network.vm_pvt_ip
          pure tt
