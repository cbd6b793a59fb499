-- ===== src/Controller/Lookup.antt =====
-- How internal/controller/ktmachine_controller.go finds a machine's cluster, its token and the
-- control planes that a worker can join.
pub mod Ready
pub mod Logins
use kt_cloud_operator.Common.{String, Bool, not, ◌&&◌, List, filter, if◌then◌else◌, ◌==◌, contains}
use kt_cloud_operator.Api.{NamespacedName, KtMachine, KtCluster, KtSubjectToken}
use kt_cloud_operator.Runtime.Calls.{Kind, Call, errors_new}
use kt_cloud_operator.Runtime.Env.{Env}
use kt_cloud_operator.Runtime.Effects.{M, pure, throw, perform, catch, ◌>>=◌}

abbrev pub control_plane_label : String
control_plane_label = "control-plane"

-- `machine` can be joined by the worker `m`.
unfoldable pub is_bootstrap_ready : KtMachine → KtMachine → Bool
is_bootstrap_ready m machine =
    not (machine.meta.name == m.meta.name)
    && contains machine.meta.name control_plane_label
    && machine.status.status == "ACTIVE"
    && machine.status.control_plane_ref.type == "BootstrapReady"
    && machine.status.control_plane_ref.status

abbrev pub cluster_key : KtMachine → NamespacedName
cluster_key m = record { name = m.spec.cluster_name; namespace = m.meta.namespace }

abbrev pub token_key : KtMachine → KtCluster → NamespacedName
token_key m cluster = record { name = cluster.meta.name; namespace = m.meta.namespace }

module _ (env : Env) where
  unfoldable pub get_machine_associated_cluster : KtMachine → M KtCluster
  get_machine_associated_cluster m = do
    cluster ←
        perform (Call.get Kind.kt_cluster (cluster_key m))
          (λ h. env.get_kt_cluster h (cluster_key m))
    if cluster.meta.name == ""
        then throw (errors_new "failed to find ktcluster associated with machine")
        else pure cluster

  unfoldable pub get_subject_token : KtMachine → M KtSubjectToken
  get_subject_token m =
      catch (get_machine_associated_cluster m)
        (λ cluster.
          perform (Call.get Kind.token (token_key m cluster))
            (λ h. env.get_token h (token_key m cluster)))
        (λ _. throw (errors_new "failed to retrieve cluster for machine"))

  -- The associated cluster is an argument of the function, which does not read it.
  unfoldable pub get_bootstrap_ready_machine_control_plane : KtMachine → M (List KtMachine)
  get_bootstrap_ready_machine_control_plane m = do
    machines ←
        perform (Call.list Kind.machine m.meta.namespace)
          (λ h. env.list_machines h m.meta.namespace)
    pure (filter (is_bootstrap_ready m) machines)
