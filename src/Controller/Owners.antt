-- ===== src/Controller/Owners.antt =====
-- The reconcilers that only set owner references: cluster_controller.go, ktcluster_controller.go,
-- ktmachinetemplate_controller.go, and ktsubjecttoken_controller.go, which does nothing.
pub mod Owned
pub mod Total
pub mod Templates
use kt_cloud_operator.Common.{String, ◌<>◌, List, filter, if◌then◌else◌, ◌==◌}
use kt_cloud_operator.Api.{
  NamespacedName, KtMachine, Cluster, KtCluster, KtMachineTemplate, MachineDeployment,
  KtSubjectToken,
}
use kt_cloud_operator.Controller.Results.{CtrlResult, done, requeue}
use kt_cloud_operator.Controller.KtMachines.{ignore_not_found}
use kt_cloud_operator.Runtime.Calls.{Kind, Object, Call}
use kt_cloud_operator.Runtime.Env.{Env}
use kt_cloud_operator.Runtime.Effects.{
  M, pure, throw, lift, perform, perform_check, catch, ◌>>=◌, ◌>>◌,
}

module _ (env : Env) where
  unfoldable pub update_object : Object → M (Unit {0})
  update_object o = perform_check (Call.update o) (λ h. env.update h o)

  -- `ClusterReconciler.ktClusterForCluster`
  unfoldable pub kt_cluster_for_cluster : Cluster → KtCluster → M (Unit {0})
  kt_cluster_for_cluster cluster kt_cluster = do
    meta ← lift (env.set_controller_reference (Object.cluster cluster) kt_cluster.meta)
    update_object (Object.kt_cluster (record kt_cluster { meta = meta }))

  unfoldable pub reconcile_cluster : Cluster → M CtrlResult
  reconcile_cluster cluster = do
    let key : NamespacedName = record {
      name = cluster.meta.name;
      namespace = cluster.meta.namespace;
    }
    catch (perform (Call.get Kind.kt_cluster key) (λ h. env.get_kt_cluster h key))
        (λ kt_cluster.
          catch (kt_cluster_for_cluster cluster kt_cluster) (λ _. pure done)
            (λ _. pure (requeue 60)))
        (λ e. if e.not_found then pure (requeue 60) else throw e)

  -- `ClusterReconciler.Reconcile`
  unfoldable pub cluster_reconcile : NamespacedName → M CtrlResult
  cluster_reconcile key =
      catch (perform (Call.get Kind.cluster key) (λ h. env.get_cluster h key)) reconcile_cluster
        ignore_not_found

  -- `KTMachineTemplateReconciler.ktMachineTemplateForMachineDeployment`
  unfoldable pub template_for_deployment : KtMachineTemplate → MachineDeployment → M (Unit {0})
  template_for_deployment template d = do
    meta ← lift (env.set_controller_reference (Object.template template) d.meta)
    update_object (Object.deployment (record d { meta = meta }))

  unfoldable pub reconcile_template : KtMachineTemplate → M CtrlResult
  reconcile_template template = do
    let key : NamespacedName = record {
      name = template.meta.name;
      namespace = template.meta.namespace;
    }
    catch (perform (Call.get Kind.deployment key) (λ h. env.get_deployment h key))
        (λ d. catch (template_for_deployment template d) (λ _. pure done) (λ _. pure (requeue 60)))
        (λ e. if e.not_found then pure (requeue 60) else throw e)

  -- `KTMachineTemplateReconciler.Reconcile`
  unfoldable pub template_reconcile : NamespacedName → M CtrlResult
  template_reconcile key =
      catch (perform (Call.get Kind.template key) (λ h. env.get_template h key)) reconcile_template
        ignore_not_found

  -- `KTClusterReconciler.ktClusterForMachineTemplate`
  unfoldable pub kt_cluster_for_machine_template : KtCluster → KtMachineTemplate → M (Unit {0})
  kt_cluster_for_machine_template cluster template = do
    meta ← lift (env.set_controller_reference (Object.kt_cluster cluster) template.meta)
    update_object (Object.template (record template { meta = meta }))

  -- `fetchMachineTemplate`: a failure to set the owner is only logged.
  unfoldable pub fetch_machine_template : KtCluster → String → M KtMachineTemplate
  fetch_machine_template cluster suffix = do
    let key : NamespacedName = record {
      name = cluster.meta.name <> suffix;
      namespace = cluster.meta.namespace;
    }
    template ← perform (Call.get Kind.template key) (λ h. env.get_template h key)
    catch (kt_cluster_for_machine_template cluster template) (λ _. pure template)
        (λ _. pure template)

  -- The templates that are found are not nil, so the branch that requeues is not reached.
  unfoldable pub reconcile_kt_cluster : KtCluster → M CtrlResult
  reconcile_kt_cluster cluster =
      catch
        (do fetch_machine_template cluster "-control-plane"; fetch_machine_template cluster "-md-0")
        (λ _. pure done) (λ _. pure done)

  -- `KTClusterReconciler.Reconcile`
  unfoldable pub kt_cluster_reconcile : NamespacedName → M CtrlResult
  kt_cluster_reconcile key =
      catch (perform (Call.get Kind.kt_cluster key) (λ h. env.get_kt_cluster h key))
        reconcile_kt_cluster ignore_not_found

  -- `KTClusterReconciler.ktClusterForKTSubjectTokenOnwer` and `fetchKTSubjectToken`
  unfoldable pub kt_cluster_for_subject_token : KtCluster → KtSubjectToken → M (Unit {0})
  kt_cluster_for_subject_token cluster token = do
    meta ← lift (env.set_controller_reference (Object.kt_cluster cluster) token.meta)
    update_object (Object.token (record token { meta = meta }))

  unfoldable pub fetch_kt_subject_token : KtCluster → M KtSubjectToken
  fetch_kt_subject_token cluster = do
    let key : NamespacedName = record {
      name = cluster.meta.name;
      namespace = cluster.meta.namespace;
    }
    token ← perform (Call.get Kind.token key) (λ h. env.get_token h key)
    catch (kt_cluster_for_subject_token cluster token) (λ _. pure token) (λ _. pure token)

  unfoldable pub get_cluster_associated_kt_machines : KtCluster → M (List KtMachine)
  get_cluster_associated_kt_machines cluster = do
    machines ←
        perform (Call.list Kind.machine cluster.meta.namespace)
          (λ h. env.list_machines h cluster.meta.namespace)
    pure (filter (λ m. m.spec.cluster_name == cluster.meta.name) machines)

  -- `KTSubjectTokenReconciler.Reconcile`
  unfoldable pub subject_token_reconcile : NamespacedName → M CtrlResult
  subject_token_reconcile key =
      catch (perform (Call.get Kind.token key) (λ h. env.get_token h key)) (λ _. pure done)
        ignore_not_found
