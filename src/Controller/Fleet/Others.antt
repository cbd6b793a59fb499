-- ===== src/Controller/Fleet/Others.antt =====
-- The reconcilers that write no stored machine.
use kt_cloud_operator.Common.{ℕ, zero, suc, ◌≡◌, refl, false, String}
use kt_cloud_operator.Api.{
  NamespacedName, KtMachine, KtCluster, KtMachineTemplate, MachineDeployment,
}
use kt_cloud_operator.Controller.MachineDeployments as MachineDeployments
use kt_cloud_operator.Controller.MachineDeployments.{
  create_machine, create_replica, create_replicas, kt_machine_for_machine_deployment,
  count_child_machines_by_owner, reconcile_deployment,
}
use kt_cloud_operator.Controller.MachineDeployments.Replicas.{Keeps-random_string}
use kt_cloud_operator.Controller.Owners.{
  update_object, kt_cluster_for_cluster, reconcile_cluster, cluster_reconcile,
  template_for_deployment, reconcile_template, template_reconcile, kt_cluster_for_machine_template,
  fetch_machine_template, reconcile_kt_cluster, kt_cluster_reconcile, subject_token_reconcile,
}
use kt_cloud_operator.Httpapi.Plain.{writes_machine}
use kt_cloud_operator.Runtime.Calls.{Object, Call, History}
use kt_cloud_operator.Runtime.Env.{Env}
use kt_cloud_operator.Runtime.Keeps.{Keeps, Allows, Keeps-bind, keeps_rules}

-- Over any predicate that calls which write no machine keep.
module _ (P : History → Type 0) (safe : (c : Call) → writes_machine c ≡ false → Allows P c)
    (env : Env) where
  pub Keeps-cluster_reconcile : (own : NamespacedName) → Keeps P (cluster_reconcile env own)
  unfolding cluster_reconcile reconcile_cluster kt_cluster_for_cluster update_object
  Keeps-cluster_reconcile own = search (keeps_rules, safe, refl) depth 12

  pub Keeps-template_reconcile : (own : NamespacedName) → Keeps P (template_reconcile env own)
  unfolding template_reconcile reconcile_template template_for_deployment update_object
  Keeps-template_reconcile own = search (keeps_rules, safe, refl) depth 12

  Keeps-fetch_machine_template :
      (c : KtCluster) (suffix : String) → Keeps P (fetch_machine_template env c suffix)
  unfolding fetch_machine_template kt_cluster_for_machine_template update_object
  Keeps-fetch_machine_template c suffix = search (keeps_rules, safe, refl) depth 12

  pub Keeps-kt_cluster_reconcile : (own : NamespacedName) → Keeps P (kt_cluster_reconcile env own)
  unfolding kt_cluster_reconcile reconcile_kt_cluster
  Keeps-kt_cluster_reconcile own =
      search (keeps_rules, safe, refl, Keeps-fetch_machine_template) depth 12

  pub Keeps-subject_token_reconcile :
      (own : NamespacedName) → Keeps P (subject_token_reconcile env own)
  unfolding subject_token_reconcile
  Keeps-subject_token_reconcile own = search (keeps_rules, safe, refl) depth 12

  pub Keeps-create_replica :
      ((m : KtMachine) → Allows P (Call.create (Object.machine m)))
      → (d : MachineDeployment) (t : KtMachineTemplate) (i : ℕ) → Keeps P (create_replica env d t i)
  unfolding create_replica create_machine
  Keeps-create_replica creates d t i =
      let drawing = Keeps-random_string P (λ n. safe (Call.rand n) refl) env in
      search (keeps_rules, safe, refl, creates, drawing) depth 9

  -- A deployment of which the rounds keep it.
  module _ (d : MachineDeployment)
      (replica : (t : KtMachineTemplate) (i : ℕ) → Keeps P (create_replica env d t i)) where
    Keeps-create_replicas :
        (t : KtMachineTemplate) (i left : ℕ) → Keeps P (create_replicas env d t i left)
    unfolding create_replicas
    Keeps-create_replicas t i zero = search keeps_rules
    Keeps-create_replicas t i (suc left) =
        Keeps-bind _ _ (replica t i) (λ _. Keeps-create_replicas t (suc i) left)

    pub Keeps-reconcile_deployment : Keeps P (reconcile_deployment env d)
    unfolding reconcile_deployment count_child_machines_by_owner kt_machine_for_machine_deployment
    Keeps-reconcile_deployment = search (keeps_rules, safe, refl, Keeps-create_replicas) depth 12

  pub Keeps-deployment_reconcile :
      ((m : KtMachine) → Allows P (Call.create (Object.machine m)))
      → (own : NamespacedName) → Keeps P (MachineDeployments.reconcile env own)
  unfolding MachineDeployments.reconcile
  Keeps-deployment_reconcile creates own =
      let deployment : (d : MachineDeployment) → Keeps P (reconcile_deployment env d) =
        λ d. Keeps-reconcile_deployment d (Keeps-create_replica creates d) in
      search (keeps_rules, safe, refl, deployment)
