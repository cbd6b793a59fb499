-- ===== src/Controller/Fleet.antt =====
-- The whole operator: passes of all ten reconcilers of internal/controller, over any objects, in any
-- order. controller-runtime calls them when an object that they watch has changed.
pub mod Others
pub mod Machines
pub mod Neighbours
pub mod Deployments
use kt_cloud_operator.Common.{◌≡◌, false, ◌∷◌}
use kt_cloud_operator.Api.{NamespacedName}
use kt_cloud_operator.Controller.Results.{CtrlResult}
use kt_cloud_operator.Controller.KtMachines as KtMachines
use kt_cloud_operator.Controller.MachineDeployments as MachineDeployments
use kt_cloud_operator.Controller.Owners.{
  cluster_reconcile, template_reconcile, kt_cluster_reconcile, subject_token_reconcile,
}
use kt_cloud_operator.Controller.Scaffolds.{
  reconcile_kt_network_firewall, reconcile_kt_public_network, reconcile_kubeadm_config_template,
  reconcile_kubeadm_control_plane,
}
use kt_cloud_operator.Api.Registration.{Resource}
use kt_cloud_operator.Controller.Lifecycle.{touches}
use kt_cloud_operator.Runtime.Calls.{Call, History}
use kt_cloud_operator.Runtime.Env.{Env}
use kt_cloud_operator.Runtime.Effects.{M, history}

-- The reconciler of each kind.
abbrev pub reconcile_kind : Env → Resource → NamespacedName → M CtrlResult
reconcile_kind env Resource.cluster = cluster_reconcile env
reconcile_kind env Resource.kt_cluster = kt_cluster_reconcile env
reconcile_kind env Resource.kt_machine = KtMachines.reconcile env
reconcile_kind env Resource.kt_machine_template = template_reconcile env
reconcile_kind env Resource.kt_network_firewall = reconcile_kt_network_firewall
reconcile_kind env Resource.kt_public_network = reconcile_kt_public_network
reconcile_kind env Resource.kt_subject_token = subject_token_reconcile env
reconcile_kind env Resource.kubeadm_config_template = reconcile_kubeadm_config_template
reconcile_kind env Resource.kubeadm_control_plane = reconcile_kubeadm_control_plane
reconcile_kind env Resource.machine_deployment = MachineDeployments.reconcile env

-- The calls so far, once passes of the operator have run, with calls of others between them that
-- `Leaves` lets through.
pub data Fleet (env : Env) (Leaves : Call → History → Type 0) (h : History) : History → Type 0 where
  start : Fleet env Leaves h h
  pass :
      {h' : History} (kind : Resource) (own : NamespacedName)
      → Fleet env Leaves h h'
      → Fleet env Leaves h (history (reconcile_kind env kind own h'))
  other :
      {h' : History} (c : Call) → Leaves c h' → Fleet env Leaves h h' → Fleet env Leaves h (c ∷ h')
