-- ===== src/Controller/Scaffolds.antt =====
-- The reconcilers of internal/controller that are still the generator's scaffolding.
use kt_cloud_operator.Api.{NamespacedName}
use kt_cloud_operator.Controller.Results.{CtrlResult, done}
use kt_cloud_operator.Runtime.Effects.{M, pure}

unfoldable pub reconcile_kt_network_firewall : NamespacedName → M CtrlResult
reconcile_kt_network_firewall key = pure done

unfoldable pub reconcile_kt_public_network : NamespacedName → M CtrlResult
reconcile_kt_public_network key = pure done

unfoldable pub reconcile_kubeadm_config_template : NamespacedName → M CtrlResult
reconcile_kubeadm_config_template key = pure done

unfoldable pub reconcile_kubeadm_control_plane : NamespacedName → M CtrlResult
reconcile_kubeadm_control_plane key = pure done
