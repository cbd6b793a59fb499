-- ===== src/Tests/Machines.antt =====
-- The reconciler of machines.
use kt_cloud_operator.Common.{suc, ◌≤◌, []}
use kt_cloud_operator.Controller.KtMachines.{reconcile}
use kt_cloud_operator.Controller.KtMachines.AtMostOne.{reconcile-at_most_one}
use kt_cloud_operator.Httpapi.Creates.{creates_server}
use kt_cloud_operator.Runtime.Effects.{history}
use kt_cloud_operator.Runtime.Since.{count}
use kt_cloud_operator.Tests.World.{world}

reconcile-at_most_one_example :
    count creates_server (
      history (
        reconcile world
          (record { name = "kt-cluster1-control-plane-x"; namespace = "default" })
          []))
    ≤ suc (count creates_server [])
reconcile-at_most_one_example =
    reconcile-at_most_one world
      (record { name = "kt-cluster1-control-plane-x"; namespace = "default" }) []
