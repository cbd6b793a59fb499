-- ===== src/Controller/Owners/Total.antt =====
-- The reconciler of `KTCluster`s on every answer.
use kt_cloud_operator.Common.{◌≡◌}
use kt_cloud_operator.Api.{KtCluster}
use kt_cloud_operator.Controller.Results.{done}
use kt_cloud_operator.Controller.Owners.{reconcile_kt_cluster}
use kt_cloud_operator.Controller.Owners.Templates.{reconcile_kt_cluster-Visits}
use kt_cloud_operator.Runtime.Calls.{History}
use kt_cloud_operator.Runtime.Env.{Env}
use kt_cloud_operator.Runtime.Effects.{ok}

-- The reconciler of a `KTCluster` is done whatever the API server answers: it never panics, reports
-- an error or asks to run again, also where a template is missing or its owner cannot be set.
reconcile_kt_cluster-total :
    (env : Env) (c : KtCluster) (h : History)
    → (h' : History) × (reconcile_kt_cluster env c h ≡ ok done h')
reconcile_kt_cluster-total env c h = let (h', e, _) = reconcile_kt_cluster-Visits env c h in (h', e)
