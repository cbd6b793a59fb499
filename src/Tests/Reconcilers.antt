-- ===== src/Tests/Reconcilers.antt =====
-- The other reconcilers, the lookups and the names.
use kt_cloud_operator.Common.{
  suc, ◌+◌, String, ◌≡◌, ◌↔◌, refl, [], ◌∷◌, All, Member, length, arith, contains,
}
use kt_cloud_operator.Api.{NamespacedName, KtCluster}
use kt_cloud_operator.Controller.Results.{done}
use kt_cloud_operator.Controller.RandomNames.{chars, charset, random_string}
use kt_cloud_operator.Controller.RandomNames.Draws.{Draws, drawn, random_string-length}
use kt_cloud_operator.Controller.Lookup.{
  is_bootstrap_ready, get_bootstrap_ready_machine_control_plane,
}
use kt_cloud_operator.Controller.Lookup.Ready.{Joinable, get_bootstrap_ready-exact}
use kt_cloud_operator.Controller.Infrastructure.{set_bootstrap_ready}
use kt_cloud_operator.Controller.Owners.Templates.{Visits, reconcile_kt_cluster-Visits}
use kt_cloud_operator.Controller.Owners.{
  reconcile_kt_cluster, update_object, kt_cluster_for_cluster, reconcile_cluster,
}
use kt_cloud_operator.Controller.Owners.Owned.{Owned, reconcile_cluster-owns}
use kt_cloud_operator.Runtime.Calls.{History, Object, Kind, Call}
use kt_cloud_operator.Runtime.Env.{value}
use kt_cloud_operator.Runtime.Effects.{ok, history, catch, ◌>>=◌}
use kt_cloud_operator.Tests.World.{the_cluster, world, refusing_world, plane, worker, the_owner}

get_bootstrap_ready-exact_example :
    Member plane (plane ∷ []) ↔ (Member plane (plane ∷ []) × Joinable worker plane)
unfolding get_bootstrap_ready_machine_control_plane is_bootstrap_ready set_bootstrap_ready contains
    ◌>>=◌
get_bootstrap_ready-exact_example =
    get_bootstrap_ready-exact refusing_world worker plane (plane ∷ []) (plane ∷ []) [] refl refl

world-Draws : Draws world
world-Draws h n = (0, refl, omega arith)

random_string-length_example :
    (s : String) × (random_string world (suc 4) [] ≡ ok s (drawn (suc 4 + 5) []))
    × (length (chars s) ≡ suc 4 + 5)
    × All (λ c. Member c charset) (chars s)
random_string-length_example = random_string-length world 5 [] world-Draws

abbrev worker_key : NamespacedName
worker_key = record { name = "kt-cluster1-md-0-x"; namespace = "default" }

reconcile_cluster-owns_example :
    (key : NamespacedName) × (k : KtCluster) × (key.name ≡ "kt-cluster1")
    × (key.namespace ≡ "default")
    × (world.get_kt_cluster [] key ≡ value k)
    × Owned world
        (Object.cluster the_owner)
        (Call.get Kind.kt_cluster key)
        []
        (history (reconcile_cluster world the_owner []))
        k.meta
        (λ n. Object.kt_cluster (record k { meta = n }))
unfolding reconcile_cluster kt_cluster_for_cluster update_object catch ◌>>=◌
reconcile_cluster-owns_example = reconcile_cluster-owns world the_owner [] refl

reconcile_kt_cluster-Visits_example :
    (h' : History) × (reconcile_kt_cluster world the_cluster [] ≡ ok done h')
    × Visits world the_cluster [] h'
reconcile_kt_cluster-Visits_example = reconcile_kt_cluster-Visits world the_cluster []
