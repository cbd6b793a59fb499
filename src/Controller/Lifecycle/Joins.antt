-- ===== src/Controller/Lifecycle/Joins.antt =====
-- The write of the mark that a worker has joined, which follows the join.
use kt_cloud_operator.Common.{String, List}
use kt_cloud_operator.Api.{NamespacedName, KtMachine, KtCluster}
use kt_cloud_operator.Httpapi.WorkerVm.Joined.{HasJoined}
use kt_cloud_operator.Controller.Infrastructure.{set_joined, update_status}
use kt_cloud_operator.Controller.Lifecycle.{Lifecycle}
use kt_cloud_operator.Controller.Lifecycle.Rules.{Rules, AreGood, write}
use kt_cloud_operator.Runtime.Calls.{History}
use kt_cloud_operator.Runtime.Env.{Env}
use kt_cloud_operator.Runtime.Hoare.{Triple, Triple-post, Triple-pre}

-- The write keeps the property of the stored machine and of the one that the code goes on with.
pub record Joins (env : Env) (key : NamespacedName) (Base : History → Type 0)
    (Good : History → KtMachine → Type 0) (Own : KtCluster → Type 0) (laws : Lifecycle env Good Own)
    (rules : Rules env key Base Good) : Type 0 where
  pub mark :
      (planes : List KtMachine) (m : KtMachine) (token : String)
      → Triple
          (λ h. AreGood env key Base Good Own laws rules m m h × HasJoined env planes m token h)
          (AreGood env key Base Good Own laws rules m)
          Base
          (update_status env (set_joined m))

module _ (env : Env) (key : NamespacedName) (Base : History → Type 0)
    (Good : History → KtMachine → Type 0) (Own : KtCluster → Type 0) (laws : Lifecycle env Good Own)
    (rules : Rules env key Base Good) where
  -- Where the mark is of no matter to the property.
  pub unconditional :
      ((h : History) (m : KtMachine) → Good h m → Good h (set_joined m))
      → Joins env key Base Good Own laws rules
  unfolding update_status
  unconditional joined = record {
    mark = λ planes m token.
        Triple-pre (λ h p. p.0)
          (Triple-post (λ k h q. q.0)
            (write env key Base Good Own laws rules m (set_joined m) (λ h. joined h m)));
  }
