-- ===== src/Controller/Lifecycle/Versions.antt =====
-- An API server that refuses a status with an old resource version.
use kt_cloud_operator.Common.{◌≡◌, sym, true, false, ◌==◌, ◌∷◌}
use kt_cloud_operator.Api.{NamespacedName, KtMachine}
use kt_cloud_operator.Controller.Infrastructure.{set_joined}
use kt_cloud_operator.Controller.Lifecycle.{Store, is_named}
use kt_cloud_operator.Runtime.Calls.{Call, Error, History, machine}
use kt_cloud_operator.Runtime.Env.{Env, value, failure}

-- The API server's optimistic concurrency: a status under the key is only stored for a machine
-- with the stored resource version, and gives it another one. A write that changes nothing, behind
-- which a server may keep the version, is not told apart.
pub record Versions (env : Env) (key : NamespacedName) (store : Store env key) : Type 0 where
  pub named : (h : History) → is_named key (machine (store.stored h)) ≡ true
  pub stale :
      (n : KtMachine) (h : History)
      → is_named key (machine n) ≡ true
      → (n.meta.resource_version == (store.stored h).meta.resource_version) ≡ false
      → (x : Error) × (env.update_machine_status h n ≡ failure x)
  pub unstored :
      (n : KtMachine) (x : Error) (h : History)
      → env.update_machine_status h n ≡ failure x
      → store.stored (Call.update_status (machine n) ∷ h) ≡ store.stored h
  pub bumps :
      (n k : KtMachine) (h : History)
      → is_named key (machine n) ≡ true
      → env.update_machine_status h n ≡ value k
      → (n.meta.resource_version
          == (store.stored (Call.update_status (machine n) ∷ h)).meta.resource_version)
        ≡ false

-- Behind an accepted status, that of the machine that was read is an old one.
pub conflict-after_status :
    (env : Env) (key : NamespacedName) (store : Store env key)
    → Versions env key store
    → (m n k : KtMachine) (h : History) → is_named key (machine m) ≡ true
    → n.meta ≡ m.meta
    → env.update_machine_status h n ≡ value k
    → (x : Error) × (env.update_machine_status (Call.update_status (machine n) ∷ h) (set_joined m)
        ≡ failure x)
unfolding set_joined
conflict-after_status env key store versions m n k h named same accepted =
    versions.stale (set_joined m) _ named
      (rw (sym same) (versions.bumps n k h (rw same named) accepted))
