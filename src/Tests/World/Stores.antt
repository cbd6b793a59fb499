-- ===== src/Tests/World/Stores.antt =====
-- A world whose API server stores what each status write of a machine sends.
use kt_cloud_operator.Common.{
  String, ◌≡◌, refl, Bool, true, false, ◌&&◌, ◌∷◌, [], if◌then◌else◌, Bool-cases, ◌⊎◌, inl, inr,
}
use kt_cloud_operator.Api.{NamespacedName, KtMachine, KtCluster}
use kt_cloud_operator.Controller.Lifecycle.{Store, Same, is_named, touches}
use kt_cloud_operator.Runtime.Calls.{
  Object, Call, History, machine, http, get, list, create, update, update_status, delete, rand, now,
  sleep,
}
use kt_cloud_operator.Runtime.Env.{Env, value}
use kt_cloud_operator.Tests.World.{world, the_cluster, new_machine_named}

-- A status write that `accepts` for the stored machine is stored as what `save` makes of it.
module _ (accepts : KtMachine → KtMachine → Bool) (save : KtMachine → KtMachine) where
  unfoldable pub stored_where : NamespacedName → History → KtMachine
  stored_where key [] = new_machine_named key.name
  stored_where key (update_status (machine n) ∷ h) =
      let rest = stored_where key h in
      if accepts rest n && is_named key (machine n) then save n else rest
  stored_where key (_ ∷ h) = stored_where key h

abbrev pub stored_in : NamespacedName → History → KtMachine
stored_in = stored_where (λ old n. true) (λ n. n)

abbrev pub cluster_named : String → KtCluster
cluster_named name = record the_cluster { meta = record the_cluster.meta { name = name } }

abbrev pub storing_world : Env
storing_world = record world {
  get_machine = λ h key. value (stored_in key h);
  get_kt_cluster = λ h key. value (cluster_named key.name);
}

module _ (accepts : KtMachine → KtMachine → Bool) (save : KtMachine → KtMachine)
    (key : NamespacedName) where
  pub others :
      (c : Call) (h : History)
      → touches key c ≡ false
      → stored_where accepts save key (c ∷ h) ≡ stored_where accepts save key h
  unfolding stored_where
  others (http r) h e = refl
  others (get k n) h e = refl
  others (list k n) h e = refl
  others (create o) h e = refl
  others (update o) h e = refl
  others (update_status (machine n)) h e =
      elim (Bool-cases (accepts (stored_where accepts save key h) n)) [
        | inl taken ↦ rw (taken, e)
        | inr refused ↦ rw refused
      ]
  others (update_status (Object.template _)) h e = refl
  others (update_status (Object.deployment _)) h e = refl
  others (update_status (Object.kt_cluster _)) h e = refl
  others (update_status (Object.cluster _)) h e = refl
  others (update_status (Object.token _)) h e = refl
  others (update_status (Object.firewall _)) h e = refl
  others (update_status (Object.secret _)) h e = refl
  others (delete o) h e = refl
  others (rand n) h e = refl
  others now h e = refl
  others (sleep n) h e = refl

  pub writes :
      ((n : KtMachine) → Same n (save n))
      → (n : KtMachine) (h : History)
      → (stored_where accepts save key (update_status (machine n) ∷ h)
          ≡ stored_where accepts save key h)
        ⊎ Same n (stored_where accepts save key (update_status (machine n) ∷ h))
  unfolding stored_where
  writes saves n h =
      elim (Bool-cases (accepts (stored_where accepts save key h) n && is_named key (machine n))) [
        | inl this ↦ inr (rw this (saves n))
        | inr another ↦ inl (rw another)
      ]

abbrev pub the_store : (key : NamespacedName) → Store storing_world key
the_store key = record {
  stored = stored_in key;
  reads = λ h m e. cc;
  others = others (λ old n. true) (λ n. n) key;
  writes =
      writes (λ old n. true) (λ n. n) key
        (λ n. record { name = refl; namespace = refl; cluster = refl; status = refl });
  answers = λ n k h e. record { name = cc; namespace = cc; cluster = cc; status = cc };
}
