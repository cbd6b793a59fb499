-- ===== src/Start/Kinds.antt =====
-- The kinds that the scheme knows, and those that the controllers watch.
use kt_cloud_operator.Common.{ℕ, suc, String, ◌≡◌, refl, ◌==◌, List, [], ◌∷◌, map, if◌then◌else◌}
use kt_cloud_operator.Api.Registration.{Resource, ObjectType, resource_kind, kind, object_types}
use kt_cloud_operator.Start.Controllers.{controllers}

pub occurrences : String → List String → ℕ
occurrences name [] = 0
occurrences name (x ∷ xs) = let rest = occurrences name xs in if x == name then suc rest else rest

-- Each resource is registered once, its List once, and one controller watches it.
record IsServed (r : Resource) : Type 0 where
  object : occurrences (kind (ObjectType.object r)) (map kind object_types) ≡ 1
  list : occurrences (kind (ObjectType.list_of r)) (map kind object_types) ≡ 1
  watched : occurrences (resource_kind r) (map (λ c. resource_kind c.watches) controllers) ≡ 1

-- Each kind of the group's resources is registered with the scheme once, its List once, and it is
-- watched by exactly one of the controllers that the program sets up.
controllers-IsServed : (r : Resource) → IsServed r
unfolding occurrences kind resource_kind object_types
controllers-IsServed Resource.cluster = record { object = refl; list = refl; watched = refl }
controllers-IsServed Resource.kt_cluster = record { object = refl; list = refl; watched = refl }
controllers-IsServed Resource.kt_machine = record { object = refl; list = refl; watched = refl }
controllers-IsServed Resource.kt_machine_template = record {
  object = refl;
  list = refl;
  watched = refl;
}
controllers-IsServed Resource.kt_network_firewall = record {
  object = refl;
  list = refl;
  watched = refl;
}
controllers-IsServed Resource.kt_public_network = record {
  object = refl;
  list = refl;
  watched = refl;
}
controllers-IsServed Resource.kt_subject_token = record {
  object = refl;
  list = refl;
  watched = refl;
}
controllers-IsServed Resource.kubeadm_config_template = record {
  object = refl;
  list = refl;
  watched = refl;
}
controllers-IsServed Resource.kubeadm_control_plane = record {
  object = refl;
  list = refl;
  watched = refl;
}
controllers-IsServed Resource.machine_deployment = record {
  object = refl;
  list = refl;
  watched = refl;
}
