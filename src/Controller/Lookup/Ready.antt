-- ===== src/Controller/Lookup/Ready.antt =====
-- The control planes that a worker can join.
use kt_cloud_operator.Common.{
  Bool, true, false, ◌≡◌, ◌∙◌, sym, refl, ap, List, [], ◌∷◌, filter, Bool-cases, Member, here,
  there, inl, inr, not, ◌&&◌, ◌==◌, contains, ◌↔◌,
}
use kt_cloud_operator.Api.{KtMachine}
use kt_cloud_operator.Controller.Lookup.{
  control_plane_label, is_bootstrap_ready, get_bootstrap_ready_machine_control_plane,
}
use kt_cloud_operator.Runtime.Calls.{History}
use kt_cloud_operator.Runtime.Env.{Env, value}
use kt_cloud_operator.Runtime.Effects.{ok}
use kt_cloud_operator.Runtime.Steps.{>>=-eq_ok, pure-eq_ok, perform-eq_ok}

module _ {A : Type 0} (p : A → Bool) (x : A) where
  keep :
      (y : A) (ys : List A)
      → p y ≡ true
      → (Member x (filter p ys) → Member x ys × (p x ≡ true))
      → Member x (y ∷ filter p ys)
      → Member x (y ∷ ys) × (p x ≡ true)
  keep y ys good rest (here e) = (here e, ap p e ∙ good)
  keep y ys good rest (there l) = let (inside, holds) = rest l in (there inside, holds)

  filter_sound : (xs : List A) → Member x (filter p xs) → Member x xs × (p x ≡ true)
  filter_sound [] m = elim m [ ]
  filter_sound (y ∷ ys) m = elim (Bool-cases (p y)) [
    | inl good ↦ keep y ys good (λ l. filter_sound ys l) (rw (good, filter) at m)
    | inr bad ↦
        let (inside, holds) = filter_sound ys (rw (bad, filter) at m) in (there inside, holds)
  ]

  filter_complete : (xs : List A) → Member x xs → p x ≡ true → Member x (filter p xs)
  filter_complete [] m holds = elim m [ ]
  filter_complete (y ∷ ys) (here e) holds = rw (sym e, holds, filter) (here e)
  filter_complete (y ∷ ys) (there l) holds = elim (Bool-cases (p y)) [
    | inl good ↦ rw (good, filter) (there (filter_complete ys l holds))
    | inr bad ↦ rw (bad, filter) (filter_complete ys l holds)
  ]

-- What makes `p` a control plane that the worker `m` can join: `p` has another name, one with the label in it, is active,
-- and carries the mark that it is ready.
pub record Joinable (m p : KtMachine) : Type 0 where
  pub is_other : (p.meta.name == m.meta.name) ≡ false
  pub is_control_plane : contains p.meta.name control_plane_label ≡ true
  pub is_active : (p.status.status == "ACTIVE") ≡ true
  pub is_marked : (p.status.control_plane_ref.type == "BootstrapReady") ≡ true
  pub is_ready : p.status.control_plane_ref.status ≡ true

all_tests :
    (a b c d e : Bool)
    → (not a && b && c && d && e) ≡ true
    → (a ≡ false) × (b ≡ true) × (c ≡ true) × (d ≡ true) × (e ≡ true)
all_tests false true true true true q = (refl, refl, refl, refl, refl)
all_tests true b c d e q = cc
all_tests false false c d e q = cc
all_tests false true false d e q = cc
all_tests false true true false e q = cc
all_tests false true true true false q = cc

ready-Joinable : (m p : KtMachine) → is_bootstrap_ready m p ≡ true → Joinable m p
unfolding is_bootstrap_ready
ready-Joinable m p e =
    let (other, plane, active, marked, ready) =
      all_tests (p.meta.name == m.meta.name) (contains p.meta.name control_plane_label)
        (p.status.status == "ACTIVE") (p.status.control_plane_ref.type == "BootstrapReady")
        p.status.control_plane_ref.status e in
    record {
      is_other = other;
      is_control_plane = plane;
      is_active = active;
      is_marked = marked;
      is_ready = ready;
    }

Joinable-ready : (m p : KtMachine) → Joinable m p → is_bootstrap_ready m p ≡ true
unfolding is_bootstrap_ready
Joinable-ready m p j =
    rw (j.is_other, j.is_control_plane, j.is_active, j.is_marked, j.is_ready) refl

-- A worker is offered exactly the control planes that it can join: a machine is in the answer if and only if it is
-- among those that the API server lists in the worker's namespace and is joinable. Its cluster does not matter.
pub get_bootstrap_ready-exact :
    (env : Env) (m p : KtMachine) (ms found : List KtMachine) (h : History) {h' : History}
    → env.list_machines h m.meta.namespace ≡ value ms
    → get_bootstrap_ready_machine_control_plane env m h ≡ ok found h'
    → Member p found ↔ (Member p ms × Joinable m p)
unfolding get_bootstrap_ready_machine_control_plane
get_bootstrap_ready-exact env m p ms found h listed e =
    let (all, h₁, e₁, e₂) = >>=-eq_ok {A = List KtMachine} _ _ h e in
    let same : all ≡ ms = value_injective (sym (perform-eq_ok _ _ _ e₁).0 ∙ listed) in
    let is_filter : filter (is_bootstrap_ready m) ms ≡ found =
      ap (filter (is_bootstrap_ready m)) (sym same) ∙ (pure-eq_ok _ h₁ e₂).0 in
    (
      λ inside.
          let (l, r) = filter_sound (is_bootstrap_ready m) p ms (rw (sym is_filter) at inside) in
          (l, ready-Joinable m p r),
      λ both.
          rw (sym is_filter)
            (filter_complete (is_bootstrap_ready m) p ms both.0 (Joinable-ready m p both.1)),
    )
  where
    value_injective : {xs ys : List KtMachine} → value xs ≡ value ys → xs ≡ ys
    value_injective q = cc
