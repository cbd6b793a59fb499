-- ===== src/Controller/MachineDeployments/Orders.antt =====
-- The count of a deployment's machines and the order of the listing.
use mathlib.Core.List.{Perm}
use text.Mathlib.TextEquality.{eq_iff}
use kt_cloud_operator.Common.{
  Member, All, length, ◌++◌, [], ◌==◌, ◌&&◌, &&-left, &&-right, Bool-cases, inl, inr, sym, String,
  suc, ◌≡◌, refl, ap, ◌∙◌, true, false, List, ◌∷◌, if◌then◌else◌,
}
use kt_cloud_operator.Controller.MachineDeployments.Tallies.{tally, tally-Perm}
use kt_cloud_operator.Api.{OwnerReference, KtMachine, MachineDeployment}
use kt_cloud_operator.Controller.MachineDeployments.{
  is_owned, is_child, count_children, count_child_machines_by_owner,
}
use kt_cloud_operator.Runtime.Calls.{Kind, Call, History}
use kt_cloud_operator.Runtime.Env.{Env, value}
use kt_cloud_operator.Runtime.Effects.{ok, ◌>>=◌}

module _ (d : MachineDeployment) where
  count_children-tally : (ms : List KtMachine) → count_children d ms ≡ tally (is_child d) ms
  unfolding count_children
  count_children-tally [] = refl
  count_children-tally (m ∷ ms) =
      ap (λ n. if is_child d m then suc n else n) (count_children-tally ms)

  count_children-Perm :
      {ms ms' : List KtMachine} → Perm ms ms' → count_children d ms ≡ count_children d ms'
  count_children-Perm {ms} {ms'} p =
      count_children-tally ms ∙ tally-Perm (is_child d) p ∙ sym (count_children-tally ms')

  count_lem :
      (env : Env) (h : History) (ms : List KtMachine)
      → env.list_machines h d.meta.namespace ≡ value ms
      → count_child_machines_by_owner env d h
        ≡ ok (count_children d ms) (Call.list Kind.machine d.meta.namespace ∷ h)
  unfolding count_child_machines_by_owner ◌>>=◌
  count_lem env h ms e = rw e refl

-- The machine has a reference to an owner of the kind MachineDeployment and of the deployment's
-- name.
abbrev pub HasOwner : MachineDeployment → KtMachine → Type 0
HasOwner d m =
    (r : OwnerReference) × Member r m.meta.owner_references
    × (r.kind ≡ "MachineDeployment")
    × (r.name ≡ d.meta.name)

is_owned-of_Member :
    (name : String) (refs : List OwnerReference) (r : OwnerReference)
    → Member r refs
    → r.kind ≡ "MachineDeployment"
    → r.name ≡ name
    → is_owned name refs ≡ true
unfolding is_owned
is_owned-of_Member name [] r inside kind named = elim inside [ ]
is_owned-of_Member name (ref ∷ refs) r (Member.here same) kind named =
    let its_kind = (eq_iff ref.kind "MachineDeployment").1 (ap (λ x. x.kind) (sym same) ∙ kind) in
    let its_name = (eq_iff ref.name name).1 (ap (λ x. x.name) (sym same) ∙ named) in
    rw (its_kind, its_name) refl
is_owned-of_Member name (ref ∷ refs) r (Member.there inside) kind named =
    elim (Bool-cases (ref.kind == "MachineDeployment" && ref.name == name)) [
      | inl this ↦ rw this refl
      | inr another ↦ rw another (is_owned-of_Member name refs r inside kind named)
    ]

is_owned-Member :
    (name : String) (refs : List OwnerReference)
    → is_owned name refs ≡ true
    → (r : OwnerReference) × Member r refs × (r.kind ≡ "MachineDeployment") × (r.name ≡ name)
unfolding is_owned
is_owned-Member name [] e = cc
is_owned-Member name (ref ∷ refs) e =
    elim (Bool-cases (ref.kind == "MachineDeployment" && ref.name == name)) [
      | inl this ↦ (
        ref,
        Member.here refl,
        (eq_iff ref.kind "MachineDeployment").0 (&&-left _ _ this),
        (eq_iff ref.name name).0 (&&-right _ _ this),
      )
      | inr another ↦
          let (r, inside, kind, named) = is_owned-Member name refs (rw another at e) in
          (r, Member.there inside, kind, named)
    ]

is_child-of_HasOwner : (d : MachineDeployment) (m : KtMachine) → HasOwner d m → is_child d m ≡ true
unfolding is_child
is_child-of_HasOwner d m (r, inside, kind, named) =
    is_owned-of_Member d.meta.name m.meta.owner_references r inside kind named

is_child-of_none : (d : MachineDeployment) (m : KtMachine) → ¬ HasOwner d m → is_child d m ≡ false
unfolding is_child
is_child-of_none d m without = elim (Bool-cases (is_owned d.meta.name m.meta.owner_references)) [
  | inl its ↦ elim (without (is_owned-Member d.meta.name m.meta.owner_references its)) [ ]
  | inr other ↦ other
]

count_children-none :
    (d : MachineDeployment) (others : List KtMachine)
    → All (λ m. ¬ HasOwner d m) others
    → count_children d others ≡ 0
unfolding count_children
count_children-none d [] every = refl
count_children-none d (m ∷ ms) every =
    rw (is_child-of_none d m every.0) (count_children-none d ms every.1)

count_children-split :
    (d : MachineDeployment) (its others : List KtMachine)
    → All (HasOwner d) its
    → All (λ m. ¬ HasOwner d m) others
    → count_children d (its ++ others) ≡ length its
unfolding count_children
count_children-split d [] others every none_of = count_children-none d others none_of
count_children-split d (m ∷ ms) others every none_of =
    rw (is_child-of_HasOwner d m every.0)
      (ap suc (count_children-split d ms others every.1 none_of))

-- The deployment's reconciler counts the machines that have a reference to the deployment, each
-- once, in whatever order and with however many references: where the listed machines are, up to
-- their order, those that have a reference to an owner of the kind MachineDeployment and of the
-- deployment's name, and others that have none, the count is the number of the first.
pub count_child_machines-exact :
    (env : Env) (d : MachineDeployment) (h : History) (ms its others : List KtMachine)
    → env.list_machines h d.meta.namespace ≡ value ms
    → Perm ms (its ++ others)
    → All (HasOwner d) its
    → All (λ m. ¬ HasOwner d m) others
    → count_child_machines_by_owner env d h
      ≡ ok (length its) (Call.list Kind.machine d.meta.namespace ∷ h)
count_child_machines-exact env d h ms its others listed same every none_of =
    count_lem d env h ms listed
    ∙ ap (λ n. ok n (Call.list Kind.machine d.meta.namespace ∷ h))
        (count_children-Perm d same ∙ count_children-split d its others every none_of)
