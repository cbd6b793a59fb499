-- ===== src/Controller/MachineDeployments/Tallies.antt =====
-- How many elements of a list pass a test, in whatever order they stand.
use mathlib.Core.Logic.{∥∥₁_elim}
use mathlib.Core.List.{Perm, Permᴰ, List, [], ◌∷◌}
use native.Mathlib.Nat.{ℕ_set}
use kt_cloud_operator.Common.{ℕ, suc, ◌≡◌, refl, ap, ◌∙◌, Bool, true, false, if◌then◌else◌}

if_swap :
    (b c : Bool) (n : ℕ)
    → (if b then suc (if c then suc n else n) else (if c then suc n else n))
      ≡ (if c then suc (if b then suc n else n) else (if b then suc n else n))
if_swap true true n = refl
if_swap true false n = refl
if_swap false true n = refl
if_swap false false n = refl

abbrev pub tally : {A : Type 0} → (A → Bool) → List A → ℕ
tally p [] = 0
tally p (x ∷ xs) = let rest = tally p xs in if p x then suc rest else rest

module _ {A : Type 0} (p : A → Bool) where
  tally-Permᴰ : {xs ys : List A} → Permᴰ xs ys → tally p xs ≡ tally p ys
  tally-Permᴰ Permᴰ.nil = refl
  tally-Permᴰ (Permᴰ.cons {a = x} {b = y} {l₁ = xs} {l₂ = ys} e q) =
      ap (λ n. if p x then suc n else n) (tally-Permᴰ q) ∙ ap (λ z. tally p (z ∷ ys)) e
  tally-Permᴰ (Permᴰ.swap {a = a} {b = b} {a' = a'} {b' = b'} {l = l} e e') =
      if_swap (p a) (p b) (tally p l) ∙ (λ i. tally p (e' i ∷ e i ∷ l))
  tally-Permᴰ (Permᴰ.trans q r) = tally-Permᴰ q ∙ tally-Permᴰ r

  pub tally-Perm : {xs ys : List A} → Perm xs ys → tally p xs ≡ tally p ys
  tally-Perm {xs} {ys} q = ∥∥₁_elim q (ℕ_set (tally p xs) (tally p ys)) (λ r. tally-Permᴰ r)
