-- ===== src/Common/Tests.antt =====
-- Boolean tests on numbers and texts, as Go's operators make them, and signed integers.
use Prim.Native.Nat.{ℕ, compare, Ordering}
use Prim.Native.String.{String, len, find}
use mathlib.Core.Path.{◌≡◌, refl}
use mathlib.Core.Logic.{◌⊎◌, inl, inr}
use mathlib.Core.Bool.{Bool, true, false, not, ◌&&◌}
use text.Mathlib.Text
use text.Mathlib.TextEquality.{eq_iff}

abbrev pub ltb : ℕ → ℕ → Bool
ltb a b = elim (compare a b) [ Ordering.lt ↦ true | _ ↦ false ]

abbrev pub leb : ℕ → ℕ → Bool
leb a b = elim (compare a b) [ Ordering.gt ↦ false | _ ↦ true ]

abbrev pub nat_eq : ℕ → ℕ → Bool
nat_eq a b = elim (compare a b) [ Ordering.eq ↦ true | _ ↦ false ]

-- Go's `==` on strings.
infix 50 ◌==◌
abbrev pub ◌==◌ : String → String → Bool
s == t = Text.◌==◌ s t

infix 1 if◌then◌else◌
abbrev pub if◌then◌else◌ {ℓ} : {A : Type ℓ} → Bool → A → A → A
if true then x else y = x
if false then x else y = y

-- To split on a computed test and keep the equation.
pub Bool-cases : (b : Bool) → (b ≡ true) ⊎ (b ≡ false)
Bool-cases true = inl refl
Bool-cases false = inr refl

-- `strings.Contains(s, t)`: `find` answers a position past the end where `t` does not occur.
unfoldable pub contains : String → String → Bool
contains s t = leb (find s t) (len s)

-- Go's `int`. `negsuc n` is -(n + 1).
pub data ℤ : Type 0 where
  pos : ℕ → ℤ
  negsuc : ℕ → ℤ

-- `code >= 200 && code < 300`
abbrev pub is_2xx : ℕ → Bool
is_2xx code = leb 200 code && ltb code 300

-- The same test on a decoded `int`, which a response may give as a negative number.
abbrev pub is_2xx_ℤ : ℤ → Bool
is_2xx_ℤ (pos code) = is_2xx code
is_2xx_ℤ (negsuc _) = false

pub not-eq_false : (b : Bool) → not b ≡ false → b ≡ true
not-eq_false true e = refl
not-eq_false false e = cc

pub &&-left : (a b : Bool) → (a && b) ≡ true → a ≡ true
&&-left true b e = refl
&&-left false b e = cc

pub &&-right : (a b : Bool) → (a && b) ≡ true → b ≡ true
&&-right true b e = e
&&-right false b e = cc

pub &&-other : (a b : Bool) → (a && b) ≡ false → b ≡ true → a ≡ false
&&-other true b e holds = cc
&&-other false b e holds = refl

-- A text that differs from a blank one is not blank.
pub blank-ne : (a b : String) → (a == "") ≡ true → (a == b) ≡ false → (b == "") ≡ false
blank-ne a b blank other = elim (Bool-cases (b == "")) [
  | inl also ↦
      let same = (eq_iff a "").0 blank in
      let none = (eq_iff b "").0 also in
      let clash : ◌≡◌ {A = Bool} true false = rw (same, none) at other in cc
  | inr distinct ↦ distinct
]
