-- ===== src/Runtime/Keeps.antt =====
-- Invariants of the calls made, with one rule for each way to build an action.
use kt_cloud_operator.Common.{
  ◌≡◌, refl, Bool, true, false, Option, none, some, List, [], ◌∷◌, if◌then◌else◌,
}
use kt_cloud_operator.Runtime.Calls.{Error, Call, History}
use kt_cloud_operator.Runtime.Env.{Result, value, failure}
use kt_cloud_operator.Runtime.Effects.{
  Run, ok, err, panic, exit, history, M, continue, pure, throw, panics, fatal, lift, perform, gets,
  check, perform_check, catch, ◌>>=◌, first, first_or,
}

-- `m` keeps `P`, however it ends
pub record Keeps {A : Type 0} (P : History → Type 0) (m : M A) : Type 0 where
  pub at : (h : History) → P h → P (history (m h))

-- a call that keeps `P`
abbrev pub Allows : (History → Type 0) → Call → Type 0
Allows P c = (h : History) → P h → P (c ∷ h)

module _ {A : Type 0} {P : History → Type 0} where
  pub Keeps-pure : (a : A) → Keeps P (pure a)
  unfolding pure
  Keeps-pure a = record { at = λ h p. p }

  pub Keeps-throw : (e : Error) → Keeps P (throw {A = A} e)
  unfolding throw
  Keeps-throw e = record { at = λ h p. p }

  pub Keeps-panics : (s : _) → Keeps P (panics {A = A} s)
  unfolding panics
  Keeps-panics s = record { at = λ h p. p }

  pub Keeps-fatal : Keeps P (fatal {A = A})
  unfolding fatal
  Keeps-fatal = record { at = λ h p. p }

  pub Keeps-lift : (r : Result A) → Keeps P (lift r)
  unfolding lift
  Keeps-lift (value a) = record { at = λ h p. p }
  Keeps-lift (failure e) = record { at = λ h p. p }

  pub Keeps-gets : (f : History → A) → Keeps P (gets f)
  unfolding gets
  Keeps-gets f = record { at = λ h p. p }

  pub Keeps-perform : (c : Call) (f : History → Result A) → Allows P c → Keeps P (perform c f)
  unfolding perform
  Keeps-perform c f allowed = record { at = λ h p. (Keeps-lift (f h)).at (c ∷ h) (allowed h p) }

  -- Each branch may use the outcome of the test.
  pub Keeps-if :
      (test : Bool) (on off : M A)
      → (test ≡ true → Keeps P on)
      → (test ≡ false → Keeps P off)
      → Keeps P (if test then on else off)
  Keeps-if true on off k_on k_off = k_on refl
  Keeps-if false on off k_on k_off = k_off refl

module _ {P : History → Type 0} where
  pub Keeps-check : (e : Option Error) → Keeps P (check e)
  unfolding check
  Keeps-check none = record { at = λ h p. p }
  Keeps-check (some e) = record { at = λ h p. p }

  pub Keeps-perform_check :
      (c : Call) (f : History → Option Error) → Allows P c → Keeps P (perform_check c f)
  unfolding perform_check
  Keeps-perform_check c f allowed = record {
    at = λ h p. (Keeps-check (f h)).at (c ∷ h) (allowed h p);
  }

module _ {A B : Type 0} {P : History → Type 0} where
  continue_at :
      (r : Run A) (f : A → M B) (g : Error → M B)
      → ((a : A) → Keeps P (f a))
      → ((e : Error) → Keeps P (g e))
      → P (history r)
      → P (history (continue r f g))
  continue_at (ok a h) f g kf kg p = (kf a).at h p
  continue_at (err e h) f g kf kg p = (kg e).at h p
  continue_at (panic s h) f g kf kg p = p
  continue_at (exit h) f g kf kg p = p

  pub Keeps-catch :
      (m : M A) (f : A → M B) (g : Error → M B)
      → Keeps P m
      → ((a : A) → Keeps P (f a))
      → ((e : Error) → Keeps P (g e))
      → Keeps P (catch m f g)
  unfolding catch
  Keeps-catch m f g km kf kg = record { at = λ h p. continue_at (m h) f g kf kg (km.at h p) }

  pub Keeps-bind :
      (m : M A) (f : A → M B) → Keeps P m → ((a : A) → Keeps P (f a)) → Keeps P (m >>= f)
  unfolding ◌>>=◌
  Keeps-bind m f km kf = record {
    at = λ h p. continue_at (m h) f throw kf (λ e. Keeps-throw e) (km.at h p);
  }

module _ {A : Type 0} {P : History → Type 0} where
  pub Keeps-first : (xs : List A) → Keeps P (first xs)
  unfolding first
  Keeps-first [] = Keeps-panics _
  Keeps-first (x ∷ xs) = Keeps-pure x

  pub Keeps-first_or : (e : Error) (xs : List A) → Keeps P (first_or e xs)
  unfolding first_or
  Keeps-first_or e [] = Keeps-throw e
  Keeps-first_or e (x ∷ xs) = Keeps-pure x

-- `m` may break `P`, and ends in `Q`
pub record Moves {A : Type 0} (P Q : History → Type 0) (m : M A) : Type 0 where
  pub at : (h : History) → P h → Q (history (m h))

module _ {P Q : History → Type 0} (weaker : (h : History) → P h → Q h) where
  pub Moves-of_Keeps : {A : Type 0} {m : M A} → Keeps P m → Moves P Q m
  Moves-of_Keeps {m = m} k = record { at = λ h p. weaker _ (k.at h p) }

  module _ {A B : Type 0} (m : M A) where
    continue-Moves :
        (r : Run A) (f : A → M B) (g : Error → M B)
        → ((a : A) → Moves P Q (f a))
        → ((e : Error) → Moves P Q (g e))
        → P (history r)
        → Q (history (continue r f g))
    continue-Moves (ok a h) f g kf kg p = (kf a).at h p
    continue-Moves (err e h) f g kf kg p = (kg e).at h p
    continue-Moves (panic s h) f g kf kg p = weaker h p
    continue-Moves (exit h) f g kf kg p = weaker h p

    -- The first action keeps `P`, and the rest moves from it.
    pub Moves-catch :
        (f : A → M B) (g : Error → M B)
        → Keeps P m
        → ((a : A) → Moves P Q (f a))
        → ((e : Error) → Moves P Q (g e))
        → Moves P Q (catch m f g)
    unfolding catch
    Moves-catch f g km kf kg = record { at = λ h p. continue-Moves (m h) f g kf kg (km.at h p) }

    pub Moves-bind : (f : A → M B) → Keeps P m → ((a : A) → Moves P Q (f a)) → Moves P Q (m >>= f)
    unfolding ◌>>=◌
    Moves-bind f km kf = record {
      at = λ h p. continue-Moves (m h) f throw kf (λ e. Moves-of_Keeps (Keeps-throw e)) (km.at h p);
    }

-- The first action moves, and the rest keeps where it has moved to.
pub Moves-bind_first :
    {A B : Type 0} {P Q : History → Type 0} (m : M A) (f : A → M B)
    → Moves P Q m
    → ((a : A) → Keeps Q (f a))
    → Moves P Q (m >>= f)
unfolding ◌>>=◌
Moves-bind_first m f km kf = record {
  at = λ h p. continue_at (m h) f throw kf (λ e. Keeps-throw e) (km.at h p);
}

pub Moves-perform :
    {A : Type 0} {P Q : History → Type 0} (c : Call) (f : History → Result A)
    → ((h : History) → P h → Q (c ∷ h))
    → Moves P Q (perform c f)
unfolding perform
Moves-perform {Q} c f moved = record {
  at = λ h p. (Keeps-lift {P = Q} (f h)).at (c ∷ h) (moved h p);
}

pub Moves-if :
    {A : Type 0} {P Q : History → Type 0} (b : Bool) (m n : M A)
    → (b ≡ true → Moves P Q m)
    → (b ≡ false → Moves P Q n)
    → Moves P Q (if b then m else n)
Moves-if true m n km kn = km refl
Moves-if false m n km kn = kn refl

pub ruleset keeps_rules = (
  Keeps-pure, Keeps-throw, Keeps-panics, Keeps-fatal, Keeps-lift, Keeps-gets, Keeps-perform,
  Keeps-if, Keeps-check, Keeps-perform_check, Keeps-catch, Keeps-bind, Keeps-first, Keeps-first_or,
)
