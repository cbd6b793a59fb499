-- ===== src/Runtime/Steps.antt =====
-- A bind and a catch, read from the outcome of their first action.
use kt_cloud_operator.Common.{
  String, ◌≡◌, refl, Option, none, some, Bool, true, false, if◌then◌else◌, ◌∷◌, ◌⊎◌, inl, inr,
}
use kt_cloud_operator.Runtime.Calls.{Error, Call, History}
use kt_cloud_operator.Runtime.Env.{Result, value, failure}
use kt_cloud_operator.Runtime.Effects.{
  Run, ok, err, panic, exit, M, continue, pure, throw, lift, gets, check, perform, perform_check,
  catch, ◌>>=◌,
}

module _ {A B : Type 0} where
  pub >>=-of_ok :
      (m : M A) (f : A → M B) {h h' : History} {a : A} → m h ≡ ok a h' → (m >>= f) h ≡ f a h'
  unfolding ◌>>=◌
  >>=-of_ok m f e = rw e

  pub >>=-of_err :
      (m : M A) (f : A → M B) {h h' : History} {e : Error} → m h ≡ err e h' → (m >>= f) h ≡ err e h'
  unfolding ◌>>=◌
  >>=-of_err m f e = rw e

  pub >>=-of_panic :
      (m : M A) (f : A → M B) {h h' : History} {s : String}
      → m h ≡ panic s h'
      → (m >>= f) h ≡ panic s h'
  unfolding ◌>>=◌
  >>=-of_panic m f e = rw e

  pub catch-of_ok :
      (m : M A) (f : A → M B) (g : Error → M B) {h h' : History} {a : A}
      → m h ≡ ok a h'
      → catch m f g h ≡ f a h'
  unfolding catch
  catch-of_ok m f g e = rw e

  pub catch-of_err :
      (m : M A) (f : A → M B) (g : Error → M B) {h h' : History} {x : Error}
      → m h ≡ err x h'
      → catch m f g h ≡ g x h'
  unfolding catch
  catch-of_err m f g e = rw e

  continue-eq_ok :
      (r : Run A) (f : A → M B) {b : B} {h' : History}
      → continue r f throw ≡ ok b h'
      → (a : A) × (h : History) × (r ≡ ok a h) × (f a h ≡ ok b h')
  unfolding throw
  continue-eq_ok (ok a h) f e = (a, h, refl, e)
  continue-eq_ok (err x h) f e = cc
  continue-eq_ok (panic s h) f e = cc
  continue-eq_ok (exit h) f e = cc

  -- Inversion of a bind that returns a value.
  pub >>=-eq_ok :
      (m : M A) (f : A → M B) (h : History) {b : B} {h' : History}
      → (m >>= f) h ≡ ok b h'
      → (a : A) × (h₁ : History) × (m h ≡ ok a h₁) × (f a h₁ ≡ ok b h')
  unfolding ◌>>=◌
  >>=-eq_ok m f h e = continue-eq_ok (m h) f e

module _ {A B : Type 0} where
  either-eq_ok :
      (r : Run A) (f : A → M B) (g : Error → M B) {b : B} {h' : History}
      → continue r f g ≡ ok b h'
      → ((a : A) × (h : History) × (r ≡ ok a h) × (f a h ≡ ok b h'))
        ⊎ ((x : Error) × (h : History) × (r ≡ err x h) × (g x h ≡ ok b h'))
  either-eq_ok (ok a h) f g e = inl (a, h, refl, e)
  either-eq_ok (err x h) f g e = inr (x, h, refl, e)
  either-eq_ok (panic s h) f g e = cc
  either-eq_ok (exit h) f g e = cc

  -- Inversion of a catch that returns a value.
  pub catch-eq_ok :
      (m : M A) (f : A → M B) (g : Error → M B) (h : History) {b : B} {h' : History}
      → catch m f g h ≡ ok b h'
      → ((a : A) × (h₁ : History) × (m h ≡ ok a h₁) × (f a h₁ ≡ ok b h'))
        ⊎ ((x : Error) × (h₁ : History) × (m h ≡ err x h₁) × (g x h₁ ≡ ok b h'))
  unfolding catch
  catch-eq_ok m f g h e = either-eq_ok (m h) f g e

-- Inversion of the actions that make one call or none.
module _ {A : Type 0} where
  pub lift-eq_ok :
      (r : Result A) (h : History) {a : A} {h' : History}
      → lift r h ≡ ok a h'
      → (r ≡ value a) × (h' ≡ h)
  unfolding lift
  lift-eq_ok (value a) h e = (cc, cc)
  lift-eq_ok (failure x) h e = cc

  pub lift-of_value : (r : Result A) {h : History} {a : A} → r ≡ value a → lift r h ≡ ok a h
  unfolding lift
  lift-of_value r e = rw e

  pub perform-eq_ok :
      (c : Call) (f : History → Result A) (h : History) {a : A} {h' : History}
      → perform c f h ≡ ok a h'
      → (f h ≡ value a) × (h' ≡ c ∷ h)
  unfolding perform
  perform-eq_ok c f h e = lift-eq_ok (f h) (c ∷ h) e

  pub perform-of_value :
      (c : Call) (f : History → Result A) {h : History} {a : A}
      → f h ≡ value a
      → perform c f h ≡ ok a (c ∷ h)
  unfolding perform lift
  perform-of_value c f e = rw e

  pub pure-eq_ok :
      (x : A) (h : History) {a : A} {h' : History} → pure x h ≡ ok a h' → (x ≡ a) × (h' ≡ h)
  unfolding pure
  pure-eq_ok x h e = (cc, cc)

  pub gets-eq_ok :
      (f : History → A) (h : History) {x : A} {h' : History}
      → gets f h ≡ ok x h'
      → (f h ≡ x) × (h' ≡ h)
  unfolding gets
  gets-eq_ok f h q = (cc, cc)

  -- A test that ends in an error was passed.
  pub if_throw-eq_ok :
      (b : Bool) (e : Error) (m : M A) (h : History) {x : A} {h' : History}
      → (if b then throw e else m) h ≡ ok x h'
      → (b ≡ false) × (m h ≡ ok x h')
  unfolding throw
  if_throw-eq_ok true e m h q = cc
  if_throw-eq_ok false e m h q = (refl, q)

pub check-eq_ok :
    (x : Option Error) (h : History) {h' : History} → check x h ≡ ok tt h' → (x ≡ none) × (h' ≡ h)
unfolding check
check-eq_ok none h e = (refl, cc)
check-eq_ok (some x) h e = cc

pub perform_check-eq_ok :
    (c : Call) (f : History → Option Error) (h : History) {h' : History}
    → perform_check c f h ≡ ok tt h'
    → (f h ≡ none) × (h' ≡ c ∷ h)
unfolding perform_check
perform_check-eq_ok c f h e = check-eq_ok (f h) (c ∷ h) e
