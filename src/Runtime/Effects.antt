-- ===== src/Runtime/Effects.antt =====
-- A Go function with effects, from the calls made before it to its outcome and the calls made after
-- it: it returns a value, returns an `error`, panics, or ends the process (`Fatal` of the logger).
use kt_cloud_operator.Common.{String, Option, none, some, List, [], ◌∷◌}
use kt_cloud_operator.Runtime.Calls.{Error, Call, History}
use kt_cloud_operator.Runtime.Env.{Result, value, failure}

pub data Run (A : Type 0) : Type 0 where
  ok : A → History → Run A
  err : Error → History → Run A
  panic : String → History → Run A
  exit : History → Run A

abbrev pub history : {A : Type 0} → Run A → History
history (ok a h) = h
history (err e h) = h
history (panic s h) = h
history (exit h) = h

abbrev pub M : Type 0 → Type 0
M A = History → Run A

module _ {A : Type 0} where
  unfoldable pub pure : A → M A
  pure a h = ok a h

  -- `return err`
  unfoldable pub throw : Error → M A
  throw e h = err e h

  unfoldable pub panics : String → M A
  panics s h = panic s h

  unfoldable pub fatal : M A
  fatal h = exit h

  unfoldable pub lift : Result A → M A
  lift (value a) h = ok a h
  lift (failure e) h = err e h

  -- A call and its answer, which is read off the calls before it.
  unfoldable pub perform : Call → (History → Result A) → M A
  unfolding lift
  perform c answer h = lift (answer h) (c ∷ h)

  -- An answer that no call is recorded for.
  unfoldable pub gets : (History → A) → M A
  gets f h = ok (f h) h

-- `if err != nil { return err }`
unfoldable pub check : Option Error → M (Unit {0})
check none h = ok tt h
check (some e) h = err e h

unfoldable pub perform_check : Call → (History → Option Error) → M (Unit {0})
unfolding check
perform_check c answer h = check (answer h) (c ∷ h)

module _ {A B : Type 0} where
  abbrev pub continue : Run A → (A → M B) → (Error → M B) → Run B
  continue (ok a h) f g = f a h
  continue (err e h) f g = g e h
  continue (panic s h) f g = panic s h
  continue (exit h) f g = exit h

  -- `v, err := m`, with what follows on `err == nil` and on `err != nil`.
  unfoldable pub catch : M A → (A → M B) → (Error → M B) → M B
  catch m f g h = continue (m h) f g

  infixl 10 ◌>>=◌ ◌>>◌
  -- opening this opens the actions above too
  unfoldable pub ◌>>=◌ : M A → (A → M B) → M B
  unfolding catch pure throw panics fatal perform perform_check gets check lift
  ◌>>=◌ m f h = continue (m h) f throw

  abbrev pub ◌>>◌ : M A → M B → M B
  m >> n = m >>= λ _. n

-- `xs[0]`, which panics on an empty slice.
unfoldable pub first : {A : Type 0} → List A → M A
unfolding pure panics
first [] = panics "index out of range"
first (x ∷ xs) = pure x

-- `if len(xs) == 0 { return err }`, and then `xs[0]`.
unfoldable pub first_or : {A : Type 0} → Error → List A → M A
unfolding pure throw
first_or e [] = throw e
first_or e (x ∷ xs) = pure x
