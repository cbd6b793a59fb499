-- ===== src/Runtime/Hoare.antt =====
-- Triples: from `P`, an action that returns `a` ends in `Q a`, and one that ends otherwise in `R`.
use kt_cloud_operator.Common.{◌≡◌, refl, Bool, true, false, Option, none, some, ◌∷◌, if◌then◌else◌}
use kt_cloud_operator.Runtime.Calls.{Error, Call, History}
use kt_cloud_operator.Runtime.Env.{Result, value, failure}
use kt_cloud_operator.Runtime.Effects.{
  Run, ok, err, panic, exit, history, M, continue, pure, throw, lift, check, perform, perform_check,
  catch, ◌>>=◌,
}
use kt_cloud_operator.Runtime.Keeps.{Keeps}

-- Where a run has ended.
abbrev pub Ends : {A : Type 0} → (A → History → Type 0) → (History → Type 0) → Run A → Type 0
Ends Q R (ok a h) = Q a h
Ends Q R (err e h) = R h
Ends Q R (panic s h) = R h
Ends Q R (exit h) = R h

pub record Triple {A : Type 0} (P : History → Type 0) (Q : A → History → Type 0)
    (R : History → Type 0) (m : M A) : Type 0 where
  pub at : (h : History) → P h → Ends Q R (m h)

module _ {A : Type 0} {P R : History → Type 0} {Q : A → History → Type 0} where
  pub Triple-pure : (a : A) → ((h : History) → P h → Q a h) → Triple P Q R (pure a)
  unfolding pure
  Triple-pure a q = record { at = q }

  pub Triple-throw : (e : Error) → ((h : History) → P h → R h) → Triple P Q R (throw e)
  unfolding throw
  Triple-throw e r = record { at = r }

  pub Triple-if :
      (test : Bool) (on off : M A)
      → (test ≡ true → Triple P Q R on)
      → (test ≡ false → Triple P Q R off)
      → Triple P Q R (if test then on else off)
  Triple-if true on off t_on t_off = t_on refl
  Triple-if false on off t_on t_off = t_off refl

  ends :
      (r : Run A)
      → ((a : A) (h : History) → P h → Q a h)
      → ((h : History) → P h → R h)
      → P (history r)
      → Ends Q R r
  ends (ok a h) q w p = q a h p
  ends (err e h) q w p = w h p
  ends (panic s h) q w p = w h p
  ends (exit h) q w p = w h p

  pub Triple-of_Keeps :
      {m : M A}
      → Keeps P m
      → ((a : A) (h : History) → P h → Q a h)
      → ((h : History) → P h → R h)
      → Triple P Q R m
  Triple-of_Keeps {m} k q w = record { at = λ h p. ends (m h) q w (k.at h p) }

  -- A value that is decoded is known to be the decoding.
  pub Triple-lift :
      (x : Result A)
      → ((a : A) (h : History) → x ≡ value a → P h → Q a h)
      → ((h : History) → P h → R h)
      → Triple P Q R (lift x)
  unfolding lift
  Triple-lift (value a) q w = record { at = λ h p. q a h refl p }
  Triple-lift (failure e) q w = record { at = w }

module _ {A B : Type 0} {R : History → Type 0} {Q : A → History → Type 0}
    {S : B → History → Type 0} where
  continue-Ends :
      (r : Run A) (f : A → M B) (g : Error → M B)
      → ((a : A) → Triple (Q a) S R (f a))
      → ((e : Error) → Triple R S R (g e))
      → Ends Q R r
      → Ends S R (continue r f g)
  continue-Ends (ok a h) f g tf tg q = (tf a).at h q
  continue-Ends (err e h) f g tf tg q = (tg e).at h q
  continue-Ends (panic s h) f g tf tg q = q
  continue-Ends (exit h) f g tf tg q = q

  pub Triple-bind :
      {P : History → Type 0} {m : M A} {f : A → M B}
      → Triple P Q R m
      → ((a : A) → Triple (Q a) S R (f a))
      → Triple P S R (m >>= f)
  unfolding ◌>>=◌
  Triple-bind {m} {f} tm tf = record {
    at = λ h p. continue-Ends (m h) f throw tf (λ e. Triple-throw e (λ k r. r)) (tm.at h p);
  }

  pub Triple-catch :
      {P : History → Type 0} {m : M A} {f : A → M B} {g : Error → M B}
      → Triple P Q R m
      → ((a : A) → Triple (Q a) S R (f a))
      → ((e : Error) → Triple R S R (g e))
      → Triple P S R (catch m f g)
  unfolding catch
  Triple-catch {m} {f} {g} tm tf tg = record {
    at = λ h p. continue-Ends (m h) f g tf tg (tm.at h p);
  }

-- The first action keeps what the second starts from.
pub Triple-after_Keeps :
    {A B : Type 0} {P R : History → Type 0} {S : B → History → Type 0} {m : M A} {f : A → M B}
    → Keeps P m
    → ((h : History) → P h → R h)
    → ((a : A) → Triple P S R (f a))
    → Triple P S R (m >>= f)
Triple-after_Keeps k w tf = Triple-bind (Triple-of_Keeps k (λ a h p. p) w) tf

-- How an action that ends somewhere has left its history.
pub Ends-history :
    {A : Type 0} (R : History → Type 0) (r : Run A) → Ends (λ a. R) R r → R (history r)
Ends-history R (ok a h) q = q
Ends-history R (err e h) q = q
Ends-history R (panic s h) q = q
Ends-history R (exit h) q = q

pub Keeps-of_Triple :
    {A : Type 0} {P : History → Type 0} {m : M A} → Triple P (λ a. P) P m → Keeps P m
Keeps-of_Triple {P = P} {m = m} t = record { at = λ h p. Ends-history P (m h) (t.at h p) }

weaken :
    {A : Type 0} {Q Q' : A → History → Type 0} (R : History → Type 0) (r : Run A)
    → ((a : A) (h : History) → Q a h → Q' a h)
    → Ends Q R r
    → Ends Q' R r
weaken R (ok a h) w q = w a h q
weaken R (err e h) w q = q
weaken R (panic s h) w q = q
weaken R (exit h) w q = q

module _ {A : Type 0} {P R : History → Type 0} {Q : A → History → Type 0} {m : M A} where
  pub Triple-pre :
      {P' : History → Type 0} → ((h : History) → P' h → P h) → Triple P Q R m → Triple P' Q R m
  Triple-pre stronger t = record { at = λ h p. t.at h (stronger h p) }

  pub Triple-post :
      {Q' : A → History → Type 0}
      → ((a : A) (h : History) → Q a h → Q' a h)
      → Triple P Q R m
      → Triple P Q' R m
  Triple-post {Q'} w t = record { at = λ h p. weaken {Q = Q} {Q' = Q'} R (m h) w (t.at h p) }

  -- A part of what an action starts from that does not depend on the calls.
  pub Triple-fact : {F : Type 0} → (F → Triple P Q R m) → Triple (λ h. P h × F) Q R m
  Triple-fact t = record { at = λ h p. (t p.1).at h p.0 }

observe :
    {A : Type 0} (Q F : A → History → Type 0) (R : History → Type 0) (r : Run A)
    → ((a : A) (k : History) → r ≡ ok a k → F a k)
    → Ends Q R r
    → Ends (λ a k. Q a k × F a k) R r
observe Q F R (ok a h) f q = (q, f a h refl)
observe Q F R (err e h) f q = q
observe Q F R (panic s h) f q = q
observe Q F R (exit h) f q = q

-- What is known of every run that returns a value.
pub Triple-run :
    {A : Type 0} {P R : History → Type 0} {Q F : A → History → Type 0} {m : M A}
    → Triple P Q R m
    → ((a : A) (h k : History) → m h ≡ ok a k → F a k)
    → Triple P (λ a k. Q a k × F a k) R m
Triple-run {R} {Q} {F} {m} t f = record {
  at = λ h p. observe Q F R (m h) (λ a k. f a h k) (t.at h p);
}

weaken_error :
    {A : Type 0} (Q : A → History → Type 0) {R R' : History → Type 0} (r : Run A)
    → ((h : History) → R h → R' h)
    → Ends Q R r
    → Ends Q R' r
weaken_error Q (ok a h) w q = q
weaken_error Q (err e h) w q = w h q
weaken_error Q (panic s h) w q = w h q
weaken_error Q (exit h) w q = w h q

pub Triple-error :
    {A : Type 0} {P R R' : History → Type 0} {Q : A → History → Type 0} {m : M A}
    → ((h : History) → R h → R' h)
    → Triple P Q R m
    → Triple P Q R' m
Triple-error {R} {R'} {Q} {m} w t = record {
  at = λ h p. weaken_error Q {R = R} {R' = R'} (m h) w (t.at h p);
}

lifted :
    {A : Type 0} (Q : A → History → Type 0) (R : History → Type 0) (x : Result A) (k : History)
    → ((a : A) → x ≡ value a → Q a k)
    → R k
    → Ends Q R (lift x k)
unfolding lift
lifted Q R (value a) k q w = q a refl
lifted Q R (failure e) k q w = w

checked :
    (Q R : History → Type 0) (x : Option Error) (k : History)
    → (x ≡ none → Q k)
    → ((e : Error) → x ≡ some e → R k)
    → Ends (λ (_ : Unit {0}). Q) R (check x k)
unfolding check
checked Q R none k q w = q refl
checked Q R (some e) k q w = w e refl

-- A call, with what its answer is.
pub Triple-perform :
    {A : Type 0} {P R : History → Type 0} {Q : A → History → Type 0} (c : Call)
    (answer : History → Result A)
    → ((h : History) (a : A) → answer h ≡ value a → P h → Q a (c ∷ h))
    → ((h : History) → P h → R (c ∷ h))
    → Triple P Q R (perform c answer)
unfolding perform
Triple-perform {R} {Q} c answer q w = record {
  at = λ h p. lifted Q R (answer h) (c ∷ h) (λ a e. q h a e p) (w h p);
}

-- A call that only succeeds or fails.
pub Triple-perform_check :
    {P Q R : History → Type 0} (c : Call) (answer : History → Option Error)
    → ((h : History) → answer h ≡ none → P h → Q (c ∷ h))
    → ((h : History) (e : Error) → answer h ≡ some e → P h → R (c ∷ h))
    → Triple P (λ (_ : Unit {0}). Q) R (perform_check c answer)
unfolding perform_check
Triple-perform_check {Q} {R} c answer q w = record {
  at = λ h p. checked Q R (answer h) (c ∷ h) (λ e. q h e p) (λ x e. w h x e p);
}
