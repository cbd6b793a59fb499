-- ===== src/Runtime/Since.antt =====
-- What is true of every call that an action makes.
use kt_cloud_operator.Common.{ℕ, suc, ◌≡◌, refl, Bool, true, false, [], ◌∷◌, if◌then◌else◌}
use kt_cloud_operator.Runtime.Calls.{Call, History}
use kt_cloud_operator.Runtime.Effects.{M, history}
use kt_cloud_operator.Runtime.Keeps.{Keeps, Allows, keeps_rules}

-- The second history is the first with more calls, of which each satisfies `Q`.
pub data Since (Q : Call → Type 0) (h : History) : History → Type 0 where
  start : Since Q h h
  call : {c : Call} {h' : History} → Q c → Since Q h h' → Since Q h (c ∷ h')

-- Every call that `m` makes satisfies `Q`, however `m` ends.
abbrev pub Makes : {A : Type 0} → (Call → Type 0) → M A → Type 0
Makes Q m = (h : History) → Since Q h (history (m h))

pub Since-Allows : {Q : Call → Type 0} {h : History} {c : Call} → Q c → Allows (Since Q h) c
Since-Allows q h' s = Since.call q s

pub Makes-of_Keeps :
    {A : Type 0} (Q : Call → Type 0) (m : M A) → ((h : History) → Keeps (Since Q h) m) → Makes Q m
Makes-of_Keeps Q m k h = (k h).at h Since.start

pub Since-map :
    {Q R : Call → Type 0} {h h' : History} → ((c : Call) → Q c → R c) → Since Q h h' → Since R h h'
Since-map f Since.start = Since.start
Since-map f (Since.call {c = c} q s) = Since.call (f c q) (Since-map f s)

-- How many of the calls pass a test.
unfoldable pub count : (Call → Bool) → History → ℕ
count p [] = 0
count p (c ∷ h) = let rest = count p h in if p c then suc rest else rest

pub count-cons_false :
    (p : Call → Bool) (c : Call) (h : History) → p c ≡ false → count p (c ∷ h) ≡ count p h
unfolding count
count-cons_false p c h e = rw e

pub count-cons_true :
    (p : Call → Bool) (c : Call) (h : History) → p c ≡ true → count p (c ∷ h) ≡ suc (count p h)
unfolding count
count-cons_true p c h e = rw e

pub count-Since :
    (p : Call → Bool) {h h' : History} → Since (λ c. p c ≡ false) h h' → count p h' ≡ count p h
count-Since p Since.start = refl
count-Since p (Since.call {c = c} {h' = h'} q s) = rw (count-cons_false, q) (count-Since p s)

pub ruleset since_rules = (keeps_rules, Since-Allows, refl)
