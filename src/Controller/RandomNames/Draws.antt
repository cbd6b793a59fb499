-- ===== src/Controller/RandomNames/Draws.antt =====
-- The names that `RandomString` makes.
use kt_cloud_operator.Common.{
  ℕ, zero, suc, ◌+◌, ◌<◌, String, ◌≡◌, ◌∙◌, refl, ap, List, [], ◌∷◌, some, All, Member, here, there,
  arith, length, get_elem?,
}
use Prim.Native.Char.{Char}
use kt_cloud_operator.Controller.RandomNames.{
  chars, text, charset, random_char, random_chars, random_string,
}
use kt_cloud_operator.Runtime.Calls.{History, rand}
use kt_cloud_operator.Runtime.Env.{Env, value}
use kt_cloud_operator.Runtime.Effects.{ok, pure, catch, perform, lift}
use kt_cloud_operator.Runtime.Steps.{>>=-of_ok}

chars-text : (cs : List Char) → chars (text cs) ≡ cs
chars-text [] = refl
chars-text (c ∷ cs) = ap (λ l. c ∷ l) (chars-text cs)

get_elem?-Member :
    {A : Type 0} (xs : List A) (n : ℕ)
    → n < length xs
    → (x : A) × (get_elem? xs n ≡ some x) × Member x xs
get_elem?-Member [] n small = let impossible : ⊥ = omega (arith, small) in elim impossible [ ]
get_elem?-Member (x ∷ xs) zero small = (x, refl, here refl)
get_elem?-Member (x ∷ xs) (suc n) small =
    let (y, at, inside) = get_elem?-Member xs n (omega (arith, small)) in (y, at, there inside)

-- The source of randomness answers, and in range.
abbrev pub Draws : Env → Type 0
Draws env = (h : History) (n : ℕ) → (k : ℕ) × (env.rand_int h (suc n) ≡ value k) × (k < suc n)

-- How many characters `RandomString` returns.
abbrev pub returned : ℕ → ℕ
returned zero = 0
returned (suc n) = suc n + 5

abbrev pub drawn : ℕ → History → History
drawn zero h = h
drawn (suc n) h = drawn n (rand (length charset) ∷ h)

module _ (env : Env) (draws : Draws env) where
  random_char-total :
      (h : History)
      → (c : Char) × (random_char env h ≡ ok c (rand (length charset) ∷ h)) × Member c charset
  unfolding random_char charset perform lift pure catch
  random_char-total h =
      let (k, answer, small) = draws h 76 in
      let (c, at, inside) = get_elem?-Member charset k small in (c, rw (answer, at), inside)

  random_chars-total :
      (n : ℕ) (h : History)
      → (cs : List Char) × (random_chars env n h ≡ ok cs (drawn n h))
        × (length cs ≡ n)
        × All (λ c. Member c charset) cs
  unfolding random_chars pure
  random_chars-total zero h = ([], refl, refl, tt)
  random_chars-total (suc n) h =
      let (c, one, inside) = random_char-total h in
      let (cs, more, number, all) = random_chars-total n (rand (length charset) ∷ h) in
      (c ∷ cs, >>=-of_ok _ _ one ∙ >>=-of_ok _ _ more, ap suc number, (inside, all))

-- The names never fail: where the source of randomness answers in range, `RandomString` returns a
-- text of five characters more than it is asked for, or the empty one where it is asked for none,
-- all of the character set, and draws once for each character.
pub random_string-length :
    (env : Env) (n : ℕ) (h : History)
    → Draws env
    → (s : String) × (random_string env n h ≡ ok s (drawn (returned n) h))
      × (length (chars s) ≡ returned n)
      × All (λ c. Member c charset) (chars s)
unfolding random_string pure
random_string-length env zero h draws = ("", refl, refl, tt)
random_string-length env (suc n) h draws =
    let (cs, run, number, all) = random_chars-total env draws (suc n + 5) h in
    (text cs, >>=-of_ok _ _ run, rw (chars-text cs) number, rw (chars-text cs) all)
