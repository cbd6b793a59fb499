-- ===== src/Controller/RandomNames.antt =====
-- internal/utils/util.go: `RandomString`.
pub mod Draws
use Prim.Native.Char.{Char}
use kt_cloud_operator.Common.{ℕ, zero, suc, ◌+◌, String, Option, none, some, List, [], ◌∷◌}
use kt_cloud_operator.Common.{length, get_elem?}
use kt_cloud_operator.Runtime.Calls.{Call}
use kt_cloud_operator.Runtime.Env.{Env}
use kt_cloud_operator.Runtime.Effects.{M, pure, panics, catch, perform, ◌>>=◌}

-- Every character is one byte, so an index into the text is one into this list.
abbrev pub chars : String → List Char
chars String.[] = []
chars (String.◌∷◌ c s) = c ∷ chars s

abbrev pub text : List Char → String
text [] = ""
text (c ∷ cs) = String.◌∷◌ c (text cs)

unfoldable pub charset : List Char
charset = chars "abcdefghi34567jklmnopqrstuvwxyzABCDE123456790FGHIJKLMNOPQRSTUVWXYZ0123456789-"

abbrev pub or_panic : Option Char → M Char
or_panic none = panics "index out of range"
or_panic (some c) = pure c

module _ (env : Env) where
  -- `charset[randomByte]`; a failing source of randomness panics.
  unfoldable pub random_char : M Char
  random_char =
      catch (perform (Call.rand (length charset)) (λ h. env.rand_int h (length charset)))
        (λ n. or_panic (get_elem? charset n)) (λ e. panics e.text)

  -- The loop over the bytes of `b`.
  unfoldable pub random_chars : ℕ → M (List Char)
  random_chars zero = pure []
  random_chars (suc n) = do c ← random_char; cs ← random_chars n; pure (c ∷ cs)

  unfoldable pub random_string : ℕ → M String
  random_string zero = pure ""
  random_string (suc n) = do cs ← random_chars (suc n + 5); pure (text cs)
