-- ===== src/Httpapi/Send/Answers.antt =====
-- What a request that was answered has done.
use kt_cloud_operator.Common.{
  String, ◌≡◌, ◌∙◌, sym, ◌==◌, Bool-cases, inl, inr, Option, none, some, ◌∷◌,
}
use kt_cloud_operator.Httpapi.Send.{
  return_error, get_rest_config, get_client, client_or_fatal, send, read_all, client_or_panic,
}
use kt_cloud_operator.Runtime.Calls.{Error, Request, Response, History, http}
use kt_cloud_operator.Runtime.Env.{Env, value}
use kt_cloud_operator.Runtime.Effects.{ok, throw, panics, fatal, gets, ◌>>=◌}
use kt_cloud_operator.Runtime.Steps.{>>=-eq_ok, catch-eq_ok, pure-eq_ok, perform-eq_ok, check-eq_ok}

pub send-eq_ok :
    (env : Env) (r : Request) (h : History) {answer : Response} {h' : History}
    → send env r.method r.url r.headers r.body h ≡ ok answer h'
    → (env.do_request h r ≡ value answer) × (h' ≡ http r ∷ h)
unfolding send
send-eq_ok env r h e =
    let (_, h₁, fine, e₁) = >>=-eq_ok {A = Unit {0}} _ _ h e in
    let (_, same) = check-eq_ok _ h fine in
    perform-eq_ok (http r) (λ k. env.do_request k r) h (rw same at e₁)

return_error-eq_ok :
    (x : Option Error) (h : History) {h' : History} → return_error x h ≡ ok tt h' → h' ≡ h
unfolding throw
return_error-eq_ok none h e = (pure-eq_ok tt h e).1
return_error-eq_ok (some x) h e = cc

pub read_all-eq_ok :
    (r : Response) (h : History) {body : String} {h' : History}
    → read_all r h ≡ ok body h'
    → (body ≡ r.body) × (h' ≡ h)
unfolding read_all
read_all-eq_ok r h e =
    let (_, h₁, whole, e₁) = >>=-eq_ok {A = Unit {0}} _ _ h e in
    let (same, calls) = pure-eq_ok r.body h₁ e₁ in
    (sym same, calls ∙ return_error-eq_ok r.read_error h whole)

gets_same :
    {A : Type 0} (f : History → A) (h : History) {a : A} {h' : History}
    → gets f h ≡ ok a h'
    → h' ≡ h
unfolding gets
gets_same f h e = cc

returned-eq_ok :
    (f : History → Option Error) (h : History) {h' : History}
    → (gets f >>= return_error) h ≡ ok tt h'
    → h' ≡ h
returned-eq_ok f h e =
    let (x, h₁, got, e₁) = >>=-eq_ok {A = Option Error} _ _ h e in
    return_error-eq_ok x h₁ e₁ ∙ gets_same f h got

-- The client is made without a call.
get_rest_config-eq_ok :
    (env : Env) (path : String) (h : History) {h' : History}
    → get_rest_config env path h ≡ ok tt h'
    → h' ≡ h
unfolding get_rest_config
get_rest_config-eq_ok env path h e = elim (Bool-cases (path == "")) [
  | inl at_empty ↦ returned-eq_ok env.get_config h (rw at_empty at e)
  | inr not_empty ↦ returned-eq_ok (λ k. env.build_config_from_flags k path) h (rw not_empty at e)
]

get_client-eq_ok : (env : Env) (h : History) {h' : History} → get_client env h ≡ ok tt h' → h' ≡ h
unfolding get_client
get_client-eq_ok env h e =
    let (x, h₁, got, e₁) = >>=-eq_ok {A = Option Error} _ _ h e in
    let (_, h₂, fine, e₂) = >>=-eq_ok {A = Unit {0}} _ _ h₁ e₁ in
    returned-eq_ok env.client_new h₂ e₂ ∙ return_error-eq_ok _ h₁ fine ∙ gets_same _ h got

client_or_fatal-eq_ok :
    (env : Env) (h : History) {h' : History} → client_or_fatal env h ≡ ok tt h' → h' ≡ h
unfolding client_or_fatal fatal
client_or_fatal-eq_ok env h e = elim (catch-eq_ok {A = Unit {0}} _ _ _ h e) [
  | inl (x, h₁, made, e₁) ↦ let (_, same) = pure-eq_ok x h₁ e₁ in same ∙ get_client-eq_ok env h made
  | inr (_, _, _, e₁) ↦ cc
]

pub client_or_panic-eq_ok :
    (env : Env) (h : History) {h' : History} → client_or_panic env h ≡ ok tt h' → h' ≡ h
unfolding client_or_panic panics
client_or_panic-eq_ok env h e = elim (catch-eq_ok {A = Unit {0}} _ _ _ h e) [
  | inl (_, h₁, fine, e₁) ↦
      client_or_fatal-eq_ok env h₁ e₁ ∙ get_rest_config-eq_ok env env.config.kubeconfig h fine
  | inr (_, _, _, e₁) ↦ cc
]
