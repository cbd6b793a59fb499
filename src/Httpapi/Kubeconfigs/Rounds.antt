-- ===== src/Httpapi/Kubeconfigs/Rounds.antt =====
-- The loop that waits for the control plane's kubeconfig.
use kt_cloud_operator.Common.{
  ℕ, zero, suc, ◌+◌, String, ◌<>◌, ◌≡◌, refl, Option, ◌⊎◌, inl, inr, List, ap, ◌∙◌, true, false,
  ◌∷◌, none, some, is_2xx, arith,
}
use kt_cloud_operator.Api.{KtMachine, KtCluster, AssignedPublicIps}
use kt_cloud_operator.Httpapi.Send.{read_all}
use kt_cloud_operator.Runtime.Steps.{>>=-of_ok, >>=-of_err}
use kt_cloud_operator.Httpapi.Kubeconfigs.{
  Fetched, nothing_fetched, kubeconfig_request, fetch_kubeconfig, fetched_data, max_rounds, wrap,
  kubeconfig_url, fetch_and_create_kubeconfig_secret,
}
use kt_cloud_operator.Runtime.Calls.{Error, Call, Method, Response, History, http}
use kt_cloud_operator.Runtime.Env.{Env, value, failure}
use kt_cloud_operator.Runtime.Effects.{ok, err, catch, throw, first, pure, ◌>>=◌}

-- A round without a kubeconfig: the request fails, it is answered with a status outside 200 to 299,
-- or it is answered with one of these and a body that cannot be read.
pub data BadRound (env : Env) (url : String) (h : History) : Type 0 where
  no_answer :
      (e : Error) → env.do_request h (kubeconfig_request env url) ≡ failure e → BadRound env url h
  bad_status :
      (r : Response)
      → env.do_request h (kubeconfig_request env url) ≡ value r
      → is_2xx r.status_code ≡ false
      → BadRound env url h
  cut_off :
      (r : Response) (e : Error)
      → env.do_request h (kubeconfig_request env url) ≡ value r
      → is_2xx r.status_code ≡ true
      → r.read_error ≡ some e
      → BadRound env url h

-- The error of the last body that could not be read.
abbrev pub read_error_of :
    {env : Env} {url : String} {h : History} → BadRound env url h → Option Error → Option Error
read_error_of (no_answer e failed) last = last
read_error_of (bad_status r answered bad) last = last
read_error_of (cut_off r e answered good cut) last = some e

-- The calls of a number of such rounds: a request and five seconds of sleep each.
unfoldable pub after_rounds : Env → ℕ → String → History → History
after_rounds env zero url h = h
after_rounds env (suc k) url h =
    after_rounds env k url (Call.sleep 5 ∷ http (kubeconfig_request env url) ∷ h)

pub data BadRounds (env : Env) (url : String) : ℕ → History → Type 0 where
  no_round : {h : History} → BadRounds env url zero h
  bad_round :
      {k : ℕ} {h : History}
      → BadRound env url h
      → BadRounds env url k (Call.sleep 5 ∷ http (kubeconfig_request env url) ∷ h)
      → BadRounds env url (suc k) h

abbrev pub last_read_error :
    {env : Env} {url : String} {k : ℕ} {h : History}
    → BadRounds env url k h
    → Option Error
    → Option Error
last_read_error no_round last = last
last_read_error (bad_round bad rest) last = last_read_error rest (read_error_of bad last)

-- What the loop has in hand is no kubeconfig: there is nothing, or what there is was cut off.
abbrev IsNone : Fetched → Type 0
IsNone f = (f.contents ≡ none) ⊎ ((e : Error) × (f.fetch_err ≡ some e))

fetch-BadRound :
    (env : Env) (url : String) (left : ℕ) (f : Fetched) (h : History)
    → env.new_request Method.get url ≡ none
    → IsNone f
    → (bad : BadRound env url h)
    → (g : Fetched) × (fetch_kubeconfig env (suc left) url f h
        ≡ fetch_kubeconfig env left url g (Call.sleep 5 ∷ http (kubeconfig_request env url) ∷ h))
      × (g.fetch_err ≡ read_error_of bad f.fetch_err)
      × IsNone g
unfolding fetch_kubeconfig read_all catch ◌>>=◌
fetch-BadRound env url left f h fine missing (no_answer e failed) =
    (f, rw (fine, failed), refl, missing)
fetch-BadRound env url left f h fine missing (bad_status r answered bad) =
    (f, rw (fine, answered, bad), refl, missing)
fetch-BadRound env url left f h fine missing (cut_off r e answered good cut) = (
  record { contents = some r.body; fetch_err = some e },
  rw (fine, answered, good, cut),
  refl,
  inr (e, refl),
)

fetch-BadRounds :
    (env : Env) (url : String) (left : ℕ) (f : Fetched) {k : ℕ} {h : History}
    → env.new_request Method.get url ≡ none
    → IsNone f
    → (bad : BadRounds env url k h)
    → (g : Fetched) × (fetch_kubeconfig env (k + left) url f h
        ≡ fetch_kubeconfig env left url g (after_rounds env k url h))
      × (g.fetch_err ≡ last_read_error bad f.fetch_err)
      × IsNone g
unfolding after_rounds
fetch-BadRounds env url left f {h} fine missing no_round =
    (f, ap (λ n. fetch_kubeconfig env n url f h) (omega arith), refl, missing)
fetch-BadRounds env url left f {h} fine missing (bad_round {k} bad rest) =
    let (g, one, error, missing₁) = fetch-BadRound env url (k + left) f h fine missing bad in
    let (g', more, error', missing') = fetch-BadRounds env url left g fine missing₁ rest in
    (
      g',
      ap (λ n. fetch_kubeconfig env n url f h) (omega arith) ∙ (one ∙ more),
      error' ∙ ap (last_read_error rest) error,
      missing',
    )

-- The loop returns the first kubeconfig that it gets: where the first `k` rounds give none, each of
-- them being without an answer, with a status outside 200 to 299, or with a body that cannot be
-- read, and the next request is answered with a status of 200 to 299 and a body that can be read,
-- within the rounds that the loop has, that body is returned, and the calls are those of `k`
-- rounds, with a sleep each, and the request.
pub fetch_kubeconfig-first_answer :
    (env : Env) (url : String) (k left : ℕ) (r : Response) (h : History)
    → env.new_request Method.get url ≡ none
    → BadRounds env url k h
    → env.do_request (after_rounds env k url h) (kubeconfig_request env url) ≡ value r
    → is_2xx r.status_code ≡ true
    → r.read_error ≡ none
    → fetch_kubeconfig env (k + suc left) url nothing_fetched h
      ≡ ok
          (record { contents = some r.body; fetch_err = none })
          (http (kubeconfig_request env url) ∷ after_rounds env k url h)
unfolding fetch_kubeconfig read_all catch ◌>>=◌
fetch_kubeconfig-first_answer env url k left r h fine bad answered good whole =
    let (g, run, _, _) = fetch-BadRounds env url (suc left) nothing_fetched fine (inl refl) bad in
    run ∙ rw (fine, answered, good, whole)

fetched_data-none :
    (x : Error) (contents : Option String) (fetch_err : Option Error) (h : History)
    → (contents ≡ none) ⊎ ((e : Error) × (fetch_err ≡ some e))
    → fetched_data x contents fetch_err h ≡ err x h
unfolding fetched_data throw
fetched_data-none x none fetch_err h missing = refl
fetched_data-none x (some text) none h (inl nothing) = cc
fetched_data-none x (some text) none h (inr (e, failed)) = cc
fetched_data-none x (some text) (some e) h missing = refl

fetch-none_left :
    (env : Env) (url : String) (f : Fetched) (h : History)
    → fetch_kubeconfig env zero url f h ≡ ok f h
unfolding fetch_kubeconfig pure
fetch-none_left env url f h = refl

first-of_cons :
    {A : Type 0} (x : A) (xs xs' : List A) (h : History) → xs' ≡ x ∷ xs → first xs' h ≡ ok x h
unfolding first
first-of_cons x xs xs' h e = rw e

-- Where none of the 24 rounds gives a kubeconfig, each of them being without an answer, with a
-- status outside 200 to 299, or with a body that cannot be read, `FetchAndCreateKubeconfigSecret`
-- ends after 24 requests and 24 sleeps, with no other call, and returns its error, which names the
-- URL of the machine's first address and the error of the last body that could not be read.
pub fetch_and_create-gives_up :
    (env : Env) (m : KtMachine) (c : KtCluster) (ip : AssignedPublicIps)
    (ips : List AssignedPublicIps) (h : History)
    → m.status.assigned_public_ips ≡ ip ∷ ips
    → env.new_request Method.get (kubeconfig_url ip.ip) ≡ none
    → (bad : BadRounds env (kubeconfig_url ip.ip) (max_rounds env) h)
    → fetch_and_create_kubeconfig_secret env m c h
      ≡ err
          (wrap
            ("failed to fetch kubeconfig from " <> (kubeconfig_url ip.ip <> ": "))
            (last_read_error bad none))
          (after_rounds env 24 (kubeconfig_url ip.ip) h)
unfolding fetch_and_create_kubeconfig_secret
fetch_and_create-gives_up env m c ip ips h has fine bad =
    let url = kubeconfig_url ip.ip in
    let (g, run, error, missing) =
      fetch-BadRounds env url zero nothing_fetched fine (inl refl) bad in
    >>=-of_ok (first m.status.assigned_public_ips) _ (first-of_cons ip ips _ h has)
    ∙ (>>=-of_ok (fetch_kubeconfig env (max_rounds env) url nothing_fetched) _
          (run ∙ fetch-none_left env url g (after_rounds env 24 url h))
        ∙ (>>=-of_err _ _ (fetched_data-none _ g.contents g.fetch_err _ missing)
            ∙ ap
                (λ e.
                  err (wrap ("failed to fetch kubeconfig from " <> (url <> ": ")) e)
                    (after_rounds env 24 url h))
                error))
