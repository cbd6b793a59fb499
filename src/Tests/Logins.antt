-- ===== src/Tests/Logins.antt =====
-- A login in a world that stores what is written to a token's status.
use kt_cloud_operator.Common.{ap, sym, ◌≡◌, refl, false, ◌∷◌, [], if◌then◌else◌}
use kt_cloud_operator.Api.{NamespacedName, KtMachine, KtSubjectToken}
use kt_cloud_operator.Controller.Lookup.{get_subject_token}
use kt_cloud_operator.Controller.Lookup.Logins.{
  is_read, disturbs, KeepsTokens, returned, get_subject_token-login_free,
}
use kt_cloud_operator.Httpapi.Login.{kt_cloud_login}
use kt_cloud_operator.Runtime.Calls.{
  Object, Call, Response, History, http, get, list, create, update, update_status, delete, rand,
  now, sleep,
}
use kt_cloud_operator.Runtime.Env.{Env, value}
use kt_cloud_operator.Runtime.Effects.{history}
use kt_cloud_operator.Tests.World.{world, success, the_token, the_cluster, new_machine_named}

-- What was last written to the status of the token with the key.
unfoldable renewed : NamespacedName → History → KtSubjectToken
renewed key [] = the_token
renewed key (update_status (Object.token t) ∷ h) =
    let rest = renewed key h in if is_read key (Object.token t) then t else rest
renewed key (_ ∷ h) = renewed key h

abbrev under : NamespacedName → KtSubjectToken → KtSubjectToken
under key t = record t { meta = record t.meta { name = key.name; namespace = key.namespace } }

abbrev new_token : Response
new_token = record success { headers = ("X-Subject-Token", "renewed" ∷ []) ∷ [] }

abbrev renewing_world : Env
renewing_world = record world {
  do_request = λ _ r. value new_token;
  get_token = λ h key. value (under key (renewed key h));
}

renewed-others :
    (key : NamespacedName) (c : Call) (h : History)
    → disturbs key c ≡ false
    → renewed key (c ∷ h) ≡ renewed key h
unfolding renewed
renewed-others key (http r) h e = refl
renewed-others key (get k n) h e = refl
renewed-others key (list k n) h e = refl
renewed-others key (create o) h e = refl
renewed-others key (update o) h e = refl
renewed-others key (update_status (Object.token t)) h e = rw e refl
renewed-others key (update_status (Object.machine _)) h e = refl
renewed-others key (update_status (Object.template _)) h e = refl
renewed-others key (update_status (Object.deployment _)) h e = refl
renewed-others key (update_status (Object.kt_cluster _)) h e = refl
renewed-others key (update_status (Object.cluster _)) h e = refl
renewed-others key (update_status (Object.firewall _)) h e = refl
renewed-others key (update_status (Object.secret _)) h e = refl
renewed-others key (delete o) h e = refl
renewed-others key (rand n) h e = refl
renewed-others key now h e = refl
renewed-others key (sleep n) h e = refl

its_tokens : KeepsTokens renewing_world
its_tokens = record {
  by_key = λ h key t e.
      let same : under key (renewed key h) ≡ t = cc in
      (ap (λ x. x.meta.name) (sym same), ap (λ x. x.meta.namespace) (sym same));
  token_stays = λ key c h e. ap (λ t. value (under key t)) (renewed-others key c h e);
  cluster_stays = λ key cluster c h e. refl;
}

abbrev a_machine : KtMachine
a_machine = new_machine_named "kt-cluster1-md-0-x"

get_subject_token-login_free_example :
    returned
      (get_subject_token renewing_world a_machine (history (kt_cloud_login renewing_world [])))
    ≡ returned (get_subject_token renewing_world a_machine [])
get_subject_token-login_free_example =
    get_subject_token-login_free renewing_world its_tokens a_machine the_cluster [] refl refl
