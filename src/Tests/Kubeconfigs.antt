-- ===== src/Tests/Kubeconfigs.antt =====
-- The kubeconfig's secret.
use text.Mathlib.TextEquality.{eq_iff}
use mathlib.Core.List.Perm
use kt_cloud_operator.Common.{
  ℕ, zero, suc, ◌+◌, String, ◌<>◌, ◌==◌, ◌≡◌, refl, sym, ap, List, [], ◌∷◌, none, some, Bool-cases,
  inl, inr, if◌then◌else◌,
}
use kt_cloud_operator.Httpapi.Kubeconfigs.Stored.{Moved, change_kubeconfig_domain-Moved}
use kt_cloud_operator.Httpapi.Kubeconfigs.{
  wrap, nothing_fetched, kubeconfig_request, kubeconfig_url, fetch_kubeconfig, change_servers,
  port_of, up_to_colon, value_of, put_value, set_value, change_kubeconfig_domain, secret_name,
  secret_namespace, kubeconfig_secret, fetch_and_create_kubeconfig_secret,
}
use kt_cloud_operator.Httpapi.Kubeconfigs.Rounds.{
  BadRounds, no_round, bad_round, bad_status, cut_off, last_read_error, after_rounds,
  fetch_kubeconfig-first_answer, fetch_and_create-gives_up,
}
use kt_cloud_operator.Httpapi.Kubeconfigs.Domains.{
  end, next, change_servers-rewrites, fetch_and_create-domain_unchanged,
}
use kt_cloud_operator.Httpapi.Send.{read_all}
use kt_cloud_operator.Controller.Infrastructure.{set_bootstrap_ready}
use kt_cloud_operator.Runtime.Calls.{
  Error, Response, Secret, Object, Kind, Call, History, http, create, errors_new,
}
use kt_cloud_operator.Runtime.Env.{Env, Result, Kubeconfig, value, failure}
use kt_cloud_operator.Runtime.Effects.{ok, err, history, ◌>>=◌}
use kt_cloud_operator.Tests.World.{
  world, answering, refused, success, plane, public_ip, the_cluster,
}

-- The first answer is a refusal, the later ones are not.
abbrev slow_world : Env
slow_world = record world {
  do_request = λ h _. elim h [ [] ↦ value refused | _ ∷ _ ↦ value success ];
}

abbrev conf_url : String
conf_url = "http://211.0.0.1:8000/admin.conf"

fetch_kubeconfig-first_answer_example :
    fetch_kubeconfig slow_world (1 + suc 22) conf_url nothing_fetched []
    ≡ ok
        (record { contents = some "{}"; fetch_err = none })
        (http (kubeconfig_request slow_world conf_url) ∷ after_rounds slow_world 1 conf_url [])
unfolding after_rounds
fetch_kubeconfig-first_answer_example =
    fetch_kubeconfig-first_answer slow_world conf_url 1 22 success [] refl
      (bad_round (bad_status refused refl refl) no_round) refl refl refl

abbrev cut_body : Response
cut_body = record success { read_error = some (errors_new "unexpected EOF") }

always_bad : (k : ℕ) (h : History) → BadRounds (answering cut_body) conf_url k h
always_bad zero h = no_round
always_bad (suc k) h =
    bad_round (cut_off cut_body (errors_new "unexpected EOF") refl refl refl) (always_bad k _)

fetch_and_create-gives_up_example :
    fetch_and_create_kubeconfig_secret (answering cut_body) plane the_cluster []
    ≡ err
        (wrap
          ("failed to fetch kubeconfig from " <> (conf_url <> ": "))
          (last_read_error (always_bad 24 []) none))
        (after_rounds (answering cut_body) 24 conf_url [])
unfolding set_bootstrap_ready
fetch_and_create-gives_up_example =
    fetch_and_create-gives_up (answering cut_body) plane the_cluster public_ip [] [] refl refl
      (always_bad 24 [])

abbrev parsing_world : Env
parsing_world = record world {
  parse_url = λ _. value (record { scheme = "https"; host = "10.0.0.1:6443"; path = "" });
}

change_servers-rewrites_example :
    change_servers parsing_world "211.0.0.1" (("k8s", "https://10.0.0.1:6443") ∷ []) []
    ≡ ok (("k8s", "211.0.0.1:6443") ∷ []) []
change_servers-rewrites_example =
    change_servers-rewrites parsing_world "211.0.0.1" (("k8s", "https://10.0.0.1:6443") ∷ [])
      (("k8s", "211.0.0.1:6443") ∷ []) []
      (next "https" "" "10.0.0.1" "6443" refl
        (refl, (refl, (refl, (refl, (refl, (refl, (refl, (refl, tt))))))))
        (refl, (refl, (refl, (refl, tt)))) end)

abbrev not_base64 : Error
not_base64 = errors_new "illegal base64 data at input byte 0"

abbrev plain_secret : Secret
plain_secret = kubeconfig_secret the_cluster "{}"

abbrev plain_world : Env
plain_world = record world {
  get_secret = λ _ _. value plain_secret;
  base64_decode = λ _. failure not_base64;
}

fetch_and_create-domain_unchanged_example :
    fetch_and_create_kubeconfig_secret plain_world plane the_cluster []
    ≡ ok tt (
        Call.get Kind.secret
          (record { name = secret_name the_cluster; namespace = secret_namespace })
        ∷ create (Object.secret plain_secret)
        ∷ history (fetch_kubeconfig plain_world 24 (kubeconfig_url "211.0.0.1") nothing_fetched []))
unfolding fetch_kubeconfig read_all set_bootstrap_ready ◌>>=◌
fetch_and_create-domain_unchanged_example =
    fetch_and_create-domain_unchanged plain_world plane the_cluster public_ip [] "{}" plain_secret
      not_base64 [] refl refl refl refl refl

-- A format for kubeconfigs of one cluster: its server's URL.
abbrev marshal_one : List (String × String) → String → Result String
marshal_one ((name, server) ∷ []) others =
    if name == "kt"
    then (if others == "" then value server else failure (errors_new "others"))
    else failure (errors_new "name")
marshal_one _ others = failure (errors_new "clusters")

abbrev one_cluster : String → Kubeconfig
one_cluster server = record { clusters = ("kt", server) ∷ []; others = "" }

marshal_one-inverse :
    (clusters : List (String × String)) (others text : String)
    → marshal_one clusters others ≡ value text
    → one_cluster text ≡ record { clusters = clusters; others = others }
marshal_one-inverse ((name, server) ∷ []) others text e = elim (Bool-cases (name == "kt")) [
  | inl this ↦ elim (Bool-cases (others == "")) [
    | inl none_else ↦
        let same : server ≡ text = (let f = rw (this, none_else) at e in cc) in
        λ i. record {
          clusters = ((sym ((eq_iff name "kt").0 this)) i, sym same i) ∷ [];
          others = sym ((eq_iff others "").0 none_else) i;
        }
    | inr more ↦ (let f = rw (this, more) at e in cc)
  ]
  | inr another ↦ (let f = rw another at e in cc)
]
marshal_one-inverse [] others text e = cc
marshal_one-inverse (_ ∷ _ ∷ _) others text e = cc

abbrev stored_kubeconfig : Secret
stored_kubeconfig = kubeconfig_secret the_cluster "https://10.0.0.1:6443"

abbrev one_world : Env
one_world = record parsing_world {
  get_secret = λ _ _. value stored_kubeconfig;
  unmarshal_kubeconfig = λ text. value (one_cluster text);
  marshal_kubeconfig = λ k. marshal_one k.clusters k.others;
}

abbrev moved_calls : History
moved_calls = history (change_kubeconfig_domain one_world "s" "n" "211.0.0.1" [])

change_kubeconfig_domain-Moved_example : Moved one_world "s" "n" "211.0.0.1" [] moved_calls
unfolding change_kubeconfig_domain change_servers port_of up_to_colon kubeconfig_secret value_of
    set_value put_value ◌>>=◌
change_kubeconfig_domain-Moved_example =
    change_kubeconfig_domain-Moved one_world "s" "n" "211.0.0.1" [] moved_calls
      (λ k text e. (
        k,
        ap value (marshal_one-inverse k.clusters k.others text e),
        record { clusters = Perm.refl k.clusters; others = refl },
      ))
      refl
