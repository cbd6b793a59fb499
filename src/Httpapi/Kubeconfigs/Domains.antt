-- ===== src/Httpapi/Kubeconfigs/Domains.antt =====
-- The servers' addresses in the kubeconfig that becomes a secret.
use Prim.Native.Char.{code}
use text.Mathlib.TextLemmas.{nil-append, cons-append}
use kt_cloud_operator.Common.{
  String, ◌<>◌, ◌≡◌, ◌∙◌, refl, ap, false, nat_eq, List, [], ◌∷◌, none, some,
}
use kt_cloud_operator.Api.{KtMachine, KtCluster, AssignedPublicIps}
use kt_cloud_operator.Httpapi.Kubeconfigs.{
  kubeconfig_url, nothing_fetched, fetch_kubeconfig, fetched_data, max_rounds, secret_name,
  secret_namespace, kubeconfig_secret, value_of, up_to_colon, port_of, change_servers,
  change_kubeconfig_domain, fetch_and_create_kubeconfig_secret,
}
use kt_cloud_operator.Runtime.Calls.{Error, Secret, Object, Kind, Call, History, create}
use kt_cloud_operator.Runtime.Env.{Env, value, failure}
use kt_cloud_operator.Runtime.Effects.{ok, pure, lift, catch, first, ◌>>=◌}

-- Does a text have no colon?
abbrev pub NoColon : String → Type 0
NoColon String.[] = Unit
NoColon (String.◌∷◌ c s) = (nat_eq (code c) b':' ≡ false) × NoColon s

up_to_colon-same : (s : String) → NoColon s → up_to_colon s ≡ s
unfolding up_to_colon
up_to_colon-same String.[] plain = refl
up_to_colon-same (String.◌∷◌ c s) plain =
    rw plain.0 (ap (λ t. String.◌∷◌ c t) (up_to_colon-same s plain.1))

-- `name:port`
abbrev pub host_of : String → String → String
host_of name port = name <> ":" <> port

port_of-colon : (port : String) (h : History) → NoColon port → port_of (":" <> port) h ≡ ok port h
unfolding port_of pure
port_of-colon port h plain =
    ap (λ t. port_of t h)
      (cons-append ":" String.[] port ∙ ap (λ t. String.◌∷◌ ":" t) (nil-append port))
    ∙ ap (λ t. ok t h) (up_to_colon-same port plain)

port_of-host_of :
    (name port : String) (h : History)
    → NoColon name
    → NoColon port
    → port_of (host_of name port) h ≡ ok port h
unfolding port_of
port_of-host_of String.[] port h n p =
    ap (λ t. port_of t h) (nil-append (":" <> port)) ∙ port_of-colon port h p
port_of-host_of (String.◌∷◌ c s) port h n p =
    ap (λ t. port_of t h) (cons-append c s (":" <> port)) ∙ rw n.0 (port_of-host_of s port h n.1 p)

-- Each cluster keeps its name, and its server's URL, whose host is a name and a port without a
-- further colon, differs in the host's name alone: it is the new domain.
pub data Rewritten (env : Env) (domain : String)
    : List (String × String) → List (String × String) → Type 0 where
  end : Rewritten env domain [] []
  next :
      {cluster server : String} {rest rest' : List (String × String)}
      (scheme path name port : String)
      → env.parse_url server
        ≡ value (record { scheme = scheme; host = host_of name port; path = path })
      → NoColon name
      → NoColon port
      → Rewritten env domain rest rest'
      → Rewritten env domain ((cluster, server) ∷ rest) (
          (
            cluster,
            env.url_string (record { scheme = scheme; host = host_of domain port; path = path }),
          )
          ∷ rest')

-- The servers of a kubeconfig are moved to the new domain, and every port is kept: where each
-- cluster's URL parses and its host is a name, a colon and a port, the loop over the clusters
-- succeeds without a call and returns each cluster with its host's name replaced.
pub change_servers-rewrites :
    (env : Env) (domain : String) (servers changed : List (String × String)) (h : History)
    → Rewritten env domain servers changed
    → change_servers env domain servers h ≡ ok changed h
unfolding change_servers catch pure lift ◌>>=◌
change_servers-rewrites env domain [] [] h end = refl
change_servers-rewrites env domain _ _ h (next scheme path name port parsed n p rest) =
    rw (parsed, port_of-host_of name port h n p, change_servers-rewrites env domain _ _ h rest)

-- The domain of a plain kubeconfig is never changed: where the loop has fetched the kubeconfig, the
-- secret is created, and what the API server hands back in it is not base64, the whole function
-- succeeds, and its last call is the read of the secret: the secret keeps the servers' addresses as
-- they were fetched.
pub fetch_and_create-domain_unchanged :
    (env : Env) (m : KtMachine) (c : KtCluster) (ip : AssignedPublicIps)
    (ips : List AssignedPublicIps) (contents : String) (stored : Secret) (e : Error) (h : History)
    {h₁ : History}
    → m.status.assigned_public_ips ≡ ip ∷ ips
    → fetch_kubeconfig env (max_rounds env) (kubeconfig_url ip.ip) nothing_fetched h
      ≡ ok (record { contents = some contents; fetch_err = none }) h₁
    → env.create h₁ (Object.secret (kubeconfig_secret c contents)) ≡ none
    → env.get_secret
        (create (Object.secret (kubeconfig_secret c contents)) ∷ h₁)
        (record { name = secret_name c; namespace = secret_namespace })
      ≡ value stored
    → env.base64_decode (value_of stored.values) ≡ failure e
    → fetch_and_create_kubeconfig_secret env m c h
      ≡ ok tt (
          Call.get Kind.secret (record { name = secret_name c; namespace = secret_namespace })
          ∷ create (Object.secret (kubeconfig_secret c contents))
          ∷ h₁)
unfolding fetch_and_create_kubeconfig_secret change_kubeconfig_domain fetched_data first catch ◌>>=◌
fetch_and_create-domain_unchanged env m c ip ips contents stored e h has fetched created read
      plain =
    rw (has, fetched, created, read, plain)
