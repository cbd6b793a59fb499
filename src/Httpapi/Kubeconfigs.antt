-- ===== src/Httpapi/Kubeconfigs.antt =====
-- cmd/httpapi/helpers.go: the control plane's kubeconfig becomes a secret.
pub mod Rounds
pub mod Domains
pub mod Stored
use Prim.Native.Char.{code}
use kt_cloud_operator.Common.{
  ℕ, zero, suc, String, ◌<>◌, nat_eq, List, [], ◌∷◌, Option, none, some, if◌then◌else◌, ◌==◌,
  is_2xx,
}
use kt_cloud_operator.Api.{NamespacedName, KtMachine, KtCluster}
use kt_cloud_operator.Httpapi.Send.{plain_headers, read_all}
use kt_cloud_operator.Runtime.Calls.{
  Error, Method, Body, Request, Secret, Object, Kind, Call, errors_new,
}
use kt_cloud_operator.Runtime.Env.{Env, Url}
use kt_cloud_operator.Runtime.Effects.{
  M, pure, throw, panics, lift, gets, check, first, perform, perform_check, catch, ◌>>=◌, ◌>>◌,
}

abbrev pub secret_namespace : String
secret_namespace = "kt-cloud-operator-system"

abbrev pub kubeconfig_url : String → String
kubeconfig_url ip = "http://" <> ip <> ":8000/admin.conf"

-- What the loop has read last: `kubeconfigData` and `fetchErr`.
pub record Fetched : Type 0 where
  pub contents : Option String
  pub fetch_err : Option Error

abbrev pub nothing_fetched : Fetched
nothing_fetched = record { contents = none; fetch_err = none }

-- `fmt.Errorf` with `%w` of an error that may be nil.
abbrev pub wrap : String → Option Error → Error
wrap text (some e) = record { text = text <> e.text; not_found = e.not_found }
wrap text none = errors_new (text <> "%!w(<nil>)")

abbrev pub fetch_failed : String → Fetched → Error
fetch_failed url f = wrap ("failed to fetch kubeconfig from " <> (url <> ": ")) f.fetch_err

-- The test after the loop.
unfoldable pub fetched_data : Error → Option String → Option Error → M String
fetched_data e none fetch_err = throw e
fetched_data e (some text) none = pure text
fetched_data e (some text) (some _) = throw e

abbrev pub secret_name : KtCluster → String
secret_name cluster = cluster.meta.name <> "-kubeconfig"

unfoldable pub kubeconfig_secret : KtCluster → String → Secret
kubeconfig_secret cluster text = record {
  meta = record {
    name = secret_name cluster;
    namespace = secret_namespace;
    uid = "";
    resource_version = "";
    labels = ("cluster.x-k8s.io/cluster-name", cluster.meta.name) ∷ [];
    annotations =
        (
          "internal.kpt.dev/upstream-identifier",
          "|Secret|kt-cloud-operator-system|" <> secret_name cluster,
        )
        ∷ ("nephio.org/cluster-name", cluster.meta.name)
        ∷ [];
    owner_references = [];
  };
  type = "Opaque";
  values = ("value", text) ∷ [];
}

-- `secret.Data["value"]`: the empty text where the key is missing.
unfoldable pub value_of : List (String × String) → String
value_of [] = ""
value_of ((k, v) ∷ rest) = let later = value_of rest in if k == "value" then v else later

-- `secret.Data["value"] = updatedData`
unfoldable pub put_value : String → List (String × String) → List (String × String)
put_value text [] = ("value", text) ∷ []
put_value text ((k, v) ∷ rest) =
    let later = (k, v) ∷ put_value text rest in
    if k == "value" then ("value", text) ∷ rest else later

-- The map of a secret without data is nil, which cannot be assigned to.
unfoldable pub set_value : String → List (String × String) → M (List (String × String))
set_value text [] = panics "assignment to entry in nil map"
set_value text (entry ∷ values) = pure (put_value text (entry ∷ values))

-- `strings.Split(host, ":")[1]`, from the text behind the first colon on.
unfoldable pub up_to_colon : String → String
up_to_colon String.[] = ""
up_to_colon (String.◌∷◌ c s) =
    let rest = String.◌∷◌ c (up_to_colon s) in if nat_eq (code c) b':' then "" else rest

unfoldable pub port_of : String → M String
port_of String.[] = panics "index out of range"
port_of (String.◌∷◌ c s) =
    let rest = port_of s in if nat_eq (code c) b':' then pure (up_to_colon s) else rest

-- `if err != nil { return fmt.Errorf("... %v", err) }`
abbrev pub wrapped : {A : Type 0} → String → M A → M A
wrapped text m = catch m pure (λ e. throw (errors_new (text <> e.text)))

module _ (env : Env) where
  -- The loop of `changeKubeconfigDomain` over the clusters.
  unfoldable pub change_servers : String → List (String × String) → M (List (String × String))
  change_servers domain [] = pure []
  change_servers domain ((name, server) ∷ rest) = do
    u ← wrapped ("invalid server URL in cluster " <> name <> ": ") (lift (env.parse_url server))
    port ← port_of u.host
    let v : Url = record u { host = domain <> ":" <> port }
    changed ← change_servers domain rest
    pure ((name, env.url_string v) ∷ changed)

  unfoldable pub change_kubeconfig_domain : String → String → String → M (Unit {0})
  change_kubeconfig_domain name namespace domain = do
    let key : NamespacedName = record { name = name; namespace = namespace }
    secret ←
        wrapped "failed to get secret: "
          (perform (Call.get Kind.secret key) (λ h. env.get_secret h key))
    raw ←
        wrapped "failed to decode kubeconfig: " (lift (env.base64_decode (value_of secret.values)))
    kubeconfig ← wrapped "failed to unmarshal kubeconfig: " (lift (env.unmarshal_kubeconfig raw))
    clusters ← gets (λ h. env.range_clusters h kubeconfig.clusters)
    changed ← change_servers domain clusters
    updated ←
        wrapped "failed to marshal updated kubeconfig: "
          (lift (env.marshal_kubeconfig (record kubeconfig { clusters = changed })))
    values ← set_value updated secret.values
    let s : Secret = record secret { values = values }
    wrapped "failed to update secret: "
        (perform_check (Call.update (Object.secret s)) (λ h. env.update h (Object.secret s)))

  abbrev pub kubeconfig_request : String → Request
  kubeconfig_request url = record {
    method = Method.get;
    url = url;
    headers = plain_headers;
    body = Body.empty;
  }

  -- `time.Sleep(5 * time.Second)`
  abbrev pub sleep_5 : M (Unit {0})
  sleep_5 = perform_check (Call.sleep 5) (λ _. none)

  -- The loop of `FetchAndCreateKubeconfigSecret`, with the rounds that are left.
  unfoldable pub fetch_kubeconfig : ℕ → String → Fetched → M Fetched
  fetch_kubeconfig zero url f = pure f
  fetch_kubeconfig (suc rounds) url f = do
    check (env.new_request Method.get url)
    catch
        (perform (Call.http (kubeconfig_request url))
          (λ h. env.do_request h (kubeconfig_request url)))
        (λ response.
          if is_2xx response.status_code
          then catch (read_all response)
              (λ text. pure (record { contents = some text; fetch_err = none }))
              (λ e. do
                sleep_5
                fetch_kubeconfig rounds url
                    (record { contents = some response.body; fetch_err = some e }))
          else (do sleep_5; fetch_kubeconfig rounds url f))
        (λ _. do sleep_5; fetch_kubeconfig rounds url f)

  abbrev pub max_rounds : ℕ
  max_rounds = 24

  unfoldable pub fetch_and_create_kubeconfig_secret : KtMachine → KtCluster → M (Unit {0})
  fetch_and_create_kubeconfig_secret machine cluster = do
    ip ← first machine.status.assigned_public_ips
    fetched ← fetch_kubeconfig max_rounds (kubeconfig_url ip.ip) nothing_fetched
    text ←
        fetched_data (fetch_failed (kubeconfig_url ip.ip) fetched) fetched.contents
          fetched.fetch_err
    let s = Object.secret (kubeconfig_secret cluster text)
    catch (perform_check (Call.create s) (λ h. env.create h s))
        (λ _.
          catch (change_kubeconfig_domain (secret_name cluster) secret_namespace ip.ip)
            (λ _. pure tt) (λ _. pure tt))
        (λ e. throw (wrap "failed to create kubeconfig secret: " (some e)))
