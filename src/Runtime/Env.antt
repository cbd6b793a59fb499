-- ===== src/Runtime/Env.antt =====
-- The world that answers the calls. Every answer may depend on all the calls before it, so a value
-- of `Env` is one behaviour of KT Cloud, the API server, the network and the Go runtime.
use kt_cloud_operator.Common.{ℕ, ℤ, String, List, Option}
use kt_cloud_operator.Api.{
  ObjectMeta, NamespacedName, KtMachine, KtMachineTemplate, MachineDeployment, KtCluster, Cluster,
  KtNetworkFirewall, KtSubjectToken, Addresses,
}
use kt_cloud_operator.Httpapi.Types.{
  Config, ServerResponse, NcListentPublicIpsResponse, NatAttachResponse, ListNetworksResponse,
  NcCreateFirewallRuleResponse, QueryAsyncJobResultResponse, LoginToken,
}
use kt_cloud_operator.Runtime.Calls.{Error, Method, Request, Response, Secret, Object, History}

-- A pair of a value and an `error`, of which the code reads one.
pub data Result (A : Type 0) : Type 0 where
  value : A → Result A
  failure : Error → Result A

-- `clientcmdapi.Config`: each cluster's name with its server's URL, and all else as one text.
pub record Kubeconfig : Type 0 where
  pub clusters : List (String × String)
  pub others : String

-- `url.URL`, of which the code changes the host.
pub record Url : Type 0 where
  pub scheme : String
  pub host : String
  pub path : String

pub record Env : Type 0 where
  -- `ProcessEnvVariables`
  pub config : Config
  -- net/http: `http.NewRequest`, which refuses a URL that it cannot parse, and `Client.Do`
  pub new_request : Method → String → Option Error
  pub do_request : History → Request → Result Response
  -- encoding/json and encoding/base64
  pub unmarshal_server : String → Result ServerResponse
  pub unmarshal_public_ips : String → Result NcListentPublicIpsResponse
  pub unmarshal_nat : String → Result NatAttachResponse
  pub unmarshal_networks : String → Result ListNetworksResponse
  pub unmarshal_firewall : String → Result NcCreateFirewallRuleResponse
  pub unmarshal_job : String → Result QueryAsyncJobResultResponse
  pub unmarshal_token : String → Result (Option LoginToken)
  pub base64_encode : String → String
  pub base64_decode : String → Result String
  -- gopkg.in/yaml.v2 on a kubeconfig, and net/url
  pub unmarshal_kubeconfig : String → Result Kubeconfig
  pub marshal_kubeconfig : Kubeconfig → Result String
  pub parse_url : String → Result Url
  pub url_string : Url → String
  -- client-go's `BuildConfigFromFlags("", path)`, controller-runtime's `GetConfig`, the scheme's
  -- `AddToScheme`, and `client.New`
  pub build_config_from_flags : History → String → Option Error
  pub get_config : History → Option Error
  pub add_to_scheme : History → Option Error
  pub client_new : History → Option Error
  -- `client.Client`
  pub get_machine : History → NamespacedName → Result KtMachine
  pub get_template : History → NamespacedName → Result KtMachineTemplate
  pub get_deployment : History → NamespacedName → Result MachineDeployment
  pub get_kt_cluster : History → NamespacedName → Result KtCluster
  pub get_cluster : History → NamespacedName → Result Cluster
  pub get_token : History → NamespacedName → Result KtSubjectToken
  pub get_firewall : History → NamespacedName → Result KtNetworkFirewall
  pub get_secret : History → NamespacedName → Result Secret
  pub list_machines : History → String → Result (List KtMachine)
  pub create : History → Object → Option Error
  pub update : History → Object → Option Error
  -- The client decodes the stored machine into the object that it was given.
  pub update_machine_status : History → KtMachine → Result KtMachine
  pub update_status : History → Object → Option Error
  pub delete : History → Object → Option Error
  -- `controllerutil.SetControllerReference`: the controlled object's metadata with the owner added
  pub set_controller_reference : Object → ObjectMeta → Result ObjectMeta
  -- crypto/rand's `Int`, `time.Now`, and the order in which `range` visits a map
  pub rand_int : History → ℕ → Result ℕ
  pub now : History → String
  pub range_addresses : History → Addresses → Addresses
  pub range_clusters : History → List (String × String) → List (String × String)
  -- `strings.ToLower`, and `%d` of fmt
  pub to_lower : String → String
  pub format_int : ℤ → String
