-- ===== src/Runtime/Calls.antt =====
-- The calls that leave the program, as values: what is sent to KT Cloud over HTTP, and what is
-- asked of the Kubernetes API server through the client.
use kt_cloud_operator.Common.{ℕ, String, Bool, false, List, Option}
use kt_cloud_operator.Api.{
  ObjectMeta, NamespacedName, KtMachine, KtMachineTemplate, MachineDeployment, KtCluster, Cluster,
  KtNetworkFirewall, KtSubjectToken,
}
use kt_cloud_operator.Httpapi.Types.{
  RequestPayload, RequestPayloadDelete, PostPayload, FirewallRuleRequest, AuthRequest,
}

-- A Go `error`: its text, and whether `apierrors.IsNotFound` accepts it.
pub record Error : Type 0 where
  pub text : String
  pub not_found : Bool

-- `errors.New(text)`, and `fmt.Errorf` of a text that wraps nothing.
abbrev pub errors_new : String → Error
errors_new text = record { text = text; not_found = false }

pub data Method : Type 0 where
  get post delete : Method

-- A request's body before `json.Marshal`, which does not fail on these structs.
pub data Body : Type 0 where
  empty : Body
  server : RequestPayload → Body
  force_delete : RequestPayloadDelete → Body
  static_nat : PostPayload → Body
  firewall : FirewallRuleRequest → Body
  auth : AuthRequest → Body

pub record Request : Type 0 where
  pub method : Method
  pub url : String
  pub headers : List (String × String)
  pub body : Body

-- `read_error` is what `io.ReadAll` of the body fails with.
pub record Response : Type 0 where
  pub status_code : ℕ
  pub status : String
  pub headers : List (String × List String)
  pub body : String
  pub read_error : Option Error

-- `corev1.Secret`, as far as the code fills it.
pub record Secret : Type 0 where
  pub meta : ObjectMeta
  pub type : String
  pub values : List (String × String)

pub data Object : Type 0 where
  machine : KtMachine → Object
  template : KtMachineTemplate → Object
  deployment : MachineDeployment → Object
  kt_cluster : KtCluster → Object
  cluster : Cluster → Object
  token : KtSubjectToken → Object
  firewall : KtNetworkFirewall → Object
  secret : Secret → Object

pub data Kind : Type 0 where
  machine template deployment kt_cluster cluster token firewall secret : Kind

pub data Call : Type 0 where
  http : Request → Call
  get : Kind → NamespacedName → Call
  list : Kind → String → Call
  create : Object → Call
  update : Object → Call
  update_status : Object → Call
  delete : Object → Call
  rand : ℕ → Call
  now : Call
  sleep : ℕ → Call

-- The calls made so far, the last one first.
abbrev pub History : Type 0
History = List Call
