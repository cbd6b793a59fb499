-- ===== src/Controller/Lifecycle.antt =====
-- What stays true of a stored machine over the passes of internal/controller/ktmachine_controller.go:
-- how the API server stores a machine, and the edits that a pass can make to one.
pub mod Cloud
pub mod Secrets
pub mod Rules
pub mod Joins
pub mod Branches
pub mod Workers
pub mod Passes
pub mod Servers
pub mod WorkerServers
pub mod Marks
pub mod Versions
pub mod JoinMarks
use kt_cloud_operator.Common.{
  ap, ◌∙◌, String, ◌≡◌, refl, Bool, true, false, ◌&&◌, ◌==◌, is_empty, Option, none, ◌∷◌, ◌⊎◌, inl,
  inr,
}
use kt_cloud_operator.Api.{NamespacedName, KtMachine, KtCluster}
use kt_cloud_operator.Httpapi.Types.{ServerResponse, PublicIp, MachinePrivateAddresses}
use kt_cloud_operator.Httpapi.ServerAnswers.{Answered, Posts, Gets}
use kt_cloud_operator.Httpapi.ControlPlaneVm.{with_status}
use kt_cloud_operator.Httpapi.PublicIps.{assign_ip}
use kt_cloud_operator.Httpapi.Kubeconfigs.{kubeconfig_secret}
use kt_cloud_operator.Httpapi.Plain.{is_machine, alters, writes_machine, unwritten}
use kt_cloud_operator.Controller.Lookup.{cluster_key}
use kt_cloud_operator.Controller.Infrastructure.{set_bootstrap_ready, waits_for_bootstrap}
use kt_cloud_operator.Runtime.Calls.{
  Object, Request, Call, History, machine, http, get, list, create, update, update_status, delete,
  rand, now, sleep,
}
use kt_cloud_operator.Runtime.Env.{Env, Result, value, failure}
use kt_cloud_operator.Runtime.Effects.{lift, perform}
use kt_cloud_operator.Runtime.Keeps.{Allows}
use kt_cloud_operator.Runtime.Hoare.{Ends, Triple}

-- The two machines have one key, one cluster and one status.
pub record Same (n k : KtMachine) : Type 0 where
  pub name : k.meta.name ≡ n.meta.name
  pub namespace : k.meta.namespace ≡ n.meta.namespace
  pub cluster : k.spec.cluster_name ≡ n.spec.cluster_name
  pub status : k.status ≡ n.status

-- Does the call write the machine with this key, which is there, or delete it? A creation under
-- its key is refused.
abbrev pub is_named : NamespacedName → Object → Bool
is_named key (machine m) = m.meta.name == key.name && m.meta.namespace == key.namespace
is_named key _ = false

abbrev pub touches : NamespacedName → Call → Bool
touches key (update o) = is_named key o
touches key (update_status o) = is_named key o
touches key (delete o) = is_named key o
touches key _ = false

-- How the API server stores the machine with a key: a read returns what is stored, a write of its
-- status is refused or stores that status, and no creation and no call on another object changes
-- it.
pub record Store (env : Env) (key : NamespacedName) : Type 0 where
  pub stored : History → KtMachine
  pub reads : (h : History) (m : KtMachine) → env.get_machine h key ≡ value m → m ≡ stored h
  pub others : (c : Call) (h : History) → touches key c ≡ false → stored (c ∷ h) ≡ stored h
  pub writes :
      (n : KtMachine) (h : History)
      → (stored (update_status (machine n) ∷ h) ≡ stored h)
        ⊎ Same n (stored (update_status (machine n) ∷ h))
  pub answers : (n k : KtMachine) (h : History) → env.update_machine_status h n ≡ value k → Same n k

-- The API server has accepted the secret with a cluster's kubeconfig.
pub data HasKubeconfig (env : Env) (cluster : KtCluster) : History → Type 0 where
  accepted :
      {h : History} (text : String)
      → env.create h (Object.secret (kubeconfig_secret cluster text)) ≡ none
      → HasKubeconfig env cluster (create (Object.secret (kubeconfig_secret cluster text)) ∷ h)
  later : {c : Call} {h : History} → HasKubeconfig env cluster h → HasKubeconfig env cluster (c ∷ h)

-- Nothing is to be known of the cluster.
abbrev pub AnyCluster : KtCluster → Type 0
AnyCluster c = Unit

-- A property of a machine that each edit of a pass keeps, with what it gives for the cluster that
-- is found for such a machine.
pub record Lifecycle (env : Env) (Good : History → KtMachine → Type 0) (Own : KtCluster → Type 0)
    : Type 0 where
  pub owns :
      (h : History) (m : KtMachine) (c : KtCluster)
      → env.get_kt_cluster h (cluster_key m) ≡ value c
      → Good h m
      → Own c
  pub later : (c : Call) (h : History) (m : KtMachine) → Good h m → Good (c ∷ h) m
  pub same : (h : History) (m n : KtMachine) → Same m n → Good h m → Good h n
  -- the POST that creates the server, and the GET of a later pass that gives another state
  pub created :
      (s : ServerResponse) (h : History) (m : KtMachine)
      → Answered env (Posts env) s
      → Good h m
      → Good h (with_status m s.server "Creating")
  pub refreshed :
      (s : ServerResponse) (h : History) (m : KtMachine)
      → Answered env (Gets env m.status.id) s
      → (m.status.status == s.server.status) ≡ false
      → Good h m
      → Good h (record m { status = s.server })
  pub assigned :
      (private : MachinePrivateAddresses) (ip : PublicIp) (nat : String) (h : History)
      (m : KtMachine)
      → Good h m
      → Good h (with_status m (assign_ip m private ip nat).status m.status.status)
  -- the first mark, on a machine whose first address the pass has attached to `k`
  pub marked :
      (h : History) (k m : KtMachine)
      → is_empty k.status.assigned_public_ips ≡ true
      → Good h k
      → m.status.control_plane_ref ≡ k.status.control_plane_ref
      → is_empty m.status.assigned_public_ips ≡ false
      → Good h m
      → Good h (set_bootstrap_ready m false)
  pub finished :
      (h : History) (m : KtMachine) (c : KtCluster)
      → waits_for_bootstrap m ≡ true
      → Own c
      → HasKubeconfig env c h
      → Good h m
      → Good h (set_bootstrap_ready m true)

is_named-of_other :
    (key : NamespacedName) (o : Object) → is_machine o ≡ false → is_named key o ≡ false
is_named-of_other key (machine m) e = cc
is_named-of_other key (Object.template _) e = refl
is_named-of_other key (Object.deployment _) e = refl
is_named-of_other key (Object.kt_cluster _) e = refl
is_named-of_other key (Object.cluster _) e = refl
is_named-of_other key (Object.token _) e = refl
is_named-of_other key (Object.firewall _) e = refl
is_named-of_other key (Object.secret _) e = refl

pub touches-of_unwritten :
    (key : NamespacedName) (c : Call) → writes_machine c ≡ false → touches key c ≡ false
touches-of_unwritten key (http r) e = refl
touches-of_unwritten key (get k n) e = refl
touches-of_unwritten key (list k n) e = refl
touches-of_unwritten key (create o) e = refl
touches-of_unwritten key (update o) e = is_named-of_other key o e
touches-of_unwritten key (update_status o) e = is_named-of_other key o e
touches-of_unwritten key (delete o) e = is_named-of_other key o e
touches-of_unwritten key (rand n) e = refl
touches-of_unwritten key now e = refl
touches-of_unwritten key (sleep n) e = refl

pub touches-of_plain : (key : NamespacedName) (c : Call) → alters c ≡ false → touches key c ≡ false
touches-of_plain key c e = touches-of_unwritten key c (unwritten c e)

pub is_named-Same :
    (key : NamespacedName) (m n : KtMachine)
    → Same m n
    → is_named key (machine m) ≡ true
    → is_named key (machine n) ≡ true
is_named-Same key m n same named =
    ap (λ s. s == key.name && n.meta.namespace == key.namespace) same.name
    ∙ (ap (λ s. m.meta.name == key.name && s == key.namespace) same.namespace ∙ named)
