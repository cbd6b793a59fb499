-- ===== src/Controller/Lifecycle/JoinMarks.antt =====
-- What the mark that a worker has joined comes to, with an API server that refuses old statuses.
use kt_cloud_operator.Common.{String, ◌≡◌, refl, ap, ◌∙◌, true, false, ◌∷◌, ◌⊎◌, inl, inr, is_2xx}
use kt_cloud_operator.Api.{NamespacedName, KtMachine}
use kt_cloud_operator.Httpapi.Types.{ServerResponse}
use kt_cloud_operator.Httpapi.ServerAnswers.{Answered, Posts, Gets}
use kt_cloud_operator.Httpapi.CloudInit.{worker_cloud_init}
use kt_cloud_operator.Httpapi.ControlPlaneVm.{with_status}
use kt_cloud_operator.Httpapi.ControlPlaneVm.Outcomes.{Posted, server_request}
use kt_cloud_operator.Httpapi.PublicIps.{assign_ip}
use kt_cloud_operator.Controller.Infrastructure.{set_bootstrap_ready, set_joined, update_status}
use kt_cloud_operator.Controller.Lifecycle.{
  AnyCluster, Store, Lifecycle, Same, is_named, is_named-Same,
}
use kt_cloud_operator.Controller.Lifecycle.Rules.{AreGood, IsGood, IsGood-Rules, Rules, write_with}
use kt_cloud_operator.Controller.Lifecycle.Joins.{Joins}
use kt_cloud_operator.Controller.Lifecycle.Passes.{Passes, Passes-IsGood}
use kt_cloud_operator.Controller.Lifecycle.Versions.{Versions, conflict-after_status}
use kt_cloud_operator.Runtime.Calls.{Call, Error, History, Response, http, machine}
use kt_cloud_operator.Runtime.Env.{Env, value, failure}
use kt_cloud_operator.Runtime.Effects.{lift, perform}
use kt_cloud_operator.Runtime.Hoare.{Ends, Triple, Triple-post}

-- The cloud has refused a server that was asked for under the machine's key.
pub data RefusedFor (env : Env) (key : NamespacedName) : History → Type 0 where
  refused :
      {calls : History} (m : KtMachine) (token script : String) (r : Response)
      → is_named key (machine m) ≡ true
      → env.do_request calls (server_request env m token script) ≡ value r
      → is_2xx r.status_code ≡ false
      → RefusedFor env key (http (server_request env m token script) ∷ calls)
  later : {c : Call} {h : History} → RefusedFor env key h → RefusedFor env key (c ∷ h)

-- A server that the cloud returns, or accepts, carries no mark that it has joined.
pub record AnswersUnjoined (env : Env) : Type 0 where
  pub posted :
      (s : ServerResponse)
      → Answered env (Posts env) s
      → s.server.worker_ref.joined_control_plane ≡ false
  pub got :
      (id : String) (s : ServerResponse)
      → Answered env (Gets env id) s
      → s.server.worker_ref.joined_control_plane ≡ false

abbrev IsExplained : Env → NamespacedName → History → KtMachine → Type 0
IsExplained env key h m =
    (is_named key (machine m) ≡ true)
    × ((m.status.worker_ref.joined_control_plane ≡ false) ⊎ RefusedFor env key h)

explained_later :
    (env : Env) (key : NamespacedName) (c : Call) (h : History) (m : KtMachine)
    → IsExplained env key h m
    → IsExplained env key (c ∷ h) m
explained_later env key c h m (named, inl unjoined) = (named, inl unjoined)
explained_later env key c h m (named, inr known) = (named, inr (RefusedFor.later known))

explained_same :
    (env : Env) (key : NamespacedName) (h : History) (m n : KtMachine)
    → Same m n
    → IsExplained env key h m
    → IsExplained env key h n
explained_same env key h m n same (named, inl unjoined) = (
  is_named-Same key m n same named,
  inl (ap (λ s. s.worker_ref.joined_control_plane) same.status ∙ unjoined),
)
explained_same env key h m n same (named, inr known) = (is_named-Same key m n same named, inr known)

IsExplained-Lifecycle :
    (env : Env) (key : NamespacedName)
    → AnswersUnjoined env
    → Lifecycle env (IsExplained env key) AnyCluster
unfolding with_status assign_ip set_bootstrap_ready
IsExplained-Lifecycle env key unjoined = record {
  owns = λ h m c e p. tt;
  later = explained_later env key;
  same = explained_same env key;
  created = λ s h m answer p. (p.0, inl (unjoined.posted s answer));
  refreshed = λ s h m answer other p. (p.0, inl (unjoined.got m.status.id s answer));
  assigned = λ private ip nat h m p. p;
  marked = λ h k m unattached q mark address p. p;
  finished = λ h m c waits own made p. p;
}

explained-marked :
    {env : Env} {key : NamespacedName} {h : History} (m : KtMachine)
    → IsExplained env key h m
    → m.status.worker_ref.joined_control_plane ≡ true
    → RefusedFor env key h
explained-marked m (named, inl unmarked) marked = cc
explained-marked m (named, inr known) marked = known

module _ (env : Env) (key : NamespacedName) (store : Store env key)
    (versions : Versions env key store) (unjoined : AnswersUnjoined env) where
  abbrev laws : Lifecycle env (IsExplained env key) AnyCluster
  laws = IsExplained-Lifecycle env key unjoined

  abbrev Base : History → Type 0
  Base = IsGood env key store (IsExplained env key) AnyCluster laws

  abbrev rules : Rules env key Base (IsExplained env key)
  rules = IsGood-Rules env key store (IsExplained env key) AnyCluster laws

  abbrev Both : KtMachine → KtMachine → History → Type 0
  Both = AreGood env key Base (IsExplained env key) AnyCluster laws rules

  -- The mark of a worker whose server is refused.
  refused-Triple :
      (m : KtMachine)
      → Triple
          (λ h. Both m m h × RefusedFor env key h)
          (Both m)
          Base
          (update_status env (set_joined m))
  unfolding update_status set_joined
  refused-Triple m =
      Triple-post (λ k h q. q.0)
        (write_with env key Base (IsExplained env key) AnyCluster laws rules (RefusedFor env key) m
          (set_joined m) (λ h known p. (p.0, inr known)))

  -- A write that is refused stores nothing.
  conflict-Ends :
      (m : KtMachine) (x : Error) (h : History)
      → env.update_machine_status h (set_joined m) ≡ failure x
      → Both m m h
      → Ends (Both m) Base (update_status env (set_joined m) h)
  unfolding update_status perform lift
  conflict-Ends m x h e p = rw e (
      rw (versions.unstored (set_joined m) x h e)
        (explained_later env key _ h (store.stored h) p.0))

  mark_at :
      (m n : KtMachine) (token script : String) (asked h : History)
      → Posted env m token script asked n h
      → Both m m h
      → Ends (Both m) Base (update_status env (set_joined m) h)
  unfolding with_status
  mark_at m n token script asked h (Posted.was_refused r answered bad handed_back last) p =
      (refused-Triple m).at h (p, rw last (RefusedFor.refused m token script r p.1.0 answered bad))
  mark_at m n token script asked h (Posted.was_created r s answered good parsed accepted last) p =
      let (x, e) =
        conflict-after_status env key store versions m (with_status m s.server "Creating") n _ p.1.0
          refl accepted in
      conflict-Ends m x h (rw last e) p

  IsExplained-Joins : Joins env key Base (IsExplained env key) AnyCluster laws rules
  IsExplained-Joins = record {
    mark = λ planes m token. record {
      at = λ h (p, j).
          mark_at m j.handed_back token
            (env.base64_encode (worker_cloud_init j.ip.paired_pvt_network.vm_pvt_ip)) j.asked h
            j.posted p;
    };
  }

  -- The mark JoinedControlPlane is only ever stored for a worker that was not created: from calls
  -- after which the stored machine has no mark, where any number of passes and of calls of others
  -- that leave the machine alone lead to calls after which it has one, the cloud has refused a
  -- server that was asked for under the machine's key. No server in an answer of the cloud has the
  -- mark; and the API server stores a status under the key for a machine with the stored resource
  -- version alone, gives it another one, and stores nothing of a status that it refuses.
  pub Passes-RefusedFor :
      (h h' : History)
      → Passes env key h h'
      → (store.stored h).status.worker_ref.joined_control_plane ≡ false
      → (store.stored h').status.worker_ref.joined_control_plane ≡ true
      → RefusedFor env key h'
  Passes-RefusedFor h h' passes before after =
      explained-marked (store.stored h')
        (Passes-IsGood env key store (IsExplained env key) AnyCluster laws IsExplained-Joins passes
          (versions.named h, inl before))
        after
