-- ===== src/Controller/Lifecycle/Marks.antt =====
-- The mark of a stored control plane over the passes: its address, and its kubeconfig's secret.
use kt_cloud_operator.Common.{
  refl, is_empty-snoc, &&-left, String, ◌≡◌, ap, sym, ◌∙◌, Bool, true, false, not, ◌==◌,
  if◌then◌else◌, is_2xx, Option, none, some, List, [], ◌∷◌, is_empty,
}
use kt_cloud_operator.Api.{NamespacedName, KtMachine, KtCluster}
use kt_cloud_operator.Httpapi.Types.{ServerResponse}
use kt_cloud_operator.Httpapi.ServerAnswers.{Answered, Posts, Gets}
use kt_cloud_operator.Httpapi.ControlPlaneVm.{with_status}
use kt_cloud_operator.Httpapi.PublicIps.{assign_ip}
use kt_cloud_operator.Controller.Lookup.{cluster_key}
use kt_cloud_operator.Controller.Infrastructure.{
  set_bootstrap_ready, set_joined, waits_for_bootstrap,
}
use kt_cloud_operator.Controller.Lifecycle.{AnyCluster, Store, Lifecycle, Same, HasKubeconfig}
use kt_cloud_operator.Controller.Lifecycle.Passes.{Passes, Passes-keeps}
use kt_cloud_operator.Httpapi.Send.{send}
use kt_cloud_operator.Httpapi.Bootstrap.{check_control_plane_machine_ready}
use kt_cloud_operator.Runtime.Calls.{Error, Call, History}
use kt_cloud_operator.Runtime.Env.{Env, Result, value, failure}
use kt_cloud_operator.Runtime.Effects.{
  Run, ok, err, panic, exit, M, continue, pure, throw, lift, perform, check, first, ◌>>=◌,
}

-- A server that the cloud returns, or accepts, carries no mark of the operator, or is not ready.
pub record AnswersUnmarked (env : Env) : Type 0 where
  pub posted :
      (s : ServerResponse)
      → Answered env (Posts env) s
      → (s.server.control_plane_ref.type == "BootstrapReady") ≡ false
  pub got :
      (id : String) (s : ServerResponse)
      → Answered env (Gets env id) s
      → (s.server.control_plane_ref.type == "BootstrapReady") ≡ false

pub record AnswersUnready (env : Env) : Type 0 where
  pub posted :
      (s : ServerResponse) → Answered env (Posts env) s → s.server.control_plane_ref.status ≡ false
  pub got :
      (id : String) (s : ServerResponse)
      → Answered env (Gets env id) s
      → s.server.control_plane_ref.status ≡ false

-- A read of a cluster returns one with the name that is asked for.
abbrev pub ReadsByName : Env → Type 0
ReadsByName env =
    (h : History) (key : NamespacedName) (c : KtCluster)
    → env.get_kt_cluster h key ≡ value c
    → c.meta.name ≡ key.name

-- The API server has accepted the kubeconfig's secret of a cluster with this name.
abbrev pub HasSecret : Env → String → History → Type 0
HasSecret env name h = (c : KtCluster) × (c.meta.name ≡ name) × HasKubeconfig env c h

abbrev IsBacked : Env → String → History → KtMachine → Type 0
IsBacked env name h m =
    (m.spec.cluster_name ≡ name) × (m.status.control_plane_ref.status ≡ true → HasSecret env name h)

IsBacked-Lifecycle :
    (env : Env)
    → ReadsByName env
    → AnswersUnready env
    → (name : String) → Lifecycle env (IsBacked env name) (λ c. c.meta.name ≡ name)
unfolding with_status assign_ip set_bootstrap_ready set_joined
IsBacked-Lifecycle env names unready name = record {
  owns = λ h m c e p. names h (cluster_key m) c e ∙ p.0;
  later = λ call h m p.
      (p.0, λ e. (let (c, named, made) = p.1 e in (c, named, HasKubeconfig.later made)));
  same = λ h m n same p.
      (same.cluster ∙ p.0, λ e. p.1 (ap (λ s. s.control_plane_ref.status) (sym same.status) ∙ e));
  created = λ s h m answer p. (p.0, λ e. (let not_ready = unready.posted s answer in cc));
  refreshed =
      λ s h m answer other p. (p.0, λ e. (let not_ready = unready.got m.status.id s answer in cc));
  assigned = λ private ip nat h m p. p;
  marked = λ h k m unattached q mark address p. (p.0, λ e. cc);
  finished = λ h m c waits own made p. (p.0, λ e. (c, own, made));
}

IsBacked-set_joined :
    (env : Env) (name : String) (h : History) (m : KtMachine)
    → IsBacked env name h m
    → IsBacked env name h (set_joined m)
unfolding set_joined
IsBacked-set_joined env name h m p = p

-- A control plane is only marked ready once its cluster's kubeconfig is a secret: from calls after
-- which the stored machine is not ready, where any number of passes and of calls of others that
-- leave the machine alone lead to calls after which it is, the API server has accepted a
-- kubeconfig's secret of a cluster with the name that the machine's specification gives. A read of
-- a cluster returns one with the name asked for, no server in an answer of the cloud is marked
-- ready, and the API server stores what a status write sends, or nothing.
pub Passes-HasSecret :
    (env : Env) (key : NamespacedName) (store : Store env key)
    → ReadsByName env
    → AnswersUnready env
    → (h h' : History) → Passes env key h h'
    → (store.stored h).status.control_plane_ref.status ≡ false
    → (store.stored h').status.control_plane_ref.status ≡ true
    → HasSecret env (store.stored h).spec.cluster_name h'
Passes-HasSecret env key store names unready h h' passes before after =
    let name = (store.stored h).spec.cluster_name in
    let laws = IsBacked-Lifecycle env names unready name in
    (Passes-keeps env key store (IsBacked env name) (λ c. c.meta.name ≡ name) laws
        (IsBacked-set_joined env name) passes (refl, λ e. cc)).1
      after

-- A machine with a mark has an address.
abbrev pub HasAddress : History → KtMachine → Type 0
HasAddress h m =
    (m.status.control_plane_ref.type == "BootstrapReady") ≡ true
    → is_empty m.status.assigned_public_ips ≡ false

waits-marked :
    (m : KtMachine)
    → waits_for_bootstrap m ≡ true
    → (m.status.control_plane_ref.type == "BootstrapReady") ≡ true
unfolding waits_for_bootstrap
waits-marked m e = &&-left _ (not m.status.control_plane_ref.status) e

HasAddress-Same : (h : History) (m n : KtMachine) → Same m n → HasAddress h m → HasAddress h n
HasAddress-Same h m n same p e =
    ap (λ s. is_empty s.assigned_public_ips) same.status
    ∙ p (ap (λ s. s.control_plane_ref.type == "BootstrapReady") (sym same.status) ∙ e)

pub HasAddress-Lifecycle : (env : Env) → AnswersUnmarked env → Lifecycle env HasAddress AnyCluster
unfolding with_status assign_ip set_bootstrap_ready set_joined
HasAddress-Lifecycle env unmarked = record {
  owns = λ h m c e p. tt;
  later = λ c h m p. p;
  same = HasAddress-Same;
  created = λ s h m answer p e. (let no_mark = unmarked.posted s answer in cc);
  refreshed = λ s h m answer other p e. (let no_mark = unmarked.got m.status.id s answer in cc);
  assigned = λ private ip nat h m p e. is_empty-snoc m.status.assigned_public_ips _;
  marked = λ h k m unattached q mark address p e. address;
  finished = λ h m c waits own made p e. p (waits-marked m waits);
}

pub HasAddress-set_joined :
    (h : History) (m : KtMachine) → HasAddress h m → HasAddress h (set_joined m)
unfolding set_joined
HasAddress-set_joined h m p = p

-- The run has not panicked.
abbrev pub IsCalm : {A : Type 0} → Run A → Type 0
IsCalm (panic s h) = ⊥
IsCalm _ = Unit

module _ {A B : Type 0} where
  continue-IsCalm :
      (r : Run A) (f : A → M B)
      → IsCalm r
      → ((a : A) (h : History) → IsCalm (f a h))
      → IsCalm (continue r f throw)
  unfolding throw
  continue-IsCalm (ok a h) f calm rest = rest a h
  continue-IsCalm (err e h) f calm rest = tt
  continue-IsCalm (panic s h) f calm rest = calm
  continue-IsCalm (exit h) f calm rest = tt

  bind-IsCalm :
      (m : M A) (f : A → M B) (h : History)
      → IsCalm (m h)
      → ((a : A) (k : History) → IsCalm (f a k))
      → IsCalm ((m >>= f) h)
  unfolding ◌>>=◌
  bind-IsCalm m f h calm rest = continue-IsCalm (m h) f calm rest

lift-IsCalm : {A : Type 0} (r : Result A) (h : History) → IsCalm (lift r h)
unfolding lift
lift-IsCalm (value a) h = tt
lift-IsCalm (failure e) h = tt

perform-IsCalm :
    {A : Type 0} (c : Call) (f : History → Result A) (h : History) → IsCalm (perform c f h)
unfolding perform
perform-IsCalm c f h = lift-IsCalm (f h) (c ∷ h)

check-IsCalm : (e : Option Error) (h : History) → IsCalm (check e h)
unfolding check
check-IsCalm none h = tt
check-IsCalm (some e) h = tt

if_throw-IsCalm : (b : Bool) (e : Error) (h : History) → IsCalm ((if b then pure tt else throw e) h)
unfolding throw pure
if_throw-IsCalm true e h = tt
if_throw-IsCalm false e h = tt

first-IsCalm : {A : Type 0} (xs : List A) (h : History) → is_empty xs ≡ false → IsCalm (first xs h)
unfolding first pure
first-IsCalm [] h e = cc
first-IsCalm (x ∷ xs) h e = tt

check_ready-IsCalm :
    (env : Env) (m : KtMachine) (h : History)
    → is_empty m.status.assigned_public_ips ≡ false
    → IsCalm (check_control_plane_machine_ready env m h)
unfolding check_control_plane_machine_ready send
check_ready-IsCalm env m h e =
    bind-IsCalm _ _ h (first-IsCalm m.status.assigned_public_ips h e) (λ ip k.
      bind-IsCalm _ _ k (bind-IsCalm _ _ k (check-IsCalm _ k) (λ _ l. perform-IsCalm _ _ l))
        (λ response l. if_throw-IsCalm (is_2xx response.status_code) _ l))

-- The check of a marked control plane never indexes an empty slice: from calls after which a mark
-- of the stored machine comes with an address, where any number of passes and of calls of others
-- that leave the machine alone lead to calls after which it has the mark, the check of the stored
-- machine does not panic, whatever it is answered. No server in an answer of the cloud has
-- the mark, and the API server stores what a status write sends, or nothing.
pub Passes-IsCalm :
    (env : Env) (key : NamespacedName) (store : Store env key)
    → AnswersUnmarked env
    → (h h' : History) → Passes env key h h'
    → HasAddress h (store.stored h)
    → ((store.stored h').status.control_plane_ref.type == "BootstrapReady") ≡ true
    → (k : History) → IsCalm (check_control_plane_machine_ready env (store.stored h') k)
Passes-IsCalm env key store unmarked h h' passes address marked k =
    check_ready-IsCalm env (store.stored h') k (
      Passes-keeps env key store HasAddress AnyCluster (HasAddress-Lifecycle env unmarked)
        HasAddress-set_joined passes address marked)
