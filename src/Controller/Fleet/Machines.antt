-- ===== src/Controller/Fleet/Machines.antt =====
-- What the passes of the whole operator are for one machine.
use text.Mathlib.TextEquality.{eq_iff}
use kt_cloud_operator.Common.{
  Bool, Bool-cases, inl, inr, ◌≡◌, refl, true, false, ◌==◌, ◌&&◌, &&-left, &&-right,
}
use kt_cloud_operator.Api.{NamespacedName, KtMachine}
use kt_cloud_operator.Api.Registration.{Resource}
use kt_cloud_operator.Httpapi.ControlPlaneVm.{with_status}
use kt_cloud_operator.Httpapi.PublicIps.{assign_ip}
use kt_cloud_operator.Controller.Infrastructure.{set_bootstrap_ready, set_joined}
use kt_cloud_operator.Controller.KtMachines.{reconcile}
use kt_cloud_operator.Controller.Scaffolds.{
  reconcile_kt_network_firewall, reconcile_kt_public_network, reconcile_kubeadm_config_template,
  reconcile_kubeadm_control_plane,
}
use kt_cloud_operator.Controller.Lifecycle.{
  Lifecycle, AnyCluster, Same, is_named, is_named-Same, touches, touches-of_plain,
  touches-of_unwritten,
}
use kt_cloud_operator.Httpapi.Plain.{writes_machine}
use kt_cloud_operator.Runtime.Keeps.{Allows}
use kt_cloud_operator.Controller.Lifecycle.Rules.{Rules}
use kt_cloud_operator.Controller.Lifecycle.Joins
use kt_cloud_operator.Controller.Lifecycle.Passes.{Passes, reconcile-Triple}
use kt_cloud_operator.Controller.Fleet.{Fleet, reconcile_kind}
use kt_cloud_operator.Controller.Fleet.Others
use kt_cloud_operator.Runtime.Calls.{Call, History, machine}
use kt_cloud_operator.Runtime.Env.{Env, value}
use kt_cloud_operator.Runtime.Effects.{pure, history}
use kt_cloud_operator.Runtime.Since.{Since, Since-Allows}
use kt_cloud_operator.Runtime.Hoare.{Ends-history}

-- The API server hands out machines under the key that is asked for, and the answer to a status
-- write is the machine that was sent, as far as its key, its cluster and its status go.
pub record AnswersByKey (env : Env) : Type 0 where
  pub reads :
      (h : History) (key : NamespacedName) (m : KtMachine)
      → env.get_machine h key ≡ value m
      → is_named key (machine m) ≡ true
  pub answers : (n k : KtMachine) (h : History) → env.update_machine_status h n ≡ value k → Same n k

abbrev IsNamed : NamespacedName → History → KtMachine → Type 0
IsNamed own h m = is_named own (machine m) ≡ true

IsNamed-Lifecycle : (env : Env) (own : NamespacedName) → Lifecycle env (IsNamed own) AnyCluster
unfolding with_status assign_ip set_bootstrap_ready
IsNamed-Lifecycle env own = record {
  owns = λ h m c e p. tt;
  later = λ c h m p. p;
  same = λ h m n same p. is_named-Same own m n same p;
  created = λ s h m answer p. p;
  refreshed = λ s h m answer other p. p;
  assigned = λ private ip nat h m p. p;
  marked = λ h k m unattached q mark address p. p;
  finished = λ h m c waits own made p. p;
}

IsNamed-set_joined :
    (own : NamespacedName) (h : History) (m : KtMachine)
    → IsNamed own h m
    → IsNamed own h (set_joined m)
unfolding set_joined
IsNamed-set_joined own h m p = p

-- Are the two keys the same?
abbrev pub is_same : NamespacedName → NamespacedName → Bool
is_same own key = own.name == key.name && own.namespace == key.namespace

named_apart :
    (own key : NamespacedName) (m : KtMachine)
    → is_same own key ≡ false
    → is_named own (machine m) ≡ true
    → is_named key (machine m) ≡ false
named_apart own key m apart named =
    let name = (eq_iff m.meta.name own.name).0 (&&-left _ _ named) in
    let namespace = (eq_iff m.meta.namespace own.namespace).0 (&&-right _ _ named) in
    rw (name, namespace) apart

pub key_of_same : (own key : NamespacedName) → is_same own key ≡ true → own ≡ key
key_of_same own key same = λ i. record {
  name = (eq_iff own.name key.name).0 (&&-left _ _ same) i;
  namespace = (eq_iff own.namespace key.namespace).0 (&&-right _ _ same) i;
}

module _ (env : Env) (key : NamespacedName) (by_key : AnswersByKey env) where
  abbrev Untouched : History → History → Type 0
  Untouched = Since (λ c. touches key c ≡ false)

  untouched : (h : History) (c : Call) → writes_machine c ≡ false → Allows (Untouched h) c
  untouched h c e = Since-Allows (touches-of_unwritten key c e)

  another-Rules :
      (own : NamespacedName) (h : History)
      → is_same own key ≡ false
      → Rules env own (Untouched h) (IsNamed own)
  another-Rules own h apart = record {
    reads = λ k m e s. by_key.reads k own m e;
    plain = λ c e k s. Since.call (touches-of_plain key c e) s;
    posts = λ q k s. Since.call refl s;
    written = λ n k s named. Since.call (named_apart own key n apart named) s;
    answers = by_key.answers;
  }

  -- A pass over another machine leaves this one alone.
  another_machine :
      (own : NamespacedName) (h : History)
      → is_same own key ≡ false
      → Untouched h (history (reconcile env own h))
  another_machine own h apart =
      let rules = another-Rules own h apart in
      let laws = IsNamed-Lifecycle env own in
      Ends-history (Untouched h) (reconcile env own h) (
        (reconcile-Triple env own (Untouched h) (IsNamed own) AnyCluster laws rules (
            Joins.unconditional env own (Untouched h) (IsNamed own) AnyCluster laws rules
              (IsNamed-set_joined own))).at
          h Since.start)

  -- Calls that leave the machine alone go behind its passes.
  Passes-Untouched : {h h' k : History} → Passes env key h h' → Untouched h' k → Passes env key h k
  Passes-Untouched passes Since.start = passes
  Passes-Untouched passes (Since.call {c = c} e s) = Passes.other c e (Passes-Untouched passes s)

  machine_pass :
      (own : NamespacedName) {h h' : History}
      → Passes env key h h'
      → Passes env key h (history (reconcile env own h'))
  machine_pass own {h} {h'} passes = elim (Bool-cases (is_same own key)) [
    | inl same ↦ rw (key_of_same own key same) (Passes.pass passes)
    | inr apart ↦ Passes-Untouched passes (another_machine own h' apart)
  ]

  kind_pass :
      (kind : Resource) (own : NamespacedName) {h h' : History}
      → Passes env key h h'
      → Passes env key h (history (reconcile_kind env kind own h'))
  unfolding reconcile_kt_network_firewall reconcile_kt_public_network
      reconcile_kubeadm_config_template reconcile_kubeadm_control_plane pure
  kind_pass Resource.cluster own {h' = k} passes =
      Passes-Untouched passes
        ((Others.Keeps-cluster_reconcile (Untouched k) (untouched k) env own).at k Since.start)
  kind_pass Resource.kt_cluster own {h' = k} passes =
      Passes-Untouched passes
        ((Others.Keeps-kt_cluster_reconcile (Untouched k) (untouched k) env own).at k Since.start)
  kind_pass Resource.kt_machine own passes = machine_pass own passes
  kind_pass Resource.kt_machine_template own {h' = k} passes =
      Passes-Untouched passes
        ((Others.Keeps-template_reconcile (Untouched k) (untouched k) env own).at k Since.start)
  kind_pass Resource.kt_network_firewall own passes = passes
  kind_pass Resource.kt_public_network own passes = passes
  kind_pass Resource.kt_subject_token own {h' = k} passes =
      Passes-Untouched passes (
        (Others.Keeps-subject_token_reconcile (Untouched k) (untouched k) env own).at k Since.start)
  kind_pass Resource.kubeadm_config_template own passes = passes
  kind_pass Resource.kubeadm_control_plane own passes = passes
  kind_pass Resource.machine_deployment own {h' = k} passes = Passes-Untouched passes (
      (Others.Keeps-deployment_reconcile (Untouched k) (untouched k) env
          (λ m h. Since-Allows refl h) own).at
        k Since.start)

  -- For one machine, the whole operator is its own reconciler: any number of passes of the ten
  -- reconcilers, over any objects and in any order, and of calls of others that leave the machine
  -- alone, are a number of passes over this machine and of calls that leave it alone. The API
  -- server hands out machines under the key that is asked for, and answers a status write with the
  -- machine that was sent, as far as its key, its cluster and its status go.
  pub Fleet-Passes :
      {h h' : History} → Fleet env (λ c k. touches key c ≡ false) h h' → Passes env key h h'
  Fleet-Passes Fleet.start = Passes.start
  Fleet-Passes (Fleet.pass kind own fleet) = kind_pass kind own (Fleet-Passes fleet)
  Fleet-Passes (Fleet.other c e fleet) = Passes.other c e (Fleet-Passes fleet)
