-- ===== src/Controller/KtMachines/AtMostOne.antt =====
-- One pass of the reconciler asks the cloud for one server at most.
use kt_cloud_operator.Common.{
  ℕ, suc, ◌≤◌, String, ◌≡◌, List, ◌∷◌, false, arith, Bool-cases, inl, inr,
}
use kt_cloud_operator.Api.{NamespacedName, KtMachine, KtCluster}
use kt_cloud_operator.Httpapi.Creates
use kt_cloud_operator.Httpapi.Plain
use kt_cloud_operator.Controller.Plain as ControllerPlain
use kt_cloud_operator.Httpapi.Creates.{creates_server}
use kt_cloud_operator.Httpapi.Send.{send}
use kt_cloud_operator.Httpapi.ControlPlaneVm.{post_server, create_vm}
use kt_cloud_operator.Httpapi.WorkerVm.{create_worker_vm, join_control_plane}
use kt_cloud_operator.Controller.Infrastructure.{
  join_worker, reconcile_control_plane, reconcile_worker, reconcile_infrastructure,
}
use kt_cloud_operator.Controller.Infrastructure.Creates as Infrastructure
use kt_cloud_operator.Controller.KtMachines.{reconcile_machine, reconcile}
use kt_cloud_operator.Runtime.Calls.{Method, Call, History, Body}
use kt_cloud_operator.Runtime.Env.{Env}
use kt_cloud_operator.Runtime.Effects.{history}
use kt_cloud_operator.Runtime.Keeps.{
  Moves, Allows, keeps_rules, Moves-of_Keeps, Moves-bind, Moves-bind_first, Moves-catch, Moves-if,
  Moves-perform, Keeps-check,
}
use kt_cloud_operator.Runtime.Since.{count, count-cons_false, count-cons_true}

abbrev AtMost : ℕ → History → Type 0
AtMost n h = count creates_server h ≤ n

AtMost-Allows : (n : ℕ) (c : Call) → creates_server c ≡ false → Allows (AtMost n) c
AtMost-Allows n c e h le = rw (count-cons_false creates_server c h e) le

-- Any call counts for one at most.
AtMost-suc : (n : ℕ) (c : Call) (h : History) → AtMost n h → AtMost (suc n) (c ∷ h)
AtMost-suc n c h le = elim (Bool-cases (creates_server c)) [
  | inl e ↦ rw (count-cons_true creates_server c h e) (omega arith)
  | inr e ↦ rw (count-cons_false creates_server c h e) (omega arith)
]

-- From an invariant to a weaker one that any call leads to.
module _ (P Q : History → Type 0) (safe : (c : Call) → creates_server c ≡ false → Allows P c)
    (safe' : (c : Call) → creates_server c ≡ false → Allows Q c)
    (weaker : (h : History) → P h → Q h) (any : (c : Call) (h : History) → P h → Q (c ∷ h))
    (env : Env) where
  Moves-send :
      (method : Method) (url : String) (headers : List (String × String)) (body : Body)
      → Moves P Q (send env method url headers body)
  unfolding send
  Moves-send method url headers body =
      Moves-bind weaker _ _ (Keeps-check _) (λ _. Moves-perform _ _ (any _))

  Moves-post_server :
      (m : KtMachine) (token user_data : String) → Moves P Q (post_server env m token user_data)
  unfolding post_server
  Moves-post_server m token user_data =
      Moves-bind_first _ _ (Moves-send _ _ _ _) (Creates.Keeps-handle_created Q safe' env m)

  ruleset moves_rules = (keeps_rules, Moves-if, Moves-of_Keeps, Moves-bind_first, Moves-bind)

  Moves-join_control_plane :
      (planes : List KtMachine) (m : KtMachine) (token : String)
      → Moves P Q (join_control_plane env planes m token)
  unfolding join_control_plane create_worker_vm
  Moves-join_control_plane planes m token =
      search
        (
          moves_rules,
          weaker,
          Plain.Keeps-pick_control_plane P (Creates.plain P safe) env,
          Moves-post_server,
        )
        depth 9

  Moves-join_worker : (m : KtMachine) (token : String) → Moves P Q (join_worker env m token)
  unfolding join_worker
  Moves-join_worker m token =
      search
        (
          moves_rules,
          weaker,
          ControllerPlain.Keeps-get_planes P (Creates.plain P safe) env,
          Moves-join_control_plane,
          Infrastructure.Keeps-update_status Q safe' env,
          Infrastructure.Keeps-refresh_worker Q safe' env,
        )
        depth 9

  Moves-reconcile_control_plane :
      (m : KtMachine) (c : KtCluster) (token : String)
      → Moves P Q (reconcile_control_plane env m c token)
  unfolding reconcile_control_plane create_vm
  Moves-reconcile_control_plane m c token =
      search
        (moves_rules, weaker, Moves-post_server, Infrastructure.Keeps-reconcile_created P safe env)
        depth 9

  Moves-reconcile_infrastructure :
      (m : KtMachine) (c : KtCluster) (token : String)
      → Moves P Q (reconcile_infrastructure env m c token)
  unfolding reconcile_infrastructure reconcile_worker
  Moves-reconcile_infrastructure m c token =
      search
        (
          moves_rules,
          weaker,
          Moves-reconcile_control_plane,
          Moves-join_worker,
          Infrastructure.Keeps-refresh_worker P safe env,
        )
        depth 9

  Moves-reconcile_machine : (m : KtMachine) → Moves P Q (reconcile_machine env m)
  unfolding reconcile_machine
  Moves-reconcile_machine m =
      search
        (
          moves_rules,
          weaker,
          Moves-catch,
          ControllerPlain.Keeps-get_subject_token P (Creates.plain P safe) env,
          ControllerPlain.Keeps-get_cluster P (Creates.plain P safe) env,
          Moves-reconcile_infrastructure,
        )
        depth 9

  Moves-reconcile : (key : NamespacedName) → Moves P Q (reconcile env key)
  unfolding reconcile
  Moves-reconcile key =
      search (moves_rules, weaker, Moves-catch, safe, Moves-reconcile_machine) depth 9

-- One pass of the reconciler of machines sends at most one POST that creates a server, whatever the
-- cloud and the API server answer and however the pass ends.
pub reconcile-at_most_one :
    (env : Env) (key : NamespacedName) (h : History)
    → count creates_server (history (reconcile env key h)) ≤ suc (count creates_server h)
reconcile-at_most_one env key h =
    let n = count creates_server h in
    (Moves-reconcile (AtMost n) (AtMost (suc n)) (AtMost-Allows n) (AtMost-Allows (suc n))
        (λ h le. omega arith) (AtMost-suc n) env key).at
      h (omega arith)
