-- ===== src/Httpapi/WorkerVm/Joined.antt =====
-- The control plane that a worker has joined, where the join returns no error.
use kt_cloud_operator.Common.{
  String, ◌≡◌, ◌∙◌, sym, ap, List, [], ◌∷◌, Member, here, there, ◌⊎◌, inl, inr, is_empty,
}
use kt_cloud_operator.Api.{KtMachine, AssignedPublicIps, zero_machine}
use kt_cloud_operator.Httpapi.CloudInit.{worker_cloud_init}
use kt_cloud_operator.Httpapi.Bootstrap.{check_control_plane_machine_ready}
use kt_cloud_operator.Httpapi.ControlPlaneVm.Outcomes.{Posted, post_server-Posted}
use kt_cloud_operator.Httpapi.WorkerVm.{create_worker_vm, pick_control_plane, join_control_plane}
use kt_cloud_operator.Runtime.Calls.{History}
use kt_cloud_operator.Runtime.Env.{Env}
use kt_cloud_operator.Runtime.Effects.{ok, first}
use kt_cloud_operator.Runtime.Steps.{>>=-eq_ok, catch-eq_ok, pure-eq_ok, if_throw-eq_ok}

-- `p` is one of the machines, and answered last.
pub record Answered (env : Env) (planes : List KtMachine) (p : KtMachine) (h' : History)
    : Type 0 where
  pub member : Member p planes
  pub before : History
  pub is_ready : check_control_plane_machine_ready env p before ≡ ok tt h'

pick_control_plane-eq_ok :
    (env : Env) (planes : List KtMachine) (h : History) {p : KtMachine} {h' : History}
    → pick_control_plane env planes h ≡ ok p h'
    → Answered env planes p h' ⊎ (p ≡ zero_machine)
unfolding pick_control_plane
pick_control_plane-eq_ok env [] h e = inr (sym (pure-eq_ok _ h e).0)
pick_control_plane-eq_ok env (m ∷ ms) h e = elim (catch-eq_ok {A = Unit {0}} _ _ _ h e) [
  | inl (_, h₁, ready, e₁) ↦
      let (same, last) = pure-eq_ok m h₁ e₁ in
      inl (record { member = here (sym same); before = h; is_ready = rw (sym same, last) ready })
  | inr (x, h₁, _, e₁) ↦ elim (pick_control_plane-eq_ok env ms h₁ e₁) [
    | inl a ↦ inl (record { member = there a.member; before = a.before; is_ready = a.is_ready })
    | inr none_left ↦ inr none_left
  ]
]

first-eq_ok :
    {A : Type 0} (xs : List A) (h : History) {x : A} {h' : History}
    → first xs h ≡ ok x h'
    → (rest : List A) × (xs ≡ x ∷ rest) × (h' ≡ h)
unfolding first
first-eq_ok [] h e = cc
first-eq_ok (x ∷ xs) h e = (xs, cc, cc)

-- What a join without an error has done.
pub record HasJoined (env : Env) (planes : List KtMachine) (m : KtMachine) (token : String)
    (h' : History) : Type 0 where
  pub plane : KtMachine
  pub asked : History
  pub answered : Answered env planes plane asked
  pub ip : AssignedPublicIps
  pub others : List AssignedPublicIps
  pub has_ip : plane.status.assigned_public_ips ≡ ip ∷ others
  pub handed_back : KtMachine
  pub posted :
      Posted env m token
        (env.base64_encode (worker_cloud_init ip.paired_pvt_network.vm_pvt_ip))
        asked
        handed_back
        h'

zero_has_none :
    {A : Type 0} {ip : AssignedPublicIps} {ips : List AssignedPublicIps} (p : KtMachine)
    → p ≡ zero_machine
    → p.status.assigned_public_ips ≡ ip ∷ ips
    → A
zero_has_none p e q = let never = sym (ap (λ m. m.status.assigned_public_ips) e) ∙ q in cc

-- A worker only joins a control plane that has answered: where the join returns no error, one of the
-- machines of the list answered, it has a public address, and the last request is for the worker's
-- server, with the script that joins the private address paired with the first public one.
pub join_control_plane-HasJoined :
    (env : Env) (planes : List KtMachine) (m : KtMachine) (token : String) (h : History)
    {h' : History}
    → join_control_plane env planes m token h ≡ ok tt h'
    → HasJoined env planes m token h'
unfolding join_control_plane create_worker_vm
join_control_plane-HasJoined env planes m token h {h'} e =
    let (p, h₁, picked, e₁) = >>=-eq_ok {A = KtMachine} _ _ h e in
    let (_, e₂) = if_throw-eq_ok (is_empty planes) _ _ h₁ e₁ in
    let (ip, h₂, chosen, e₃) = >>=-eq_ok {A = AssignedPublicIps} _ _ h₁ e₂ in
    let (ips, are, same) = first-eq_ok p.status.assigned_public_ips h₁ chosen in
    let (n, h₃, made, e₄) = >>=-eq_ok {A = KtMachine} _ _ h₂ e₃ in
    let last = (pure-eq_ok tt h₃ e₄).1 in
    let posted = post_server-Posted env m token _ h₁ (rw same at made) in
    elim (pick_control_plane-eq_ok env planes h picked) [
      | inl a ↦ record {
        plane = p;
        asked = h₁;
        answered = a;
        ip = ip;
        others = ips;
        has_ip = are;
        handed_back = n;
        posted = rw last posted;
      }
      | inr nobody ↦ zero_has_none p nobody are
    ]
