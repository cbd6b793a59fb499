-- ===== src/Httpapi/Servers/Dependents.antt =====
-- What the deletion of a server asks the cloud to delete before the server.
use kt_cloud_operator.Common.{
  String, ◌<>◌, ◌≡◌, refl, ap, ◌∙◌, true, List, [], ◌∷◌, Option, none, some, Member, is_empty, ◌⊎◌,
  inl, inr, Bool-cases,
}
use kt_cloud_operator.Api.{KtMachine, AssignedPublicIps, FirewallJobs, KtNetworkFirewall}
use kt_cloud_operator.Httpapi.Send.{auth_headers, api_url, send}
use kt_cloud_operator.Httpapi.Send.Silent.{silent_rules}
use kt_cloud_operator.Httpapi.Servers.{
  key_of, delete_on_cloud, delete_jobs, delete_static_nats, delete_firewall_settings,
  delete_vm_dependent_resources,
}
use kt_cloud_operator.Runtime.Calls.{Error, Method, Body, Request, Object, Call, History, http}
use kt_cloud_operator.Runtime.Env.{Env, value}
use kt_cloud_operator.Runtime.Effects.{Run, ok, history, M, check}
use kt_cloud_operator.Runtime.Keeps.{Keeps, Allows, Keeps-catch, keeps_rules}
use kt_cloud_operator.Runtime.Hoare.{
  Triple, Triple-bind, Triple-perform, Triple-of_Keeps, Ends-history,
}
use kt_cloud_operator.Runtime.Steps.{
  >>=-eq_ok, catch-eq_ok, pure-eq_ok, perform-eq_ok, perform_check-eq_ok,
}

-- The requests that delete what depends on a server.
abbrev delete_request : Env → String → String → Request
delete_request env token url = record {
  method = Method.delete;
  url = url;
  headers = auth_headers token;
  body = Body.empty;
}

abbrev pub job_url : Env → FirewallJobs → String
job_url env job = api_url env "/nsm/v1/firewall/policy/" <> job.policy_id

abbrev pub nat_url : Env → AssignedPublicIps → String
nat_url env ip = api_url env "/nsm/v1/staticNat/" <> ip.static_nat_id

module _ (env : Env) (c : Call) where
  -- A call that was made stays made.
  later : (d : Call) → Allows (Member c) d
  later d h p = Member.there p

  Keeps-delete_on_cloud :
      (url token failed : String) → Keeps (Member c) (delete_on_cloud env url token failed)
  unfolding delete_on_cloud send
  Keeps-delete_on_cloud url token failed = search (silent_rules, later) depth 9

  Keeps-delete_jobs :
      (jobs : List FirewallJobs) (token : String) → Keeps (Member c) (delete_jobs env jobs token)
  unfolding delete_jobs
  Keeps-delete_jobs [] token = search keeps_rules
  Keeps-delete_jobs (job ∷ jobs) token =
      Keeps-catch _ _ _ (Keeps-delete_on_cloud _ token _) (λ _. Keeps-delete_jobs jobs token)
        (λ _. Keeps-delete_jobs jobs token)

  Keeps-delete_static_nats :
      (ips : List AssignedPublicIps) (token : String)
      → Keeps (Member c) (delete_static_nats env ips token)
  unfolding delete_static_nats
  Keeps-delete_static_nats [] token = search keeps_rules
  Keeps-delete_static_nats (ip ∷ ips) token =
      Keeps-catch _ _ _ (Keeps-delete_on_cloud _ token _) (λ _. Keeps-delete_static_nats ips token)
        (λ _. Keeps-delete_static_nats ips token)

kept :
    {A : Type 0} {c : Call} {m : M A} {h : History} {r : Run A}
    → Keeps (Member c) m
    → m h ≡ r
    → Member c h
    → Member c (history r)
kept {h = h} k run p = rw run at (k.at h p)

Triple-check :
    {R : History → Type 0} (x : Option Error)
    → x ≡ none
    → Triple (λ h. Unit {0}) (λ (_ : Unit {0}) h. Unit {0}) R (check x)
unfolding check
Triple-check none e = record { at = λ h p. tt }
Triple-check (some x) e = cc

module _ (env : Env) (token : String) where
  asks :
      (url failed : String)
      → env.new_request Method.delete url ≡ none
      → Triple
          (λ h. Unit {0})
          (λ (_ : Unit {0}). Member (http (delete_request env token url)))
          (Member (http (delete_request env token url)))
          (delete_on_cloud env url token failed)
  unfolding delete_on_cloud send
  asks url failed fine =
      Triple-bind
        (Triple-bind (Triple-check _ fine)
          (λ _. Triple-perform _ _ (λ h a e p. Member.here refl) (λ h p. Member.here refl)))
        (λ r. Triple-of_Keeps (search silent_rules depth 9) (λ a h p. p) (λ h p. p))

  asked :
      (url failed : String) (h : History) {r : Run (Unit {0})}
      → env.new_request Method.delete url ≡ none
      → delete_on_cloud env url token failed h ≡ r
      → Member (http (delete_request env token url)) (history r)
  asked url failed h fine run = rw run at (
      Ends-history (Member (http (delete_request env token url)))
        (delete_on_cloud env url token failed h) ((asks url failed fine).at h tt))

  jobs_asked :
      (jobs : List FirewallJobs) (job : FirewallJobs) (h : History) {h' : History}
      → Member job jobs
      → env.new_request Method.delete (job_url env job) ≡ none
      → delete_jobs env jobs token h ≡ ok tt h'
      → Member (http (delete_request env token (job_url env job))) h'
  unfolding delete_jobs
  jobs_asked [] job h inside fine run = elim inside [ ]
  jobs_asked (first ∷ jobs) job h (Member.here same) fine run =
      let c = http (delete_request env token (job_url env job)) in
      elim (catch-eq_ok {A = Unit {0}} _ _ _ h run) [
        | inl (_, k, one, rest) ↦ kept (Keeps-delete_jobs env c jobs token) rest (
            asked (job_url env job) "delete request firewall request failed with status: " h fine (
              ap
                (λ j.
                  delete_on_cloud env (job_url env j) token
                    "delete request firewall request failed with status: " h)
                same
              ∙ one))
        | inr (_, k, one, rest) ↦ kept (Keeps-delete_jobs env c jobs token) rest (
            asked (job_url env job) "delete request firewall request failed with status: " h fine (
              ap
                (λ j.
                  delete_on_cloud env (job_url env j) token
                    "delete request firewall request failed with status: " h)
                same
              ∙ one))
      ]
  jobs_asked (first ∷ jobs) job h (Member.there inside) fine run =
      elim (catch-eq_ok {A = Unit {0}} _ _ _ h run) [
        | inl (_, k, one, rest) ↦ jobs_asked jobs job k inside fine rest
        | inr (_, k, one, rest) ↦ jobs_asked jobs job k inside fine rest
      ]

  nats_asked :
      (ips : List AssignedPublicIps) (ip : AssignedPublicIps) (h : History) {h' : History}
      → Member ip ips
      → env.new_request Method.delete (nat_url env ip) ≡ none
      → delete_static_nats env ips token h ≡ ok tt h'
      → Member (http (delete_request env token (nat_url env ip))) h'
  unfolding delete_static_nats
  nats_asked [] ip h inside fine run = elim inside [ ]
  nats_asked (first ∷ ips) ip h (Member.here same) fine run =
      let c = http (delete_request env token (nat_url env ip)) in
      elim (catch-eq_ok {A = Unit {0}} _ _ _ h run) [
        | inl (_, k, one, rest) ↦ kept (Keeps-delete_static_nats env c ips token) rest (
            asked (nat_url env ip) "delete staticnat request failed with status: " h fine (
              ap
                (λ j.
                  delete_on_cloud env (nat_url env j) token
                    "delete staticnat request failed with status: " h)
                same
              ∙ one))
        | inr (_, k, one, rest) ↦ kept (Keeps-delete_static_nats env c ips token) rest (
            asked (nat_url env ip) "delete staticnat request failed with status: " h fine (
              ap
                (λ j.
                  delete_on_cloud env (nat_url env j) token
                    "delete staticnat request failed with status: " h)
                same
              ∙ one))
      ]
  nats_asked (first ∷ ips) ip h (Member.there inside) fine run =
      elim (catch-eq_ok {A = Unit {0}} _ _ _ h run) [
        | inl (_, k, one, rest) ↦ nats_asked ips ip k inside fine rest
        | inr (_, k, one, rest) ↦ nats_asked ips ip k inside fine rest
      ]

-- The machine's firewall object was read and deleted, and the cloud was asked to delete each of its
-- jobs and each of the machine's static NATs, as far as the request could be made.
pub record Freed (env : Env) (m : KtMachine) (token : String) (h' : History) : Type 0 where
  pub firewall : KtNetworkFirewall
  pub reading : History
  pub read : env.get_firewall reading (key_of m) ≡ value firewall
  pub jobs :
      (job : FirewallJobs)
      → Member job firewall.status.firewall_jobs
      → env.new_request Method.delete (job_url env job) ≡ none
      → Member (http (delete_request env token (job_url env job))) h'
  pub deleting : History
  pub object : env.delete deleting (Object.firewall firewall) ≡ none
  pub nats :
      (ip : AssignedPublicIps)
      → Member ip m.status.assigned_public_ips
      → env.new_request Method.delete (nat_url env ip) ≡ none
      → Member (http (delete_request env token (nat_url env ip))) h'

pub delete_vm_dependent_resources-Freed :
    (env : Env) (m : KtMachine) (token : String) (h : History) {h' : History}
    → delete_vm_dependent_resources env m token h ≡ ok tt h'
    → ((is_empty m.status.assigned_public_ips ≡ true) × (h' ≡ h)) ⊎ Freed env m token h'
unfolding delete_vm_dependent_resources delete_firewall_settings
delete_vm_dependent_resources-Freed env m token h run =
    elim (Bool-cases (is_empty m.status.assigned_public_ips)) [
      | inl empty ↦ inl (empty, (pure-eq_ok tt h (rw empty at run)).1)
      | inr some_ips ↦
          let run' = rw some_ips at run in
          let (_, h₁, settings, e₁) = >>=-eq_ok {A = Unit {0}} _ _ h run' in
          let (_, h₂, client, e₂) = >>=-eq_ok {A = Unit {0}} _ _ h settings in
          let (firewall, h₃, got, e₃) = >>=-eq_ok {A = KtNetworkFirewall} _ _ h₂ e₂ in
          let (_, h₄, deleted, e₄) = >>=-eq_ok {A = Unit {0}} _ _ h₃ e₃ in
          let (gone, calls) = perform_check-eq_ok _ _ h₄ e₄ in
          inr (record {
            firewall = firewall;
            reading = h₂;
            read = (perform-eq_ok _ _ h₂ got).0;
            jobs = λ job inside fine.
                kept (Keeps-delete_static_nats env _ m.status.assigned_public_ips token) e₁ (
                  rw calls (
                    Member.there (
                      jobs_asked env token firewall.status.firewall_jobs job h₃ inside fine
                        deleted)));
            deleting = h₄;
            object = gone;
            nats = λ ip inside fine.
                nats_asked env token m.status.assigned_public_ips ip h₁ inside fine e₁;
          })
    ]
