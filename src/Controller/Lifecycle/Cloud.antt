-- ===== src/Controller/Lifecycle/Cloud.antt =====
-- The functions of cmd/httpapi that write a machine, as triples on the stored machine and the one
-- that the code holds.
use kt_cloud_operator.Common.{
  is_empty-snoc, String, ◌≡◌, refl, ap, sym, ◌∙◌, false, ◌==◌, not-eq_false, is_empty, not, is_2xx,
  is_2xx_ℤ,
}
use kt_cloud_operator.Api.{KtCluster, NamespacedName, KtMachine, KtMachineStatus}
use kt_cloud_operator.Httpapi.Types.{ServerResponse, MachinePrivateAddresses, PublicIp}
use kt_cloud_operator.Httpapi.ServerAnswers.{
  Answered, IsAnswer, Posts, Gets, send-Triple, read_all-Triple,
}
use kt_cloud_operator.Httpapi.ControlPlaneVm.{
  with_status, update_vm_status, handle_created, post_server,
}
use kt_cloud_operator.Httpapi.PublicIps.{assign_ip, attach_address, attach_public_ip}
use kt_cloud_operator.Httpapi.Servers.{get_created_vm}
use kt_cloud_operator.Httpapi.Send.Silent.{
  Keeps-read_all, Keeps-client_or_panic, Keeps-client_or_error,
}
use kt_cloud_operator.Httpapi.Plain
use kt_cloud_operator.Httpapi.Plain.{alters}
use kt_cloud_operator.Controller.Lifecycle.{Lifecycle, Same}
use kt_cloud_operator.Controller.Lifecycle.Rules.{
  Rules, AreGood, AreGood-posts, AreGood-plain, write,
}
use kt_cloud_operator.Runtime.Calls.{Request, Response, Call, History}
use kt_cloud_operator.Runtime.Env.{Env}
use kt_cloud_operator.Runtime.Effects.{lift}
use kt_cloud_operator.Runtime.Keeps.{Allows, Keeps-gets, Keeps-first_or}
use kt_cloud_operator.Runtime.Hoare.{
  Triple, Triple-pure, Triple-throw, Triple-if, Triple-lift, Triple-bind, Triple-after_Keeps,
  Triple-post, Triple-fact, Triple-error,
}

-- The machine that comes back has an address, and the mark that it had.
pub record AttachedTo (m k : KtMachine) : Type 0 where
  pub address : is_empty k.status.assigned_public_ips ≡ false
  pub mark : k.status.control_plane_ref ≡ m.status.control_plane_ref

module _ (env : Env) (key : NamespacedName) (Base : History → Type 0)
    (Good : History → KtMachine → Type 0) (Own : KtCluster → Type 0) (laws : Lifecycle env Good Own)
    (rules : Rules env key Base Good) where
  abbrev Both : KtMachine → KtMachine → History → Type 0
  Both = AreGood env key Base Good Own laws rules

  plain : (m n : KtMachine) (c : Call) → alters c ≡ false → Allows (Both m n) c
  plain = AreGood-plain env key Base Good Own laws rules

  pub update_vm_status-Triple :
      (m n : KtMachine) (s : KtMachineStatus) (state : String)
      → ((h : History) → Good h m → Good h (with_status n s state))
      → Triple
          (Both m m)
          (λ k h. Both m k h × Same (with_status n s state) k)
          Base
          (update_vm_status env n s state)
  unfolding update_vm_status
  update_vm_status-Triple m n s state good = write env key Base Good Own laws rules m _ good

  -- The body of an answer, decoded where the code has tested that the cloud accepts the request.
  decode-Triple :
      {m : KtMachine} (Asks : Request → Type 0) (q : Request) (r : Response) (body : String)
      → Asks q
      → IsAnswer env q r
      → body ≡ r.body
      → not (is_2xx r.status_code) ≡ false
      → Triple
          (Both m m)
          (λ s h. Both m m h × Answered env Asks s)
          Base
          (lift (env.unmarshal_server body))
  decode-Triple Asks q r body asks (k, answered) same ok =
      Triple-lift _
        (λ s h parsed p. (
          p,
          record {
            calls = k;
            request = q;
            asks = asks;
            response = r;
            answered = answered;
            accepted = not-eq_false _ ok;
            parsed = ap env.unmarshal_server (sym same) ∙ parsed;
          },
        ))
        (λ h p. p.0)

  handle_created-Triple :
      (m : KtMachine) (q : Request) (r : Response)
      → Posts env q
      → IsAnswer env q r
      → Triple (Both m m) (λ k h. Both m k h) Base (handle_created env m r)
  unfolding handle_created
  handle_created-Triple m q r asks is_answer =
      Triple-bind (Triple-error (λ h p. p.0) (read_all-Triple r)) (λ body. Triple-fact (λ same.
        Triple-if (not (is_2xx r.status_code)) _ _ (λ _. Triple-pure m (λ h p. p))
          (λ ok. Triple-bind (decode-Triple (Posts env) q r body asks is_answer same ok) (λ s.
            Triple-fact (λ answer.
              Triple-after_Keeps (Keeps-client_or_panic env) (λ h p. p.0)
                (λ _.
                  Triple-post (λ k h q. q.0)
                    (update_vm_status-Triple m m s.server "Creating"
                      (λ h. laws.created s h m answer))))))))

  pub post_server-Triple :
      (m : KtMachine) (token user_data : String)
      → Triple (Both m m) (λ k h. Both m k h) Base (post_server env m token user_data)
  unfolding post_server
  post_server-Triple m token user_data =
      Triple-bind
        (Triple-error (λ h p. p.0)
          (send-Triple env (Both m m) _ _ _ _
            (AreGood-posts env key Base Good Own laws rules m m _)))
        (λ r. Triple-fact (handle_created-Triple m _ r (refl, refl)))

  -- Such a status may replace that of every good machine with the same server.
  abbrev pub IsFresh : KtMachine → KtMachineStatus → Type 0
  IsFresh m s =
      (n : KtMachine) (h : History)
      → n.status.id ≡ m.status.id
      → (n.status.status == s.status) ≡ false
      → Good h n
      → Good h (record n { status = s })

  refreshed-IsFresh :
      (m : KtMachine) (s : ServerResponse)
      → Answered env (Gets env m.status.id) s
      → IsFresh m s.server
  refreshed-IsFresh m s answer n h same = laws.refreshed s h n (rw same answer)

  pub get_created_vm-Triple :
      (m : KtMachine) (token : String)
      → Triple (Both m m) (λ s h. Both m m h × IsFresh m s) Base (get_created_vm env m token)
  unfolding get_created_vm
  get_created_vm-Triple m token =
      Triple-bind
        (Triple-error (λ h p. p.0)
          (send-Triple env (Both m m) _ _ _ _
            (AreGood-posts env key Base Good Own laws rules m m _)))
        (λ r. Triple-fact (λ is_answer.
          Triple-bind (Triple-error (λ h p. p.0) (read_all-Triple r)) (λ body. Triple-fact (λ same.
            Triple-if (not (is_2xx r.status_code)) _ _ (λ _. Triple-throw _ (λ h p. p.0))
              (λ ok.
                Triple-bind
                  (decode-Triple (Gets env m.status.id) _ r body (refl, refl) is_answer same ok)
                  (λ s. Triple-pure _ (λ h p. (p.0, refreshed-IsFresh m s p.1))))))))

  attached :
      (m k : KtMachine) (private : MachinePrivateAddresses) (ip : PublicIp) (nat : String)
      → Same (with_status m (assign_ip m private ip nat).status m.status.status) k
      → AttachedTo m k
  unfolding with_status assign_ip
  attached m k private ip nat same = record {
    address =
        ap (λ s. is_empty s.assigned_public_ips) same.status
        ∙ is_empty-snoc m.status.assigned_public_ips _;
    mark = ap (λ s. s.control_plane_ref) same.status;
  }

  attach_address-Triple :
      (m : KtMachine) (token : String) (private : MachinePrivateAddresses) (ip : PublicIp)
      → Triple
          (Both m m)
          (λ k h. Both m k h × AttachedTo m k)
          Base
          (attach_address env m token private ip)
  unfolding attach_address
  attach_address-Triple m token private ip =
      Triple-after_Keeps (Plain.Keeps-send (Both m m) (plain m m) env _ _ _ _ refl) (λ h p. p.0)
        (λ r.
          Triple-after_Keeps (Keeps-read_all r) (λ h p. p.0)
            (λ body.
              Triple-if (not (is_2xx r.status_code)) _ _ (λ _. Triple-throw _ (λ h p. p.0))
                (λ _.
                  Triple-bind (Triple-lift {Q = λ a h. Both m m h} _ (λ a h e p. p) (λ h p. p.0))
                    (λ answer.
                      Triple-if (not (is_2xx_ℤ answer.http_status)) _ _
                        (λ _. Triple-throw _ (λ h p. p.0))
                        (λ _.
                          Triple-after_Keeps (Keeps-client_or_error env) (λ h p. p.0)
                            (λ _.
                              Triple-post
                                (λ k h q.
                                  (q.0, attached m k private ip answer.nat.static_nat_id q.1))
                                (update_vm_status-Triple m m _ _ (λ h.
                                  laws.assigned private ip answer.nat.static_nat_id h m))))))))

  pub attach_public_ip-Triple :
      (m : KtMachine) (token : String)
      → Triple (Both m m) (λ k h. Both m k h × AttachedTo m k) Base (attach_public_ip env m token)
  unfolding attach_public_ip
  attach_public_ip-Triple m token =
      Triple-after_Keeps (Keeps-gets _) (λ h p. p.0)
        (λ addresses.
          Triple-after_Keeps (Keeps-first_or _ _) (λ h p. p.0)
            (λ private.
              Triple-after_Keeps (Plain.Keeps-get_public_ips (Both m m) (plain m m) env _ token)
                (λ h p. p.0)
                (λ ips.
                  Triple-after_Keeps (Keeps-first_or _ _) (λ h p. p.0)
                    (λ ip. attach_address-Triple m token private ip))))
