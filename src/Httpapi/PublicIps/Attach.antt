-- ===== src/Httpapi/PublicIps/Attach.antt =====
-- Where a public address that is attached comes from.
use kt_cloud_operator.Common.{
  refl, Member, ◌==◌, ◌++◌, sym, String, ◌≡◌, ap, ◌∙◌, Bool, true, not, List, [], ◌∷◌, filter,
  is_2xx, is_2xx_ℤ, Bool-cases, inl, inr,
}
use kt_cloud_operator.Api.{KtMachine, Addresses}
use kt_cloud_operator.Httpapi.Types.{
  NatAttachResponse, NcListentPublicIpsResponse, PublicIp, MachinePrivateAddresses,
}
use kt_cloud_operator.Httpapi.ControlPlaneVm.{with_status, update_vm_status}
use kt_cloud_operator.Httpapi.Servers.{get_failed}
use kt_cloud_operator.Httpapi.Send.{auth_headers, api_url}
use kt_cloud_operator.Httpapi.Send.Answers.{send-eq_ok, read_all-eq_ok}
use kt_cloud_operator.Httpapi.PublicIps.{
  private_addresses, is_available, assign_ip, get_public_ips, attach_address, attach_public_ip,
}
use kt_cloud_operator.Runtime.Calls.{Error, Method, Body, Request, Response, Call, History, Object}
use kt_cloud_operator.Runtime.Env.{Env, value}
use kt_cloud_operator.Runtime.Effects.{ok, first_or}
use kt_cloud_operator.Runtime.Steps.{
  >>=-eq_ok, gets-eq_ok, pure-eq_ok, perform-eq_ok, if_throw-eq_ok, lift-eq_ok,
}

module _ {A : Type 0} where
  first_or-eq_ok :
      (e : Error) (xs : List A) (h : History) {x : A} {h' : History}
      → first_or e xs h ≡ ok x h'
      → (rest : List A) × (xs ≡ x ∷ rest) × (h' ≡ h)
  unfolding first_or
  first_or-eq_ok e [] h q = cc
  first_or-eq_ok e (x ∷ xs) h q = (xs, cc, cc)

  filter-head :
      (p : A → Bool) (xs : List A) {x : A} {rest : List A} → filter p xs ≡ x ∷ rest → p x ≡ true
  filter-head p [] q = cc
  filter-head p (y ∷ ys) q = elim (Bool-cases (p y)) [
    | inl good ↦ let same = rw (good, filter) at q in cc
    | inr bad ↦ filter-head p ys (rw (bad, filter) at q)
  ]

-- The listing of the public addresses.
abbrev pub listing_request : Env → String → Request
listing_request env token = record {
  method = Method.get;
  url = api_url env "/nsm/v1/publicIp";
  headers = auth_headers token;
  body = Body.empty;
}

filter-Member :
    {A : Type 0} (p : A → Bool) (xs : List A) {x : A} {rest : List A}
    → filter p xs ≡ x ∷ rest
    → Member x xs
filter-Member p [] q = cc
filter-Member p (y ∷ ys) q = elim (Bool-cases (p y)) [
  | inl good ↦ let same = rw (good, filter) at q in Member.here cc
  | inr bad ↦ Member.there (filter-Member p ys (rw (bad, filter) at q))
]

-- The cloud's answer to the listing has the address, as one that passes the test.
pub record Listed (env : Env) (p : PublicIp → Bool) (token : String) (h : History) (ip : PublicIp)
    : Type 0 where
  pub response : Response
  pub answered : env.do_request h (listing_request env token) ≡ value response
  pub answer : NcListentPublicIpsResponse
  pub parsed : env.unmarshal_public_ips response.body ≡ value answer
  pub inside : Member ip answer.public_ips
  pub passes : p ip ≡ true

get_public_ips-Listed :
    (env : Env) (p : PublicIp → Bool) (token : String) (h : History) {ip : PublicIp}
    {ips : List PublicIp} {h' : History}
    → get_public_ips env p token h ≡ ok (ip ∷ ips) h'
    → Listed env p token h ip
unfolding get_public_ips
get_public_ips-Listed env p token h q =
    let (r, h₁, sent, q₁) = >>=-eq_ok _ _ h q in
    let (answered, _) = send-eq_ok env (listing_request env token) h sent in
    let (body, h₂, read, q₂) = >>=-eq_ok _ _ h₁ q₁ in
    let (whole, _) = read_all-eq_ok r h₁ read in
    let (good, q₃) = if_throw-eq_ok (not (is_2xx r.status_code)) (get_failed r.status) _ h₂ q₂ in
    let (answer, h₃, lifted, q₄) = >>=-eq_ok {A = NcListentPublicIpsResponse} _ _ h₂ q₃ in
    let (is_answer, _) = lift-eq_ok _ h₂ lifted in
    let filtered = (pure-eq_ok _ h₃ q₄).0 in
    record {
      response = r;
      answered = answered;
      answer = answer;
      parsed = rw whole at is_answer;
      inside = filter-Member p answer.public_ips filtered;
      passes = filter-head p answer.public_ips filtered;
    }

-- What a successful attachment has stored: `n`, the API server's answer to the write.
pub record Attached (env : Env) (m n : KtMachine) (token : String) (h h' : History) : Type 0 where
  pub private : MachinePrivateAddresses
  pub ip : PublicIp
  pub static_nat_id : String
  pub before : History
  -- the machine's first private address, in the order of this visit of the map
  pub others : List MachinePrivateAddresses
  pub is_first : private_addresses (env.range_addresses h m.status.addresses) ≡ private ∷ others
  -- an address that the cloud has listed as free
  pub is_free : Listed env (λ x. x.type == "ASSOCIATE") token h ip
  -- the machine that was sent: one more address, and nothing else of the status has changed
  pub sent : KtMachine
  pub meta : sent.meta ≡ m.meta
  pub spec : sent.spec ≡ m.spec
  pub status : sent.status ≡ record m.status {
    assigned_public_ips =
        m.status.assigned_public_ips
        ++ record {
          ip = ip.ip;
          id = ip.id;
          static_nat_id = static_nat_id;
          paired_pvt_network = record {
            network_name = private.network_name;
            network_id = "";
            network_os_id = "";
            vm_pvt_ip = private.address;
          };
        }
          ∷ [];
  }
  pub stored : env.update_machine_status before sent ≡ value n
  pub last : h' ≡ Call.update_status (Object.machine sent) ∷ before

attach_address-stored :
    (env : Env) (m : KtMachine) (token : String) (private : MachinePrivateAddresses) (ip : PublicIp)
    (h : History) {n : KtMachine} {h' : History}
    → attach_address env m token private ip h ≡ ok n h'
    → (nat : String) × (k : History) × (update_vm_status env m
          (assign_ip m private ip nat).status
          m.status.status
          k
        ≡ ok n h')
unfolding attach_address
attach_address-stored env m token private ip h q =
    let (r, h₁, sent, q₁) = >>=-eq_ok {A = Response} _ _ h q in
    let (body, h₂, read, q₂) = >>=-eq_ok {A = String} _ _ h₁ q₁ in
    let (good, q₃) = if_throw-eq_ok (not (is_2xx r.status_code)) _ _ h₂ q₂ in
    let (answer, h₃, _, q₄) = >>=-eq_ok {A = NatAttachResponse} _ _ h₂ q₃ in
    let (fine, q₅) = if_throw-eq_ok (not (is_2xx_ℤ answer.http_status)) _ _ h₃ q₄ in
    let (_, h₄, _, q₆) = >>=-eq_ok {A = Unit {0}} _ _ h₃ q₅ in (answer.nat.static_nat_id, h₄, q₆)

-- A public address that is attached was free, and the machine's first private address is paired
-- with it: where `AttachPublicIP` succeeds, the cloud has listed the address with the type
-- ASSOCIATE in its answer to the one listing, and the last call stores the machine with exactly
-- that pair added at the end of its assigned addresses, and all else of it as it was.
pub attach_public_ip-stored :
    (env : Env) (m : KtMachine) (token : String) (h : History) {n : KtMachine} {h' : History}
    → attach_public_ip env m token h ≡ ok n h'
    → Attached env m n token h h'
unfolding attach_public_ip update_vm_status with_status assign_ip
attach_public_ip-stored env m token h q =
    let (addresses, h₁, ranged, q₁) = >>=-eq_ok {A = Addresses} _ _ h q in
    let (private, h₂, chosen, q₂) = >>=-eq_ok {A = MachinePrivateAddresses} _ _ h₁ q₁ in
    let (ips, h₃, found, q₃) = >>=-eq_ok {A = List PublicIp} _ _ h₂ q₂ in
    let (ip, h₄, picked, q₄) = >>=-eq_ok {A = PublicIp} _ _ h₃ q₃ in
    let (is_ranged, same₁) = gets-eq_ok _ h ranged in
    let (others, are, same₂) = first_or-eq_ok _ (private_addresses addresses) h₁ chosen in
    let (rest, list, _) = first_or-eq_ok _ ips h₃ picked in
    let (nat, k, q₅) = attach_address-stored env m token private ip h₄ q₄ in
    let (answer, calls) = perform-eq_ok _ _ _ q₅ in
    record {
      private = private;
      ip = ip;
      static_nat_id = nat;
      before = k;
      others = others;
      is_first = ap private_addresses is_ranged ∙ are;
      is_free =
          get_public_ips-Listed env is_available token h
            (ap (get_public_ips env is_available token) (sym (same₂ ∙ same₁)) ∙ (rw list at found));
      sent = _;
      meta = refl;
      spec = refl;
      status = refl;
      stored = answer;
      last = calls;
    }
