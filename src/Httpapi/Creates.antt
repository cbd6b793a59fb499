-- ===== src/Httpapi/Creates.antt =====
-- The calls that ask the cloud for a new server, and the functions of cmd/httpapi that make none.
use kt_cloud_operator.Common.{String, ◌≡◌, refl, Bool, false}
use kt_cloud_operator.Api.{KtMachine, KtMachineStatus}
use kt_cloud_operator.Httpapi.Types.{PublicIp, MachinePrivateAddresses}
use kt_cloud_operator.Httpapi.Send.Silent.{silent_rules}
use kt_cloud_operator.Httpapi.ControlPlaneVm.{update_vm_status, handle_created}
use kt_cloud_operator.Httpapi.PublicIps.{attach_address, attach_public_ip}
use kt_cloud_operator.Runtime.Calls.{Response, Call, History, http}
use kt_cloud_operator.Runtime.Env.{Env}
use kt_cloud_operator.Runtime.Keeps.{Keeps, Allows, keeps_rules}
use kt_cloud_operator.Runtime.Calls.{
  create, update, update_status, delete, get, list, rand, now, sleep,
}
use kt_cloud_operator.Httpapi.Plain
use kt_cloud_operator.Httpapi.Plain.{is_server, alters}

abbrev pub creates_server : Call → Bool
creates_server (http r) = is_server r.body
creates_server _ = false

-- What every call but those POSTs keeps, the calls that alter nothing keep too.
pub plain :
    (P : History → Type 0) (safe : (c : Call) → creates_server c ≡ false → Allows P c) (c : Call)
    → alters c ≡ false
    → Allows P c
plain P safe (http r) e = safe (http r) e
plain P safe (get k key) e = safe (get k key) refl
plain P safe (list k n) e = safe (list k n) refl
plain P safe (create o) e = safe (create o) refl
plain P safe (update o) e = safe (update o) refl
plain P safe (update_status o) e = safe (update_status o) refl
plain P safe (delete o) e = safe (delete o) refl
plain P safe (rand n) e = safe (rand n) refl
plain P safe now e = safe now refl
plain P safe (sleep n) e = safe (sleep n) refl

-- Over any invariant that all other calls keep.
module _ (P : History → Type 0) (safe : (c : Call) → creates_server c ≡ false → Allows P c)
    (env : Env) where
  pub Keeps-update_vm_status :
      (m : KtMachine) (s : KtMachineStatus) (state : String)
      → Keeps P (update_vm_status env m s state)
  unfolding update_vm_status
  Keeps-update_vm_status m s state = search (keeps_rules, safe, refl)

  pub Keeps-handle_created : (m : KtMachine) (r : Response) → Keeps P (handle_created env m r)
  unfolding handle_created
  Keeps-handle_created m r = search (keeps_rules, Keeps-update_vm_status, silent_rules) depth 9

  pub Keeps-attach_address :
      (m : KtMachine) (token : String) (a : MachinePrivateAddresses) (ip : PublicIp)
      → Keeps P (attach_address env m token a ip)
  unfolding attach_address
  Keeps-attach_address m token a ip =
      search (silent_rules, refl, Keeps-update_vm_status, Plain.Keeps-send P (plain P safe) env)
        depth 9

  pub Keeps-attach_public_ip :
      (m : KtMachine) (token : String) → Keeps P (attach_public_ip env m token)
  unfolding attach_public_ip
  Keeps-attach_public_ip m token =
      search (keeps_rules, Plain.Keeps-get_public_ips P (plain P safe) env, Keeps-attach_address)
        depth 9
