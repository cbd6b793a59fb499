-- ===== src/Httpapi/Login/Renewals.antt =====
-- What a login leaves in the object that keeps the token.
use kt_cloud_operator.Common.{◌≡◌, refl, Option, ◌∷◌, none, some}
use kt_cloud_operator.Api.{KtSubjectToken}
use kt_cloud_operator.Httpapi.Login.{token_name, store_token}
use kt_cloud_operator.Runtime.Calls.{Error, Object, Kind, Call, History}
use kt_cloud_operator.Runtime.Env.{Env, value}
use kt_cloud_operator.Runtime.Effects.{
  ok, continue, pure, catch, perform, perform_check, lift, check,
}

-- An outcome that is only logged.
logged :
    (answer : Option Error) (k : History)
    → continue (check answer k) (λ _. pure tt) (λ _. pure tt) ≡ ok tt k
unfolding check pure
logged none k = refl
logged (some e) k = refl

-- A renewed token reaches the status alone: where the object exists, one write follows its read,
-- and the object that is written has the new status and the specification that was read, so that
-- its `spec.subject_token`, which the machines' reconciler sends to the cloud, is the old token.
-- The answer to the write does not matter.
pub store_token-renews_status :
    (env : Env) (token existing : KtSubjectToken) (h : History)
    → env.get_token h token_name ≡ value existing
    → (written : KtSubjectToken) × (store_token env token h
        ≡ ok tt (Call.update_status (Object.token written) ∷ Call.get Kind.token token_name ∷ h))
      × (written.status ≡ token.status)
      × (written.spec ≡ existing.spec)
      × (written.meta ≡ existing.meta)
unfolding store_token catch perform perform_check lift pure
store_token-renews_status env token existing h found =
    (record existing { status = token.status }, rw found (logged _ _), refl, refl, refl)
