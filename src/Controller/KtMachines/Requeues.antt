-- ===== src/Controller/KtMachines/Requeues.antt =====
-- When the reconcilers run again.
use kt_cloud_operator.Common.{◌≡◌, sym, Bool-cases, inl, inr, ◌==◌}
use kt_cloud_operator.Api.{NamespacedName, KtMachine}
use kt_cloud_operator.Controller.Results.{CtrlResult, requeue}
use kt_cloud_operator.Controller.Lookup.{get_machine_associated_cluster, get_subject_token}
use kt_cloud_operator.Controller.Infrastructure.{reconcile_infrastructure}
use kt_cloud_operator.Controller.KtMachines.{reconcile_machine, reconcile}
use kt_cloud_operator.Runtime.Calls.{Error, History}
use kt_cloud_operator.Runtime.Env.{Env, value}
use kt_cloud_operator.Runtime.Effects.{
  Run, ok, err, panic, exit, M, continue, perform, lift, pure, catch, ◌>>=◌,
}
use kt_cloud_operator.Runtime.Steps.{>>=-eq_ok, pure-eq_ok}

-- Every value that `m` returns without an error is `x`.
abbrev Always : {A : Type 0} → A → M A → Type 0
Always {A} x m = (h : History) (r : A) (h' : History) → m h ≡ ok r h' → r ≡ x

module _ {A B : Type 0} (x : B) where
  Always-bind : (m : M A) (f : A → M B) → ((a : A) → Always x (f a)) → Always x (m >>= f)
  Always-bind m f always h r h' e =
      let (a, h₁, _, rest) = >>=-eq_ok {A = A} m f h e in always a h₁ r h' rest

  continue-Always :
      (run : Run A) (f : A → M B) (g : Error → M B)
      → ((a : A) → Always x (f a))
      → ((e : Error) → Always x (g e))
      → (r : B) (h' : History) → continue run f g ≡ ok r h'
      → r ≡ x
  continue-Always (ok a h) f g good bad r h' e = good a h r h' e
  continue-Always (err y h) f g good bad r h' e = bad y h r h' e
  continue-Always (panic s h) f g good bad r h' e = cc
  continue-Always (exit h) f g good bad r h' e = cc

  Always-catch :
      (m : M A) (f : A → M B) (g : Error → M B)
      → ((a : A) → Always x (f a))
      → ((e : Error) → Always x (g e))
      → Always x (catch m f g)
  unfolding catch
  Always-catch m f g good bad h r h' e = continue-Always (m h) f g good bad r h' e

requeues : Always (requeue 60) (pure (requeue 60))
requeues h r h' e = sym (pure-eq_ok _ h e).0

reconcile_machine-requeues :
    (env : Env) (m : KtMachine) → Always (requeue 60) (reconcile_machine env m)
unfolding reconcile_machine
reconcile_machine-requeues env m =
    Always-catch _ (get_subject_token env m) _ _
      (λ token. elim (Bool-cases (token.spec.subject_token == "")) [
        | inl empty ↦ rw empty requeues
        | inr given ↦ rw given (
            Always-bind _ (get_machine_associated_cluster env m) _ (λ cluster.
              Always-bind _ (reconcile_infrastructure env m cluster token.spec.subject_token) _
                (λ _. requeues)))
      ])
      (λ _. requeues)

-- A machine is looked at again after a minute: where the reconciler has read the machine and
-- returns no error, it asks to run again in 60 seconds.
pub reconcile-requeues :
    (env : Env) (key : NamespacedName) (m : KtMachine) (h : History) {r : CtrlResult} {h' : History}
    → env.get_machine h key ≡ value m
    → reconcile env key h ≡ ok r h'
    → r ≡ requeue 60
unfolding reconcile catch perform lift
reconcile-requeues env key m h {r} {h'} read e =
    reconcile_machine-requeues env m _ r h' (rw read at e)
