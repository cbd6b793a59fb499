-- ===== src/Controller/Lifecycle/Secrets.antt =====
-- The secret that cmd/httpapi/helpers.go makes, as a triple.
use kt_cloud_operator.Common.{String, ◌≡◌, refl, false}
use kt_cloud_operator.Api.{KtMachine, KtCluster}
use kt_cloud_operator.Httpapi.Kubeconfigs.{fetch_and_create_kubeconfig_secret, kubeconfig_secret}
use kt_cloud_operator.Httpapi.Plain
use kt_cloud_operator.Httpapi.Plain.{alters}
use kt_cloud_operator.Controller.Lifecycle.{HasKubeconfig}
use kt_cloud_operator.Runtime.Calls.{Object, Call, History, create}
use kt_cloud_operator.Runtime.Env.{Env}
use kt_cloud_operator.Runtime.Effects.{perform_check}
use kt_cloud_operator.Runtime.Keeps.{Allows, Keeps-first, Keeps-catch, Keeps-pure}
use kt_cloud_operator.Runtime.Hoare.{
  Triple, Triple-perform_check, Triple-throw, Triple-catch, Triple-after_Keeps, Triple-of_Keeps,
}

module _ (env : Env) (c : KtCluster) (P : History → Type 0)
    (safe : (c : Call) → alters c ≡ false → Allows P c) where
  abbrev With : History → Type 0
  With h = P h × HasKubeconfig env c h

  With-Allows : (c : Call) → alters c ≡ false → Allows With c
  With-Allows call e h (p, q) = (safe call e h p, HasKubeconfig.later q)

  create_secret-Triple :
      (text : String)
      → Triple P
          (λ (_ : Unit {0}). With)
          P
          (perform_check
            (create (Object.secret (kubeconfig_secret c text)))
            (λ h. env.create h (Object.secret (kubeconfig_secret c text))))
  create_secret-Triple text =
      Triple-perform_check _ _ (λ h e p. (safe _ refl h p, HasKubeconfig.accepted text e))
        (λ h x e p. safe _ refl h p)

  pub fetch_and_create-Triple :
      (m : KtMachine)
      → Triple P (λ (_ : Unit {0}). With) P (fetch_and_create_kubeconfig_secret env m c)
  unfolding fetch_and_create_kubeconfig_secret
  fetch_and_create-Triple m =
      Triple-after_Keeps (Keeps-first _) (λ h p. p)
        (λ ip.
          Triple-after_Keeps (Plain.Keeps-fetch_kubeconfig P safe env _ _ _) (λ h p. p)
            (λ fetched.
              Triple-after_Keeps (Plain.Keeps-fetched_data P safe env _ _ _) (λ h p. p)
                (λ text.
                  Triple-catch (create_secret-Triple text)
                    (λ _.
                      Triple-of_Keeps
                        (Keeps-catch _ _ _
                          (Plain.Keeps-change_kubeconfig_domain With With-Allows env _ _ _)
                          (λ _. Keeps-pure _) (λ _. Keeps-pure _))
                        (λ a h p. p) (λ h p. p.0))
                    (λ e. Triple-throw _ (λ h p. p)))))
