-- ===== src/Controller/Fleet/Deployments.antt =====
-- What the passes of the whole operator are for one deployment.
use text.Mathlib.TextEquality.{eq_iff}
use kt_cloud_operator.Common.{
  ℕ, &&-other, String, ◌≡◌, refl, ◌∙◌, ap, true, false, ◌==◌, Bool-cases, inl, inr, ◌∷◌, Option,
  none, some,
}
use kt_cloud_operator.Api.{
  ObjectMeta, NamespacedName, KtMachine, KtMachineTemplate, MachineDeployment,
}
use kt_cloud_operator.Api.Registration.{Resource}
use kt_cloud_operator.Controller.MachineDeployments as MachineDeployments
use kt_cloud_operator.Controller.MachineDeployments.{
  deployment_key, is_owned, new_machine, create_machine, create_replica,
}
use kt_cloud_operator.Controller.MachineDeployments.Replicas.{Keeps-random_string}
use kt_cloud_operator.Controller.MachineDeployments.Inventory.{
  Inventory, owned_by, owned, owned-create,
}
use kt_cloud_operator.Controller.MachineDeployments.Bounds.{Deploys}
use kt_cloud_operator.Controller.Scaffolds.{
  reconcile_kt_network_firewall, reconcile_kt_public_network, reconcile_kubeadm_config_template,
  reconcile_kubeadm_control_plane,
}
use kt_cloud_operator.Controller.Fleet.{Fleet, reconcile_kind}
use kt_cloud_operator.Controller.Fleet.Others
use kt_cloud_operator.Controller.Fleet.Neighbours.{
  Neighbours, Idle, Deploys-Idle, unwritten-Idle, machine_pass-Idle,
}
use kt_cloud_operator.Controller.Fleet.Machines.{is_same, key_of_same}
use kt_cloud_operator.Runtime.Calls.{Error, History, Object, create, machine}
use kt_cloud_operator.Runtime.Env.{Env, value}
use kt_cloud_operator.Runtime.Effects.{pure, history}
use kt_cloud_operator.Runtime.Keeps.{Keeps, keeps_rules, Keeps-perform_check}
use kt_cloud_operator.Runtime.Hoare.{
  Keeps-of_Triple, Triple-catch, Triple-perform, Triple-lift, Triple-bind, Triple-fact,
  Triple-of_Keeps, Triple-after_Keeps,
}

module _ (env : Env) (key : NamespacedName) (laws : Inventory env key)
    (beside : Neighbours env key laws) where
  abbrev Still : History → History → Type 0
  Still = Idle env key laws

  -- The passes over other deployments.
  module _ (own : NamespacedName) (apart : is_same own key ≡ false) where
    -- What the metadata of another deployment's machine are.
    abbrev Foreign : ObjectMeta → Type 0
    Foreign meta =
        (meta.namespace ≡ own.namespace)
        × ((own.name == key.name) ≡ false → is_owned key.name meta.owner_references ≡ false)

    names_apart : (own.namespace == key.namespace) ≡ true → (own.name == key.name) ≡ false
    names_apart here = &&-other (own.name == key.name) (own.namespace == key.namespace) apart here

    answered_there :
        (m : KtMachine) (h : History) (answer : Option Error)
        → env.create h (machine m) ≡ answer
        → Foreign m.meta
        → (m.meta.namespace == key.namespace) ≡ true
        → owned env key laws (create (machine m) ∷ h) ≡ owned env key laws h
    answered_there m h none accepted (namespace, other) here =
        owned-create env key laws m h accepted ((eq_iff m.meta.namespace key.namespace).0 here)
        ∙ rw (other (names_apart (rw namespace at here))) refl
    answered_there m h (some e) refused foreign here =
        ap (λ l. owned_by key.name l) (laws.refused h m e refused)

    created_there :
        (m : KtMachine) (h : History)
        → Foreign m.meta
        → owned env key laws (create (machine m) ∷ h) ≡ owned env key laws h
    created_there m h foreign = elim (Bool-cases (m.meta.namespace == key.namespace)) [
      | inl here ↦ answered_there m h _ refl foreign here
      | inr there ↦ ap (λ l. owned_by key.name l) (beside.elsewhere m h there)
    ]

    reference-Foreign :
        (d : MachineDeployment) (t : KtMachineTemplate) (i : ℕ) (name : String) (meta : ObjectMeta)
        → deployment_key d ≡ own
        → env.set_controller_reference (Object.deployment d) (new_machine d t i name).meta
          ≡ value meta
        → Foreign meta
    unfolding new_machine is_owned
    reference-Foreign d t i name meta same answer =
        let (there, others) = beside.owners d _ meta answer in
        (
          there ∙ ap (λ k. k.namespace) same,
          λ other. others key.name (ap (λ k. k.name == key.name) same ∙ other),
        )

    Keeps-other_replica :
        (h : History) (d : MachineDeployment)
        → deployment_key d ≡ own
        → (t : KtMachineTemplate) (i : ℕ) → Keeps (Still h) (create_replica env d t i)
    unfolding create_replica create_machine
    Keeps-other_replica h d same t i = Keeps-of_Triple (
        Triple-after_Keeps
          (Keeps-random_string (Still h) (λ n k idle. unwritten-Idle env key laws h _ refl k idle)
            env 10)
          (λ k idle. idle)
          (λ suffix.
            Triple-bind
              (Triple-lift {Q = λ meta k. Still h k × Foreign meta} _
                (λ meta k answer idle. (idle, reference-Foreign d t i _ meta same answer))
                (λ k idle. idle))
              (λ meta. Triple-fact (λ foreign.
                Triple-of_Keeps
                  (Keeps-perform_check _ _ (λ k idle. Idle.call (created_there _ k foreign) idle))
                  (λ a k idle. idle) (λ k idle. idle)))))

    deployment_pass-Idle :
        (h : History) → Still h (history (MachineDeployments.reconcile env own h))
    unfolding MachineDeployments.reconcile
    deployment_pass-Idle h =
        let quiet = unwritten-Idle env key laws h in
        (Keeps-of_Triple {m = MachineDeployments.reconcile env own} (
            Triple-catch
              (Triple-perform {Q = λ d k. Still h k × (deployment_key d ≡ own)} _ _
                (λ k d answer idle. (quiet _ refl k idle, beside.by_key k own d answer))
                (λ k idle. quiet _ refl k idle))
              (λ d. Triple-fact (λ same.
                Triple-of_Keeps
                  (Others.Keeps-reconcile_deployment (Still h) quiet env d
                    (Keeps-other_replica h d same))
                  (λ a k idle. idle) (λ k idle. idle)))
              (λ e. Triple-of_Keeps (search keeps_rules) (λ a k idle. idle) (λ k idle. idle)))).at
          h Idle.start

  deployment_pass :
      (own : NamespacedName) {h h' : History}
      → Deploys env key laws h h'
      → Deploys env key laws h (history (MachineDeployments.reconcile env own h'))
  deployment_pass own {h} {h'} deploys = elim (Bool-cases (is_same own key)) [
    | inl same ↦ rw (key_of_same own key same) (Deploys.pass deploys)
    | inr apart ↦ Deploys-Idle env key laws deploys (deployment_pass-Idle own apart h')
  ]

  kind_pass :
      (kind : Resource) (own : NamespacedName) {h h' : History}
      → Deploys env key laws h h'
      → Deploys env key laws h (history (reconcile_kind env kind own h'))
  unfolding reconcile_kt_network_firewall reconcile_kt_public_network
      reconcile_kubeadm_config_template reconcile_kubeadm_control_plane pure
  kind_pass Resource.cluster own {h' = k} deploys = Deploys-Idle env key laws deploys (
      (Others.Keeps-cluster_reconcile (Still k) (unwritten-Idle env key laws k) env own).at k
        Idle.start)
  kind_pass Resource.kt_cluster own {h' = k} deploys = Deploys-Idle env key laws deploys (
      (Others.Keeps-kt_cluster_reconcile (Still k) (unwritten-Idle env key laws k) env own).at k
        Idle.start)
  kind_pass Resource.kt_machine own {h' = k} deploys =
      Deploys-Idle env key laws deploys (machine_pass-Idle env key laws beside own k)
  kind_pass Resource.kt_machine_template own {h' = k} deploys = Deploys-Idle env key laws deploys (
      (Others.Keeps-template_reconcile (Still k) (unwritten-Idle env key laws k) env own).at k
        Idle.start)
  kind_pass Resource.kt_network_firewall own deploys = deploys
  kind_pass Resource.kt_public_network own deploys = deploys
  kind_pass Resource.kt_subject_token own {h' = k} deploys = Deploys-Idle env key laws deploys (
      (Others.Keeps-subject_token_reconcile (Still k) (unwritten-Idle env key laws k) env own).at k
        Idle.start)
  kind_pass Resource.kubeadm_config_template own deploys = deploys
  kind_pass Resource.kubeadm_control_plane own deploys = deploys
  kind_pass Resource.machine_deployment own deploys = deployment_pass own deploys

  -- For one deployment, the whole operator is its own reconciler: any number of passes of the ten
  -- reconcilers, over any objects and in any order, and of calls of others that leave the number of
  -- its machines alone, are a number of passes over this deployment and of calls that leave that
  -- number alone. The API server reads its writes, stores nothing of a creation that it refuses,
  -- keeps the machines of each namespace apart and reads deployments under their keys, a status
  -- write changes no owner and is answered with what was sent, and `SetControllerReference` names
  -- the owner that it is given.
  pub Fleet-Deploys :
      {h h' : History}
      → Fleet env (λ c k. owned env key laws (c ∷ k) ≡ owned env key laws k) h h'
      → Deploys env key laws h h'
  Fleet-Deploys Fleet.start = Deploys.start
  Fleet-Deploys (Fleet.pass kind own fleet) = kind_pass kind own (Fleet-Deploys fleet)
  Fleet-Deploys (Fleet.other c same fleet) = Deploys.other c same (Fleet-Deploys fleet)
