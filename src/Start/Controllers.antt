-- ===== src/Start/Controllers.antt =====
-- The controllers of internal/controller as their `SetupWithManager` registers them.
use kt_cloud_operator.Common.{String, List, [], ◌∷◌}
use kt_cloud_operator.Api.Registration.{Resource}

-- A controller's own kind, the kinds whose objects it owns, and its name.
pub record Controller : Type 0 where
  pub watches : Resource
  pub owns : List Resource
  pub named : String

abbrev pub setup_kt_machine_template : Controller
setup_kt_machine_template = record {
  watches = Resource.kt_machine_template;
  owns = Resource.machine_deployment ∷ [];
  named = "ktmachinetemplate";
}

abbrev pub setup_kt_cluster : Controller
setup_kt_cluster = record {
  watches = Resource.kt_cluster;
  owns = Resource.kt_subject_token ∷ Resource.kt_machine_template ∷ [];
  named = "ktcluster";
}

abbrev pub setup_cluster : Controller
setup_cluster = record {
  watches = Resource.cluster;
  owns = Resource.kt_cluster ∷ Resource.machine_deployment ∷ [];
  named = "cluster";
}

abbrev pub setup_kubeadm_config_template : Controller
setup_kubeadm_config_template = record {
  watches = Resource.kubeadm_config_template;
  owns = [];
  named = "kubeadmconfigtemplate";
}

abbrev pub setup_kubeadm_control_plane : Controller
setup_kubeadm_control_plane = record {
  watches = Resource.kubeadm_control_plane;
  owns = [];
  named = "kubeadmcontrolplane";
}

abbrev pub setup_machine_deployment : Controller
setup_machine_deployment = record {
  watches = Resource.machine_deployment;
  owns = Resource.kt_machine ∷ [];
  named = "machinedeployment";
}

abbrev pub setup_kt_subject_token : Controller
setup_kt_subject_token = record {
  watches = Resource.kt_subject_token;
  owns = [];
  named = "ktsubjecttoken";
}

abbrev pub setup_kt_machine : Controller
setup_kt_machine = record {
  watches = Resource.kt_machine;
  owns = Resource.kt_network_firewall ∷ [];
  named = "ktmachine";
}

abbrev pub setup_kt_public_network : Controller
setup_kt_public_network = record {
  watches = Resource.kt_public_network;
  owns = [];
  named = "ktpublicnetwork";
}

abbrev pub setup_kt_network_firewall : Controller
setup_kt_network_firewall = record {
  watches = Resource.kt_network_firewall;
  owns = [];
  named = "ktnetworkfirewall";
}

-- In the order in which the program sets them up.
abbrev pub controllers : List Controller
controllers =
    setup_kt_machine_template ∷ setup_kt_cluster ∷ setup_cluster ∷ setup_kubeadm_config_template
    ∷ setup_kubeadm_control_plane ∷ setup_machine_deployment ∷ setup_kt_subject_token
    ∷ setup_kt_machine ∷ setup_kt_public_network ∷ setup_kt_network_firewall ∷ []
