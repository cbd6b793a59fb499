-- ===== src/Api/Registration.antt =====
-- api/v1beta1/groupversion_info.go, and the `init` of each of the files *_types.go: the types of the
-- group, and how they are added to a scheme.
use kt_cloud_operator.Common.{String, ◌<>◌, List, [], ◌∷◌, ◌++◌}

-- The kinds of the group's resources.
pub data Resource : Type 0 where
  cluster kt_cluster kt_machine kt_machine_template kt_network_firewall : Resource
  kt_public_network kt_subject_token kubeadm_config_template kubeadm_control_plane : Resource
  machine_deployment : Resource

-- `runtime.Object`, of the group: a resource, or a list of such.
pub data ObjectType : Type 0 where
  object list_of : Resource → ObjectType

-- The name of the Go type, under which the scheme has it.
unfoldable pub resource_kind : Resource → String
resource_kind Resource.cluster = "Cluster"
resource_kind Resource.kt_cluster = "KTCluster"
resource_kind Resource.kt_machine = "KTMachine"
resource_kind Resource.kt_machine_template = "KTMachineTemplate"
resource_kind Resource.kt_network_firewall = "KTNetworkFirewall"
resource_kind Resource.kt_public_network = "KTPublicNetwork"
resource_kind Resource.kt_subject_token = "KTSubjectToken"
resource_kind Resource.kubeadm_config_template = "KubeadmConfigTemplate"
resource_kind Resource.kubeadm_control_plane = "KubeadmControlPlane"
resource_kind Resource.machine_deployment = "MachineDeployment"

unfoldable pub kind : ObjectType → String
unfolding resource_kind
kind (ObjectType.object r) = resource_kind r
kind (ObjectType.list_of r) = resource_kind r <> "List"

abbrev pub init_cluster : List ObjectType → List ObjectType
init_cluster types =
    types ++ ObjectType.object Resource.cluster ∷ ObjectType.list_of Resource.cluster ∷ []

abbrev pub init_kt_cluster : List ObjectType → List ObjectType
init_kt_cluster types =
    types ++ ObjectType.object Resource.kt_cluster ∷ ObjectType.list_of Resource.kt_cluster ∷ []

abbrev pub init_kt_machine : List ObjectType → List ObjectType
init_kt_machine types =
    types ++ ObjectType.object Resource.kt_machine ∷ ObjectType.list_of Resource.kt_machine ∷ []

abbrev pub init_kt_machine_template : List ObjectType → List ObjectType
init_kt_machine_template types =
    types
    ++ ObjectType.object Resource.kt_machine_template
      ∷ ObjectType.list_of Resource.kt_machine_template
      ∷ []

abbrev pub init_kt_network_firewall : List ObjectType → List ObjectType
init_kt_network_firewall types =
    types
    ++ ObjectType.object Resource.kt_network_firewall
      ∷ ObjectType.list_of Resource.kt_network_firewall
      ∷ []

abbrev pub init_kt_public_network : List ObjectType → List ObjectType
init_kt_public_network types =
    types
    ++ ObjectType.object Resource.kt_public_network
      ∷ ObjectType.list_of Resource.kt_public_network
      ∷ []

abbrev pub init_kt_subject_token : List ObjectType → List ObjectType
init_kt_subject_token types =
    types
    ++ ObjectType.object Resource.kt_subject_token
      ∷ ObjectType.list_of Resource.kt_subject_token
      ∷ []

abbrev pub init_kubeadm_config_template : List ObjectType → List ObjectType
init_kubeadm_config_template types =
    types
    ++ ObjectType.object Resource.kubeadm_config_template
      ∷ ObjectType.list_of Resource.kubeadm_config_template
      ∷ []

abbrev pub init_kubeadm_control_plane : List ObjectType → List ObjectType
init_kubeadm_control_plane types =
    types
    ++ ObjectType.object Resource.kubeadm_control_plane
      ∷ ObjectType.list_of Resource.kubeadm_control_plane
      ∷ []

abbrev pub init_machine_deployment : List ObjectType → List ObjectType
init_machine_deployment types =
    types
    ++ ObjectType.object Resource.machine_deployment
      ∷ ObjectType.list_of Resource.machine_deployment
      ∷ []

-- The variable once the package is initialised: Go runs the `init` of the files in the order of their
-- names.
unfoldable pub object_types : List ObjectType
object_types = init_machine_deployment (
    init_kubeadm_control_plane (
      init_kubeadm_config_template (
        init_kt_subject_token (
          init_kt_public_network (
            init_kt_network_firewall
              (init_kt_machine_template (init_kt_machine (init_kt_cluster (init_cluster [])))))))))

pub record GroupVersion : Type 0 where
  pub group : String
  pub version : String

pub record GroupResource : Type 0 where
  pub group : String
  pub resource : String

abbrev pub group_name : String
group_name = "infrastructure.dcnlab.ssu.ac.kr"

abbrev pub scheme_group_version : GroupVersion
scheme_group_version = record { group = group_name; version = "v1beta1" }

-- `SchemeGroupVersion.WithResource(resource).GroupResource()`
abbrev pub group_resource : String → GroupResource
group_resource resource = record { group = scheme_group_version.group; resource = resource }

-- `addKnownTypes`, over the scheme of apimachinery and its two operations.
unfoldable pub add_known_types :
    {Scheme : Type 0}
    → (Scheme → GroupVersion → List ObjectType → Scheme)
    → (Scheme → GroupVersion → Scheme)
    → Scheme
    → Scheme
add_known_types add add_to_group_version scheme =
    add_to_group_version (add scheme scheme_group_version object_types) scheme_group_version
