-- ===== src/Httpapi/Networks/External.antt =====
-- Which network and which address a firewall rule is for.
use kt_cloud_operator.Common.{
  String, ◌≡◌, ◌∙◌, refl, Bool, true, false, ◌||◌, List, [], ◌∷◌, ◌++◌, All, ◌==◌,
}
use kt_cloud_operator.Httpapi.Types.{NetworkData}
use kt_cloud_operator.Httpapi.Networks.{external_network_id, find_by_name, network_not_found}
use kt_cloud_operator.Runtime.Calls.{History}
use kt_cloud_operator.Runtime.Effects.{ok, err, pure, throw}

-- The two tests that make a network an external one.
abbrev pub is_external : NetworkData → Bool
is_external network = network.name == "external" || network.type == "UNTRUST"

-- The loop over the networks keeps the first external one's identifier: none before it is external.
pub external_network_id-first :
    (before : List NetworkData) (network : NetworkData) (after : List NetworkData)
    → All (λ n. is_external n ≡ false) before
    → is_external network ≡ true
    → external_network_id (before ++ network ∷ after) ≡ network.id
unfolding external_network_id
external_network_id-first [] network after others found = rw found
external_network_id-first (n ∷ before) network after others found =
    rw others.0 (external_network_id-first before network after others.1 found)

find_by_name-passes :
    (name : String) (before networks : List NetworkData) (h : History)
    → All (λ n. (n.name == name) ≡ false) before
    → find_by_name name (before ++ networks) h ≡ find_by_name name networks h
unfolding find_by_name
find_by_name-passes name [] networks h others = refl
find_by_name-passes name (n ∷ before) networks h others =
    rw others.0 (find_by_name-passes name before networks h others.1)

-- A network is found by its exact name: in a list of networks, none of which has the name, the
-- search ends with the error that names it, and where a network with the name and any others follow,
-- that network is returned.
find_by_name-first :
    (name : String) (before : List NetworkData) (network : NetworkData) (after : List NetworkData)
    (h : History)
    → All (λ n. (n.name == name) ≡ false) before
    → (network.name == name) ≡ true
    → (find_by_name name (before ++ []) h ≡ err (network_not_found name) h)
      × (find_by_name name (before ++ network ∷ after) h ≡ ok network h)
unfolding find_by_name throw pure
find_by_name-first name before network after h others found = (
  find_by_name-passes name before [] h others,
  find_by_name-passes name before (network ∷ after) h others ∙ rw found,
)
