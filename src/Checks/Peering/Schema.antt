-- ===== src/Checks/Peering/Schema.antt =====
-- What checks/peering_consistency_check.py reads, with its findings. An edge without a node is
-- left out, a relationship that is missing is one without edges, and a number is at least 0.
use infrahub_network_field_d.Base.{ℕ, String, Bool, Option, List, [], ◌∷◌}

pub record Device : Type 0 where
  pub id : String
  pub display_label : Option String
  -- the node of its `asn`, with the number that it has
  pub asn : Option (Option ℕ)
  pub role : Option String

pub record ClusterName : Type 0 where
  pub id : String
  pub name : Option String

pub record Session : Type 0 where
  pub id : String
  pub name : Option String
  pub peer_device : Option Device
  pub cluster : Option ClusterName
  pub peer_asn : Option ℕ
  pub peer_address : Option (Option String)

pub record Virtual : Type 0 where
  pub device : Option String
  pub role : Option String
  pub dot_1_q_id : Option ℕ
  pub ip_addresses : List (Option String)

pub record Service : Type 0 where
  pub id : String
  pub name : Option String
  pub cluster : Option ClusterName

pub record Endpoint : Type 0 where
  pub id : String
  pub device : Option String

pub record Interface : Type 0 where
  pub id : String
  pub connector : Option (List Endpoint)

pub record Cluster : Type 0 where
  pub id : String
  pub nodes : List (List Interface)

pub record SviNode : Type 0 where
  pub id : String
  pub device : Option Device
  -- the VLAN of the SVI that it names
  pub svi : Option (Option ℕ)
  pub ip_address : Option String

pub record Query : Type 0 where
  pub cluster_fabric_peering : List Session
  pub interface_virtual : List Virtual
  pub service_fabric_peering : List Service
  pub cluster_kubernetes : List Cluster
  pub evpn_svi_node : List SviNode

-- A message, by the values that its text is made of.
pub data Message : Type 0 where
  records_other_asn : Session → (authoritative : ℕ) → Message
  records_other_address : Session → (expected : String) → Message
  claims_cluster : Service → (services : ℕ) → (names : List String) → Message
  is_not_cabled : Session → Message
  has_other_role : Session → (role : String) → Message
  has_no_interface : SviNode → Message
  has_other_addresses : SviNode → (addresses : List String) → Message

pub record Finding : Type 0 where
  pub message : Message
  pub object_id : String
  pub object_type : String
  pub is_error : Bool

abbrev pub kind_session : String
kind_session = "ClusterFabricPeering"

abbrev pub kind_service : String
kind_service = "ServiceFabricPeering"

abbrev pub kind_svi_node : String
kind_svi_node = "EvpnSviNode"

abbrev pub fabric_roles : List String
fabric_roles = "leaf" ∷ "border_leaf" ∷ "l2leaf" ∷ []
