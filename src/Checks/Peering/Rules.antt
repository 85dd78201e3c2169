-- ===== src/Checks/Peering/Rules.antt =====
-- The six rules of checks/peering_consistency_check.py.
use infrahub_network_field_d.Base.{
  ℕ, String, Bool, true, false, Option, none, some, List, [], ◌∷◌, map, if◌then◌else◌, ◌==◌, Eq,
  string_eq, nat_eq, option_eq, pair_eq, ltb, str_leb, keep_if, contains, sort, length,
}
use infrahub_network_field_d.Base.Dict.{Dict, get, put}
use infrahub_network_field_d.Base.Groups.{append_to, group}
use infrahub_network_field_d.Base.Members.{each}
use infrahub_network_field_d.Checks.Peering.Schema.{
  Query, Device, ClusterName, Session, Virtual, Service, Cluster, Interface, Endpoint, SviNode,
  Finding, Message, records_other_asn, records_other_address, claims_cluster, is_not_cabled,
  has_other_role, has_no_interface, has_other_addresses, kind_session, kind_service, kind_svi_node,
  fabric_roles,
}

-- A finding on a session.
abbrev pub on_session : Session → Message → List Finding
on_session s m =
    record { message = m; object_id = s.id; object_type = kind_session; is_error = true } ∷ []

-- if device is None: continue
abbrev pub with_device : Option Device → (Device → List Finding) → List Finding
with_device none findings = []
with_device (some device) findings = findings device

-- _value(getattr(node, "...", None)) if node else None
abbrev pub flat {ℓ} : {A : Type ℓ} → Option (Option A) → Option A
flat none = none
flat (some o) = o

-- The finding on a session whose record is not the value that the fabric has, if it has one.
abbrev pub differing {ℓ} :
    {A : Type ℓ} ⦃same : Eq A⦄
    → (authoritative recorded : Option A) → Session
    → (A → Message)
    → List Finding
differing none recorded s message = []
differing (some a) recorded s message = if recorded == some a then [] else on_session s (message a)

-- C-1
unfoldable pub asn_findings : Session → List Finding
asn_findings s =
    with_device s.peer_device
      (λ device. differing (flat device.asn) s.peer_asn s (records_other_asn s))

unfoldable pub check_asn_matches_device : Query → List Finding
unfolding asn_findings
check_asn_matches_device parsed = each asn_findings parsed.cluster_fabric_peering

-- _svis_by_device
unfoldable pub svis_by_device :
    Dict String (List Virtual) → List Virtual → Dict String (List Virtual)
svis_by_device d [] = d
svis_by_device d (v ∷ vs) = elim v.device [
  | none ↦ svis_by_device d vs
  | some device ↦ svis_by_device (append_to d device v) vs
]

abbrev only_address : List (Option String) → Option String
only_address [] = none
only_address (a ∷ []) = a
only_address (a ∷ b ∷ as') = none

abbrev address_of_only : List Virtual → Option String
address_of_only [] = none
address_of_only (v ∷ []) = only_address v.ip_addresses
address_of_only (v ∷ w ∷ vs) = none

-- _peering_address
unfoldable pub peering_address : List Virtual → Option String
peering_address svis = address_of_only (keep_if (λ (v : Virtual). v.role == some "peering") svis)

-- C-2
unfoldable pub address_findings : Dict String (List Virtual) → Session → List Finding
unfolding peering_address
address_findings svis s = with_device s.peer_device (λ device.
    differing (peering_address (group svis device.id)) (flat s.peer_address) s
      (records_other_address s))

unfoldable pub check_address_matches_svi : Query → List Finding
unfolding svis_by_device address_findings
check_address_matches_svi parsed =
    each (address_findings (svis_by_device [] parsed.interface_virtual))
      parsed.cluster_fabric_peering

abbrev pub add_service :
    Dict String (List Service) → Service → Option ClusterName → Dict String (List Service)
add_service d s none = d
add_service d s (some cluster) = append_to d cluster.id s

-- The services by their clusters.
unfoldable pub by_cluster : Dict String (List Service) → List Service → Dict String (List Service)
by_cluster d [] = d
by_cluster d (s ∷ ss) = by_cluster (add_service d s s.cluster) ss

-- str(value)
abbrev text_of : Option String → String
text_of none = "None"
text_of (some t) = t

unfoldable pub claim : List Service → Service → Finding
unfolding sort
claim services s = record {
  message =
      claims_cluster s (length services)
        (sort str_leb (map (λ (t : Service). text_of t.name) services));
  object_id = s.id;
  object_type = kind_service;
  is_error = true;
}

-- C-3, for the services of one cluster
unfoldable pub service_findings : String × List Service → List Finding
unfolding claim
service_findings (cluster, services) =
    if ltb (length services) 2 then [] else map (claim services) services

unfoldable pub check_one_service_per_cluster : Query → List Finding
unfolding by_cluster service_findings claim
check_one_service_per_cluster parsed =
    each service_findings (by_cluster [] parsed.service_fabric_peering)

-- The devices at the other ends of one interface's link.
abbrev far_devices : String → List Endpoint → List String
far_devices near [] = []
far_devices near (e ∷ es) =
    let rest = far_devices near es in
    if e.id == near then rest else elim e.device [ none ↦ rest | some device ↦ device ∷ rest ]

abbrev linked_devices : Interface → List String
linked_devices i = elim i.connector [ none ↦ [] | some endpoints ↦ far_devices i.id endpoints ]

unfoldable pub reachable_devices : Cluster → List String
reachable_devices c = each (λ is. each linked_devices is) c.nodes

-- _cabled_devices_by_cluster
unfoldable pub cabled_devices : Dict String (List String) → List Cluster → Dict String (List String)
unfolding reachable_devices
cabled_devices d [] = d
cabled_devices d (c ∷ cs) = cabled_devices (put d c.id (reachable_devices c)) cs

-- C-4
unfoldable pub cabling_findings : Dict String (List String) → Session → List Finding
cabling_findings cabled s = elim s.cluster [
  | none ↦ []
  | some cluster ↦ elim s.peer_device [
    | none ↦ []
    | some device ↦ elim (get cabled cluster.id) [
      | none ↦ []
      | some reachable ↦ if contains reachable device.id then [] else on_session s (is_not_cabled s)
    ]
  ]
]

unfoldable pub check_peer_is_cabled : Query → List Finding
unfolding cabled_devices cabling_findings
check_peer_is_cabled parsed =
    each (cabling_findings (cabled_devices [] parsed.cluster_kubernetes))
      parsed.cluster_fabric_peering

abbrev pub off_role : Option String → Session → List Finding
off_role none s = []
off_role (some role) s =
    if contains fabric_roles role then [] else on_session s (has_other_role s role)

-- C-5
unfoldable pub role_findings : Session → List Finding
role_findings s = with_device s.peer_device (λ device. off_role device.role s)

unfoldable pub check_peer_role : Query → List Finding
unfolding role_findings
check_peer_role parsed = each role_findings parsed.cluster_fabric_peering

abbrev pub ByVlan : Type 0
ByVlan = Dict (String × Option ℕ) (List String)

-- The addresses that are not empty.
abbrev filled : List (Option String) → List String
filled [] = []
filled (none ∷ as') = filled as'
filled (some a ∷ as') = let rest = filled as' in if a == "" then rest else a ∷ rest

-- by_device_vlan
unfoldable pub by_device_vlan : ByVlan → List Virtual → ByVlan
by_device_vlan d [] = d
by_device_vlan d (v ∷ vs) = elim v.device [
  | none ↦ by_device_vlan d vs
  | some device ↦ elim v.dot_1_q_id [
    | none ↦ by_device_vlan d vs
    | some vlan ↦ by_device_vlan (put d (device, some vlan) (filled v.ip_addresses)) vs
  ]
]

abbrev on_node : SviNode → Message → Bool → List Finding
on_node n m is_error =
    record { message = m; object_id = n.id; object_type = kind_svi_node; is_error = is_error } ∷ []

-- C-6 and C-7, on the addresses of the matching virtual interface
abbrev recorded_findings : SviNode → String → Option (List String) → List Finding
recorded_findings n recorded none = on_node n (has_no_interface n) false
recorded_findings n recorded (some addresses) =
    if contains addresses recorded then [] else on_node n (has_other_addresses n addresses) true

unfoldable pub node_findings : ByVlan → SviNode → List Finding
node_findings vlans n = elim n.device [
  | none ↦ []
  | some device ↦ elim n.svi [
    | none ↦ []
    | some vlan ↦ elim n.ip_address [
      | none ↦ []
      | some recorded ↦ recorded_findings n recorded (get vlans (device.id, vlan))
    ]
  ]
]

unfoldable pub check_svi_node_agreement : Query → List Finding
unfolding by_device_vlan node_findings
check_svi_node_agreement parsed =
    each (node_findings (by_device_vlan [] parsed.interface_virtual)) parsed.evpn_svi_node
