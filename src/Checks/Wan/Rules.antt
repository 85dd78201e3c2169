-- ===== src/Checks/Wan/Rules.antt =====
-- The rules of checks/wan_service_check.py about isolation, rules 1 to 4.
use infrahub_network_field_d.Base.{
  String, Option, none, some, List, [], ◌∷◌, ◌++◌, map, if◌then◌else◌, ◌==◌, string_eq, ltb,
  str_leb, keep_if, sort, length,
}
use infrahub_network_field_d.Base.Dict.{Dict}
use infrahub_network_field_d.Base.Groups.{append_to}
use infrahub_network_field_d.Base.Members.{each}
use infrahub_network_field_d.Checks.Wan.Schema.{
  Query, Named, Zone, Circuit, L3vpn, Cloud, Finding, Message, foreign_circuit, shared_vrf,
  other_zone, shared_peer, kind_l3vpn, kind_cloud,
}

abbrev pub finding : String → String → Message → Finding
finding kind id m = record { message = m; object_id = id; object_type = kind }

-- Rule 1
abbrev pub circuit_finding : L3vpn → Circuit → Option Named → Option Named → List Finding
circuit_finding vpn circuit none owner = []
circuit_finding vpn circuit (some tenant) none = []
circuit_finding vpn circuit (some tenant) (some owner) =
    if owner.id == tenant.id
    then []
    else finding kind_l3vpn vpn.id (foreign_circuit vpn circuit) ∷ []

abbrev pub circuit_findings : L3vpn → List Finding
circuit_findings vpn =
    each (λ (c : Circuit). circuit_finding vpn c vpn.tenant c.tenant) vpn.circuits

unfoldable pub check_circuit_membership : Query → List Finding
check_circuit_membership parsed = each circuit_findings parsed.service_l3vpn

-- A peer's name with the service that names the peer.
pub record Claim : Type 0 where
  pub peer_name : String
  pub service_id : String
  pub service_name : String

-- `name or id`
abbrev pub name_or : Option String → String → String
name_or none id = id
name_or (some name) id = if name == "" then id else name

-- _shared
unfoldable pub grouped : Dict String (List Claim) → List (String × Claim) → Dict String (List Claim)
grouped d [] = d
grouped d ((peer, claim) ∷ pairs) = grouped (append_to d peer claim) pairs

unfoldable pub shared : List (String × Claim) → Dict String (List Claim)
unfolding grouped
shared pairs = keep_if (λ entry. ltb 1 (length entry.1)) (grouped [] pairs)

abbrev pub first_peer : List Claim → String
first_peer [] = ""
first_peer (c ∷ cs) = c.peer_name

abbrev pub service_names : List Claim → List String
service_names = map (λ (c : Claim). c.service_name)

-- The findings on the services that name one peer.
abbrev pub shared_findings :
    String → (String → List String → Message) → String × List Claim → List Finding
shared_findings kind message (peer, claims) =
    map
      (λ (c : Claim).
        finding kind c.service_id (message (first_peer claims) (service_names claims)))
      claims

unfoldable pub exclusive :
    String → (String → List String → Message) → List (String × Claim) → List Finding
unfolding shared sort
exclusive kind message pairs =
    each (shared_findings kind message) (sort (λ a b. str_leb a.0 b.0) (shared pairs))

abbrev pub claim_of :
    (peer : Option Named) (id : String) (name : Option String) → List (String × Claim)
claim_of none id name = []
claim_of (some peer) id name =
    (
      peer.id,
      record {
        peer_name = name_or peer.name peer.id;
        service_id = id;
        service_name = name_or name id;
      },
    )
    ∷ []

-- Rule 2
abbrev pub vpn_pairs : List L3vpn → List (String × Claim)
vpn_pairs = each (λ (v : L3vpn). claim_of v.vrf v.id v.name)

unfoldable pub check_exclusive_vrfs : Query → List Finding
unfolding exclusive
check_exclusive_vrfs parsed = exclusive kind_l3vpn shared_vrf (vpn_pairs parsed.service_l3vpn)

-- Rule 3
abbrev pub zone_vrf : Option Zone → Option Named
zone_vrf none = none
zone_vrf (some zone) = zone.vrf

abbrev pub zone_finding : Cloud → Option Named → Option Named → List Finding
zone_finding cloud none governed = []
zone_finding cloud (some vrf) none = []
zone_finding cloud (some vrf) (some governed) =
    if governed.id == vrf.id then [] else finding kind_cloud cloud.id (other_zone cloud) ∷ []

abbrev pub zone_findings : Cloud → List Finding
zone_findings cloud = zone_finding cloud cloud.vrf (zone_vrf cloud.zone)

unfoldable pub check_cloud_zone_matches_vrf : Query → List Finding
check_cloud_zone_matches_vrf parsed = each zone_findings parsed.service_tenant_cloud

-- Rule 4
abbrev pub zone_named : Option Zone → Option Named
zone_named none = none
zone_named (some zone) = some (record { id = zone.id; name = zone.name })

abbrev pub cloud_vrf_pairs : List Cloud → List (String × Claim)
cloud_vrf_pairs = each (λ (c : Cloud). claim_of c.vrf c.id c.name)

abbrev pub cloud_zone_pairs : List Cloud → List (String × Claim)
cloud_zone_pairs = each (λ (c : Cloud). claim_of (zone_named c.zone) c.id c.name)

unfoldable pub check_exclusive_clouds : Query → List Finding
unfolding exclusive
check_exclusive_clouds parsed =
    exclusive kind_cloud (shared_peer "VRF") (cloud_vrf_pairs parsed.service_tenant_cloud)
    ++ exclusive kind_cloud (shared_peer "firewall zone")
        (cloud_zone_pairs parsed.service_tenant_cloud)
