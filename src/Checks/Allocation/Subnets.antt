-- ===== src/Checks/Allocation/Subnets.antt =====
-- Rule 2 of checks/allocation_consistency_check.py: the subnets of a VRF.
use infrahub_network_field_d.Base.{
  distinct, ℕ, String, Bool, true, false, ◌&&◌, ◌||◌, not, Option, none, some, List, [], ◌∷◌, ◌++◌,
  map, if◌then◌else◌, ◌==◌, string_eq, pair_eq, nat_beq, ltb, str_leb, keep_if, contains, sort,
  is_empty, length,
}
use infrahub_network_field_d.Base.Dict.{Dict, keys}
use infrahub_network_field_d.Base.Groups.{append_to, group}
use infrahub_network_field_d.Base.Members.{each, combinations}
use infrahub_network_field_d.Pools.Prefixes.{Network, overlaps, holds, at_most}
use infrahub_network_field_d.Checks.Allocation.Schema.{
  Query, Readers, Svi, Prefix, Segment, Named, TenantSubnet, Finding, name_or, reference, pair_leb,
  network_of, networks_overlap, kind_prefix, is_recorded_again, subnets_overlap,
}

-- segment_names[subnet].append(name)
unfoldable pub segment_names : Dict String (List String) → List Segment → Dict String (List String)
segment_names d [] = d
segment_names d (s ∷ ss) = elim s.subnet [
  | none ↦ segment_names d ss
  | some subnet ↦ segment_names (append_to d subnet (name_or s.name s.id)) ss
]

-- segment_vrfs[subnet].append(vrf)
unfoldable pub segment_vrfs :
    Dict String (List (String × String)) → List Segment → Dict String (List (String × String))
segment_vrfs d [] = d
segment_vrfs d (s ∷ ss) = elim s.subnet [
  | none ↦ segment_vrfs d ss
  | some subnet ↦ elim s.vrf [
    | none ↦ segment_vrfs d ss
    | some v ↦ segment_vrfs (append_to d subnet (reference v)) ss
  ]
]

-- The ids of the pools' resources.
unfoldable pub pool_resources : List (List (Option String)) → List String
pool_resources [] = []
pool_resources ([] ∷ pools) = pool_resources pools
pool_resources ((none ∷ rs) ∷ pools) = pool_resources (rs ∷ pools)
pool_resources ((some r ∷ rs) ∷ pools) = r ∷ pool_resources (rs ∷ pools)

abbrev Gateway : Type 0
Gateway = (ℕ × ℕ) × (String × String)

abbrev given : Option String → List String
given none = []
given (some a) = a ∷ []

-- The gateway that one address of an SVI gives, if it is one.
abbrev gateway_at : Readers → Named → String → List Gateway
gateway_at readers vrf address =
    if address == ""
    then []
    else elim (readers.ip_interface address) [ none ↦ [] | some ip ↦ (ip, reference vrf) ∷ [] ]

abbrev svi_gateways : Readers → Svi → List Gateway
svi_gateways readers svi = elim svi.vrf [
  | none ↦ []
  | some vrf ↦
      each (gateway_at readers vrf)
        (given svi.ip_address_virtual ++ svi.ip_virtual_router_addresses)
]

-- _gateway_vrfs
unfoldable pub gateway_vrfs : Readers → Query → List Gateway
gateway_vrfs readers parsed = each (svi_gateways readers) parsed.evpn_svi

-- min(xs), for a list with the first member given
abbrev minimum : String × String → List (String × String) → String × String
minimum m [] = m
minimum m (x ∷ xs) = minimum (if pair_leb m x then m else x) xs

-- The VRFs whose gateways lie in the network.
abbrev served : List Gateway → Network → List (String × String)
unfolding holds distinct
served gateways network = distinct (
    map (λ (g : Gateway). g.1)
      (keep_if (λ g. nat_beq g.0.0 network.version && holds network g.0.1) gateways))

abbrev sole : List (String × String) → Option (String × String)
sole [] = none
sole (v ∷ []) = some v
sole (v ∷ w ∷ vs) = none

-- A prefix's VRF: of a segment that records it, its own, or that of the only gateways in it.
unfoldable pub vrf_of :
    List Gateway → List (String × String) → Option Named → Network → Option (String × String)
unfolding holds distinct
vrf_of gateways (v ∷ vs) own network = some (minimum v vs)
vrf_of gateways [] (some own) network = some (reference own)
vrf_of gateways [] none network = sole (served gateways network)

-- role in TENANT_SUBNET_ROLES
abbrev is_tenant_role : Option String → Bool
is_tenant_role none = false
is_tenant_role (some role) = role == "tenant_host" || role == "tenant_cloud"

-- A prefix that is no candidate.
abbrev is_skipped : Query → Prefix → Bool
unfolding segment_names pool_resources
is_skipped parsed prefix =
    not (contains (keys (segment_names [] parsed.service_network_segment)) prefix.id)
    && (not (is_tenant_role prefix.role)
        || contains (pool_resources parsed.core_ip_prefix_pool) prefix.id)

unfoldable pub tenant_subnet : Readers → Query → Prefix → List TenantSubnet
unfolding sort segment_names segment_vrfs pool_resources gateway_vrfs vrf_of
tenant_subnet readers parsed prefix =
    if is_skipped parsed prefix then [] else elim (network_of readers prefix.prefix) [
      | none ↦ []
      | some network ↦
          record {
            prefix_id = prefix.id;
            network = network;
            role = prefix.role;
            vrf =
                vrf_of (gateway_vrfs readers parsed)
                  (group (segment_vrfs [] parsed.service_network_segment) prefix.id) prefix.vrf
                  network;
            segments =
                sort str_leb (group (segment_names [] parsed.service_network_segment) prefix.id);
          }
          ∷ []
    ]

-- The order by version, network and id.
abbrev subnet_leb : TenantSubnet → TenantSubnet → Bool
subnet_leb a b =
    if nat_beq a.network.version b.network.version
    then (if nat_beq a.network.address b.network.address
          && nat_beq a.network.prefix b.network.prefix
        then str_leb a.prefix_id b.prefix_id
        else at_most a.network b.network)
    else ltb a.network.version b.network.version

unfoldable pub tenant_subnets : Readers → Query → List TenantSubnet
unfolding sort tenant_subnet
tenant_subnets readers parsed =
    sort subnet_leb (each (tenant_subnet readers parsed) parsed.ipam_prefix)

-- len(subnet.segments) > 1
abbrev pub is_shared : TenantSubnet → Bool
is_shared subnet = ltb 1 (length subnet.segments)

unfoldable pub shared_findings : TenantSubnet → List Finding
shared_findings subnet =
    if is_shared subnet
    then record {
      message = is_recorded_again subnet;
      object_id = subnet.prefix_id;
      object_type = kind_prefix;
    }
      ∷ []
    else []

abbrev pub are_apart : Option (String × String) → Option (String × String) → Bool
are_apart (some a) (some b) = not (a.0 == b.0)
are_apart none b = false
are_apart (some a) none = false

abbrev pub is_none : Option (String × String) → Bool
is_none none = true
is_none (some v) = false

-- Two prefixes that were not allocated and whose VRFs are not known.
abbrev pub are_unplaced : TenantSubnet → TenantSubnet → Bool
are_unplaced left right =
    (is_empty left.segments && is_empty right.segments) && (is_none left.vrf && is_none right.vrf)

unfoldable pub overlap_findings : TenantSubnet × TenantSubnet → List Finding
unfolding overlaps
overlap_findings (left, right) =
    if not (networks_overlap left.network right.network)
    then []
    else if are_apart left.vrf right.vrf
    then []
    else if are_unplaced left right
    then []
    else record {
      message = subnets_overlap left right;
      object_id = right.prefix_id;
      object_type = kind_prefix;
    }
      ∷ []

unfoldable pub check_segment_subnets : Readers → Query → List Finding
unfolding tenant_subnets shared_findings overlap_findings
check_segment_subnets readers parsed =
    let subnets = tenant_subnets readers parsed in
    each shared_findings subnets ++ each overlap_findings (combinations subnets)
