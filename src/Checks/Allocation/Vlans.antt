-- ===== src/Checks/Allocation/Vlans.antt =====
-- Rule 1 of checks/allocation_consistency_check.py: VLAN ids and VNIs on a fabric.
use Prim.Native.String.{◌++◌ as append}
use infrahub_network_field_d.Base.{
  distinct, ℕ, ◌+◌, String, Bool, false, ◌&&◌, not, Option, none, some, List, [], ◌∷◌, ◌++◌, map,
  if◌then◌else◌, ◌==◌, string_eq, pair_eq, nat_eq, option_eq, str_leb, keep_if, contains, sort,
  is_empty,
}
use infrahub_network_field_d.Base.Dict.{Dict, get, put}
use infrahub_network_field_d.Base.Groups.{append_to}
use infrahub_network_field_d.Base.Members.{each, combinations}
use infrahub_network_field_d.Checks.Allocation.Schema.{
  Query, Tenant, L2Vlan, Svi, Named, IpamVlan, ServiceVlan, Finding, name_or, reference, pair_leb,
  kind_svi, kind_l2vlan, renders_vlan, renders_vni, names_other_vlan,
}

-- The names among the values of some wrappers.
abbrev somes : List (Option String) → List String
somes [] = []
somes (none ∷ xs) = somes xs
somes (some x ∷ xs) = x ∷ somes xs

-- _tags
unfoldable pub tags_of : List (Option String) → List (Option String) → List String
unfolding distinct
tags_of rack_tags avd_tags = distinct (somes (rack_tags ++ avd_tags))

-- _vni
unfoldable pub vni_of : (base vlan_id override : Option ℕ) → Option ℕ
vni_of base vlan_id (some o) = some o
vni_of none vlan_id none = none
vni_of (some b) none none = none
vni_of (some b) (some v) none = some (b + v)

-- _ipam_vlan
unfoldable pub ipam_vlan_of : Option IpamVlan → Option (String × Option ℕ)
ipam_vlan_of none = none
ipam_vlan_of (some v) = some (name_or v.name v.id, v.vlan_id)

-- What a VLAN takes from its tenant: its name, its base and its fabrics.
abbrev pub Tenancy : Type 0
Tenancy = (Option String × Option ℕ) × List (String × String)

unfoldable pub fabrics_of : Tenant → List (String × String)
unfolding sort
fabrics_of tenant = sort pair_leb (map reference tenant.fabrics)

unfoldable pub tenancy : Tenant → Tenancy
unfolding fabrics_of
tenancy tenant =
    ((some (name_or tenant.name tenant.id), tenant.mac_vrf_vni_base), fabrics_of tenant)

unfoldable pub l2_service_vlan : Tenant → L2Vlan → ServiceVlan
unfolding tags_of vni_of ipam_vlan_of fabrics_of
l2_service_vlan tenant l2vlan = record {
  object_id = l2vlan.id;
  kind = kind_l2vlan;
  name = name_or l2vlan.name l2vlan.id;
  vlan_id = l2vlan.vlan_id;
  vni = vni_of tenant.mac_vrf_vni_base l2vlan.vlan_id l2vlan.vni_override;
  tags = tags_of l2vlan.rack_tags l2vlan.avd_tags;
  tenant_name = some (name_or tenant.name tenant.id);
  fabrics = fabrics_of tenant;
  scope = append "tenant " (name_or tenant.name tenant.id);
  ipam_vlan = ipam_vlan_of l2vlan.vlan;
}

abbrev enrol : Tenancy → List Named → Dict String Tenancy → Dict String Tenancy
enrol t [] d = d
enrol t (v ∷ vs) d = enrol t vs (put d v.id t)

-- tenant_of_vrf, after the loop over the tenants
unfoldable pub tenant_of_vrf : List Tenant → Dict String Tenancy → Dict String Tenancy
unfolding tenancy
tenant_of_vrf [] d = d
tenant_of_vrf (t ∷ ts) d = tenant_of_vrf ts (enrol (tenancy t) t.vrfs d)

abbrev no_tenancy : Option Tenancy → Tenancy
no_tenancy none = ((none, none), [])
no_tenancy (some t) = t

abbrev vrf_id : Option Named → String
vrf_id none = ""
vrf_id (some v) = v.id

abbrev vrf_name : Option Named → String
vrf_name none = "no VRF"
vrf_name (some v) = name_or v.name v.id

abbrev of_tenant : Option String → String
of_tenant none = ""
of_tenant (some t) = if t == "" then "" else append ", tenant " t

unfoldable pub svi_service_vlan : Dict String Tenancy → Svi → ServiceVlan
unfolding tags_of vni_of ipam_vlan_of
svi_service_vlan tenants svi =
    let t = no_tenancy (get tenants (vrf_id svi.vrf)) in
    record {
      object_id = svi.id;
      kind = kind_svi;
      name = name_or svi.name svi.id;
      vlan_id = svi.svi_id;
      vni = vni_of t.0.1 svi.svi_id none;
      tags = tags_of svi.rack_tags svi.avd_tags;
      tenant_name = t.0.0;
      fabrics = t.1;
      scope = append (append "VRF " (vrf_name svi.vrf)) (of_tenant t.0.0);
      ipam_vlan = ipam_vlan_of svi.vlan;
    }

-- The order by kind, name and id.
abbrev vlan_leb : ServiceVlan → ServiceVlan → Bool
vlan_leb a b =
    if a.kind == b.kind
    then pair_leb (a.name, a.object_id) (b.name, b.object_id)
    else str_leb a.kind b.kind

unfoldable pub service_vlans : Query → List ServiceVlan
unfolding sort l2_service_vlan tenant_of_vrf svi_service_vlan
service_vlans parsed = sort vlan_leb (
    each (λ t. map (l2_service_vlan t) t.l_2_vlans) parsed.evpn_tenant
    ++ map (svi_service_vlan (tenant_of_vrf parsed.evpn_tenant [])) parsed.evpn_svi)

abbrev pub ByFabric : Type 0
ByFabric = Dict (String × String) (List ServiceVlan)

-- for fabric in vlan.fabrics: by_fabric[fabric].append(vlan)
unfoldable pub append_vlan : ServiceVlan → List (String × String) → ByFabric → ByFabric
append_vlan vlan [] d = d
append_vlan vlan (f ∷ fs) d = append_vlan vlan fs (append_to d f vlan)

unfoldable pub by_fabric : List ServiceVlan → ByFabric → ByFabric
unfolding append_vlan
by_fabric [] d = d
by_fabric (v ∷ vs) d = by_fabric vs (append_vlan v v.fabrics d)

abbrev pub is_same : Option ℕ → Option ℕ → Bool
is_same none b = false
is_same (some a) b = some a == b

-- left.tags & right.tags
abbrev pub shared_tags : ServiceVlan → ServiceVlan → List String
shared_tags left right = keep_if (λ t. contains right.tags t) left.tags

-- The findings on two VLANs of one fabric.
unfoldable pub clash_findings : String → ServiceVlan × ServiceVlan → List Finding
unfolding sort
clash_findings fabric_name (left, right) =
    let shared = shared_tags left right in
    if is_same left.vlan_id right.vlan_id && not (is_empty shared)
    then record {
      message = renders_vlan left right fabric_name (sort str_leb shared);
      object_id = right.object_id;
      object_type = right.kind;
    }
      ∷ []
    else if is_same left.vni right.vni
    then record {
      message = renders_vni left right fabric_name;
      object_id = right.object_id;
      object_type = right.kind;
    }
      ∷ []
    else []

abbrev pub fabric_leb :
    (String × String) × List ServiceVlan → (String × String) × List ServiceVlan → Bool
fabric_leb a b = str_leb a.0.1 b.0.1

abbrev pub fabric_findings : (String × String) × List ServiceVlan → List Finding
unfolding clash_findings
fabric_findings (fabric, members) = each (clash_findings fabric.1) (combinations members)

unfoldable pub check_fabric_vlan_ids : Query → List Finding
unfolding sort by_fabric service_vlans clash_findings
check_fabric_vlan_ids parsed =
    each fabric_findings (sort fabric_leb (by_fabric (service_vlans parsed) []))

-- The finding on a VLAN that names an IpamVLAN of another id.
unfoldable pub reference_findings : ServiceVlan → List Finding
reference_findings vlan = elim vlan.ipam_vlan [
  | none ↦ []
  | some (ipam_name, none) ↦ []
  | some (ipam_name, some ipam_id) ↦ elim vlan.vlan_id [
    | none ↦ []
    | some id ↦
        if ipam_id == id
        then []
        else record {
          message = names_other_vlan vlan ipam_name ipam_id;
          object_id = vlan.object_id;
          object_type = vlan.kind;
        }
          ∷ []
  ]
]

unfoldable pub check_vlan_reference : Query → List Finding
unfolding reference_findings service_vlans
check_vlan_reference parsed = each reference_findings (service_vlans parsed)
