-- ===== src/Checks/Allocation/Schema.antt =====
-- What checks/allocation_consistency_check.py reads, with its findings. An edge without a node
-- is left out, a relationship is its edges, and a number is at least 0. `ip_network` and
-- `ip_interface` read a text as those of the standard library do: nothing where they raise.
use infrahub_network_field_d.Base.{
  ℕ, String, Bool, ◌&&◌, Option, none, some, List, if◌then◌else◌, ◌==◌, string_eq, nat_beq, str_leb,
}
use infrahub_network_field_d.Pools.Prefixes.{Network, overlaps}

pub record Named : Type 0 where
  pub id : String
  pub name : Option String

pub record IpamVlan : Type 0 where
  pub id : String
  pub name : Option String
  pub vlan_id : Option ℕ

pub record L2Vlan : Type 0 where
  pub id : String
  pub name : Option String
  pub vlan_id : Option ℕ
  pub vni_override : Option ℕ
  pub rack_tags : List (Option String)
  pub avd_tags : List (Option String)
  pub vlan : Option IpamVlan

pub record Tenant : Type 0 where
  pub id : String
  pub name : Option String
  pub mac_vrf_vni_base : Option ℕ
  pub fabrics : List Named
  pub vrfs : List Named
  pub l_2_vlans : List L2Vlan

pub record Svi : Type 0 where
  pub id : String
  pub name : Option String
  pub svi_id : Option ℕ
  pub vrf : Option Named
  pub rack_tags : List (Option String)
  pub avd_tags : List (Option String)
  pub vlan : Option IpamVlan
  pub ip_address_virtual : Option String
  pub ip_virtual_router_addresses : List String

pub record Prefix : Type 0 where
  pub id : String
  pub prefix : Option String
  pub role : Option String
  pub vrf : Option Named

pub record Segment : Type 0 where
  pub id : String
  pub name : Option String
  pub subnet : Option String
  pub vrf : Option Named

pub record Cluster : Type 0 where
  pub id : String
  pub name : Option String
  pub vip_pools : List (Option String)

pub record App : Type 0 where
  pub id : String
  pub name : Option String
  pub vip_block : Option (String × Option String)
  pub cluster : Option Cluster

pub record Query : Type 0 where
  pub evpn_tenant : List Tenant
  pub evpn_svi : List Svi
  pub core_ip_prefix_pool : List (List (Option String))
  pub service_network_segment : List Segment
  pub ipam_prefix : List Prefix
  pub service_fabric_app : List App

-- The standard library's readers of an address with its length.
pub record Readers : Type 0 where
  pub ip_network : String → Option Network
  pub ip_interface : String → Option (ℕ × ℕ)

-- _value(node.name) or node.id
abbrev pub name_or : Option String → String → String
name_or none id = id
name_or (some n) id = if n == "" then id else n

abbrev pub reference : Named → String × String
reference n = (n.id, name_or n.name n.id)

-- _network
abbrev pub network_of : Readers → Option String → Option Network
network_of readers none = none
network_of readers (some t) = if t == "" then none else readers.ip_network t

-- _overlaps
abbrev pub networks_overlap : Network → Network → Bool
networks_overlap left right = nat_beq left.version right.version && overlaps left right

-- `<=` of two pairs of texts
abbrev pub pair_leb : String × String → String × String → Bool
pair_leb a b = if a.0 == b.0 then str_leb a.1 b.1 else str_leb a.0 b.0

abbrev pub kind_svi : String
kind_svi = "EvpnSvi"

abbrev pub kind_l2vlan : String
kind_l2vlan = "EvpnL2Vlan"

abbrev pub kind_prefix : String
kind_prefix = "IpamPrefix"

abbrev pub kind_app : String
kind_app = "ServiceFabricApp"

-- One VLAN as AVD renders it: an SVI or a tenant L2 VLAN.
pub record ServiceVlan : Type 0 where
  pub object_id : String
  pub kind : String
  pub name : String
  pub vlan_id : Option ℕ
  pub vni : Option ℕ
  pub tags : List String
  pub tenant_name : Option String
  pub fabrics : List (String × String)
  pub scope : String
  pub ipam_vlan : Option (String × Option ℕ)

pub record TenantSubnet : Type 0 where
  pub prefix_id : String
  pub network : Network
  pub role : Option String
  pub vrf : Option (String × String)
  pub segments : List String

pub record VipBlock : Type 0 where
  pub app_id : String
  pub app_name : String
  pub block_id : String
  pub network : Network
  pub cluster_name : Option String
  pub pools : List Network

-- A message, by the values that its text is made of.
pub data Message : Type 0 where
  renders_vlan :
      (left right : ServiceVlan) (fabric_name : String) (shared_tags : List String) → Message
  renders_vni : (left right : ServiceVlan) (fabric_name : String) → Message
  names_other_vlan : (vlan : ServiceVlan) (ipam_name : String) (ipam_id : ℕ) → Message
  is_recorded_again : TenantSubnet → Message
  subnets_overlap : (left right : TenantSubnet) → Message
  is_outside_pools : VipBlock → Message
  blocks_overlap : (left right : VipBlock) → Message

pub record Finding : Type 0 where
  pub message : Message
  pub object_id : String
  pub object_type : String
