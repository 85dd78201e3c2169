-- ===== src/Checks/Wan/Schema.antt =====
-- What checks/wan_service_check.py reads, with its findings. An edge without a node is left out, a
-- relationship that is missing is one without edges; addresses and prefixes are read already.
use infrahub_network_field_d.Base.{ℕ, String, Option, List}
use infrahub_network_field_d.Pools.Prefixes.{Network}

pub record Named : Type 0 where
  pub id : String
  pub name : Option String

pub record Zone : Type 0 where
  pub id : String
  pub name : Option String
  pub vrf : Option Named

pub record Circuit : Type 0 where
  pub circuit_id : Option String
  pub tenant : Option Named

pub record L3vpn : Type 0 where
  pub id : String
  pub name : Option String
  pub status : Option String
  pub tenant : Option Named
  pub vrf : Option Named
  pub circuits : List Circuit
  pub dc_service_prefixes : List (Option String)

pub record Cloud : Type 0 where
  pub id : String
  pub name : Option String
  pub status : Option String
  pub tenant : Option Named
  pub vrf : Option Named
  pub zone : Option Zone

-- An address: its text without the mask, the number that it is, and the network of its mask.
pub record Address : Type 0 where
  pub text : String
  pub host : ℕ
  pub network : Network

pub record SessionDevice : Type 0 where
  pub name : Option String
  pub role : Option String

pub record Session : Type 0 where
  pub device : Option SessionDevice
  pub peer_address : Option Address

pub record Site : Type 0 where
  pub name : Option String
  pub tenant : Option Named
  pub lan_prefix : Option Network
  pub attachment_kind : Option String
  pub site_asn : Option ℕ
  pub bgp_sessions : List Session
  -- the next hops of its static routes
  pub static_routes : List Address

pub record Device : Type 0 where
  pub name : Option String
  pub role : Option String
  -- the addresses of each interface
  pub interfaces : List (List (Option Address))
  pub member_of_groups : List String
  pub router_id : Option String

pub record IpAddress : Type 0 where
  pub address : Option Address
  -- the name of the device of its interface, if it has one
  pub device : Option (Option String)

pub record Query : Type 0 where
  pub service_l3vpn : List L3vpn
  pub service_tenant_cloud : List Cloud
  pub wan_site : List Site
  pub dcim_device : List Device
  pub ipam_ip_address : List IpAddress
  -- the customer aggregate of each peering
  pub wan_internet_peering : List (Option Network)

-- Why a site cannot be put on a port.
pub data SiteReason : Type 0 where
  unsafe_site no_site_asn half_sessions no_route : SiteReason
  outside_aggregate : Network → Network → SiteReason
  edge_not_grouped edge_without_id : (edge : Option String) → SiteReason
  hop_unowned no_port : (attachment : String) → SiteReason

-- Why a service cannot be rendered.
pub data Reason : Type 0 where
  unsafe_tenant no_cloud no_site : (tenant : String) → Reason
  no_vrf : Reason
  unsafe_vrf : (vrf : Option String) → Reason
  of_site : Site → SiteReason → Reason

-- A message, by the values that its text is made of.
pub data Message : Type 0 where
  foreign_circuit : L3vpn → Circuit → Message
  shared_vrf : (vrf : String) (names : List String) → Message
  other_zone : Cloud → Message
  shared_peer : (label peer : String) (names : List String) → Message
  many_vpns : (tenant : String) (vpns : List L3vpn) → Message
  not_rendered : L3vpn → Reason → Message
  cloud_nowhere : Cloud → Message
  no_source : L3vpn → Message
  other_range : L3vpn → Message

pub record Finding : Type 0 where
  pub message : Message
  pub object_id : String
  pub object_type : String

abbrev pub kind_l3vpn : String
kind_l3vpn = "ServiceL3vpn"

abbrev pub kind_cloud : String
kind_cloud = "ServiceTenantCloud"
