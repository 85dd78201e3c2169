-- ===== src/Checks/Wan/Rendered.antt =====
-- The rules of checks/wan_service_check.py about what will be rendered, rules 5 and 6.
use infrahub_network_field_d.Base.{
  ℕ, String, Bool, true, false, not, ◌&&◌, ◌||◌, Option, none, some, List, [], ◌∷◌, ◌++◌,
  if◌then◌else◌, ◌==◌, string_eq, option_eq, list_eq, nat_beq, leb, contains, any_of, is_empty,
}
use infrahub_network_field_d.Base.Dict.{Dict, get, put, keys}
use infrahub_network_field_d.Base.Members.{each}
use infrahub_network_field_d.Base.Text.{Text, codes, in_range}
use infrahub_network_field_d.Pools.Prefixes.{Network, holds}
use infrahub_network_field_d.Checks.Wan.Schema.{
  Named, Address, SessionDevice, Session, Site, Device, IpAddress, SiteReason, unsafe_site,
  no_site_asn, half_sessions, no_route, outside_aggregate, edge_not_grouped, edge_without_id,
  hop_unowned, no_port,
}

abbrev pub decommissioned_statuses : List String
decommissioned_statuses = "decommissioning" ∷ "decommissioned" ∷ []

abbrev pub is_live : Option String → Bool
is_live none = true
is_live (some status) = not (contains decommissioned_statuses status)

abbrev is_alnum : ℕ → Bool
is_alnum c = in_range 48 57 c || in_range 65 90 c || in_range 97 122 c

-- `[A-Za-z0-9_-]*$`, where `$` also stands before a last line feed
abbrev safe_rest : Text → Bool
safe_rest [] = true
safe_rest (c ∷ cs) =
    let rest = safe_rest cs in
    (nat_beq c 10 && is_empty cs) || ((is_alnum c || nat_beq c b'_' || nat_beq c b'-') && rest)

abbrev safe_text : Text → Bool
safe_text [] = false
safe_text (c ∷ cs) = is_alnum c && safe_rest cs

-- SAFE_NAME.match(name or "")
unfoldable pub is_safe : Option String → Bool
is_safe none = false
is_safe (some name) = safe_text (codes name)

abbrev pub name_of : Option Named → Option String
name_of none = none
name_of (some node) = node.name

abbrev present {ℓ} : {A : Type ℓ} → Option A → List A
present none = []
present (some a) = a ∷ []

-- _interface_addresses
abbrev pub interface_addresses : Device → List Address
interface_addresses d = each (each present) d.interfaces

-- _address_owners
unfoldable pub address_owners :
    Dict String (Option String) → List IpAddress → Dict String (Option String)
address_owners owners [] = owners
address_owners owners (a ∷ as') = elim a.device [
  | none ↦ address_owners owners as'
  | some device ↦ elim a.address [
    | none ↦ address_owners owners as'
    | some address ↦ address_owners (put owners address.text device) as'
  ]
]

-- _on_a_port
unfoldable pub on_a_port : Address → List Address → Bool
unfolding holds
on_a_port attachment = any_of (λ (port : Address).
    nat_beq attachment.network.version port.network.version && holds port.network attachment.host)

-- _within
unfoldable pub within : Network → Network → Bool
unfolding holds
within inner outer =
    nat_beq inner.version outer.version
    && holds outer inner.address
    && leb outer.prefix inner.prefix

-- by_role
unfoldable pub by_role :
    Dict (Option String) (SessionDevice × Session)
    → List Session
    → Dict (Option String) (SessionDevice × Session)
by_role d [] = d
by_role d (s ∷ ss) = elim s.device [
  | none ↦ by_role d ss
  | some device ↦ by_role (put d device.role (device, s)) ss
]

abbrev pub edge_reasons : Option String → Option Device → List SiteReason
edge_reasons name none = edge_not_grouped name ∷ []
edge_reasons name (some device) =
    if is_empty device.member_of_groups
    then edge_not_grouped name ∷ []
    else elim device.router_id [ none ↦ edge_without_id name ∷ [] | some id ↦ [] ]

-- What is missing of a site's attachment, and the attachment.
abbrev pub bgp_sides :
    Dict (Option String) Device
    → Option (SessionDevice × Session)
    → Option (SessionDevice × Session)
    → List SiteReason × Option Address
bgp_sides devices none ce = (half_sessions ∷ [], none)
bgp_sides devices (some pe) none = (half_sessions ∷ [], none)
bgp_sides devices (some pe) (some (edge, session)) =
    (edge_reasons edge.name (get devices edge.name), session.peer_address)

abbrev pub asn_reasons : Option ℕ → List SiteReason
asn_reasons none = no_site_asn ∷ []
asn_reasons (some n) = []

unfoldable pub bgp_attachment :
    Dict (Option String) Device → Site → List SiteReason × Option Address
unfolding by_role
bgp_attachment devices site =
    let sides = by_role [] site.bgp_sessions in
    let found =
      bgp_sides devices (get sides (some "isp_edge")) (get sides (some "customer_edge")) in
    (asn_reasons site.site_asn ++ found.0, found.1)

unfoldable pub static_attachment :
    Dict String (Option String) → List Address → List SiteReason × Option Address
static_attachment owners [] = (no_route ∷ [], none)
static_attachment owners (hop ∷ hops) =
    (if contains (keys owners) hop.text then [] else hop_unowned hop.text ∷ [], some hop)

abbrev pub lan_reasons : Option Network → Option Network → List SiteReason
lan_reasons none lan = []
lan_reasons (some aggregate) none = []
lan_reasons (some aggregate) (some lan) =
    if within lan aggregate then [] else outside_aggregate lan aggregate ∷ []

abbrev pub port_reasons : List Address → Option Address → List SiteReason
port_reasons ports none = []
port_reasons ports (some attachment) =
    if on_a_port attachment ports then [] else no_port attachment.text ∷ []

-- What the sites are judged by.
pub record Wan : Type 0 where
  pub pe_ports : List Address
  pub devices : Dict (Option String) Device
  pub owners : Dict String (Option String)
  pub aggregate : Option Network

abbrev pub attachment_of : Wan → Site → List SiteReason × Option Address
attachment_of wan site =
    if site.attachment_kind == some "bgp"
    then bgp_attachment wan.devices site
    else static_attachment wan.owners site.static_routes

-- _site_prerequisites
unfoldable pub site_prerequisites : Wan → Site → List SiteReason
unfolding is_safe within bgp_attachment static_attachment on_a_port
site_prerequisites wan site =
    (if is_safe site.name then [] else unsafe_site ∷ [])
    ++ (lan_reasons wan.aggregate site.lan_prefix
        ++ ((attachment_of wan site).0 ++ port_reasons wan.pe_ports (attachment_of wan site).1))
