-- ===== src/Checks/Wan/Attached.antt =====
-- What a site has of which nothing is missing: _site_prerequisites of checks/wan_service_check.py.
use infrahub_network_field_d.Base.{
  ℕ, String, Bool, true, false, Option, none, some, List, [], ◌∷◌, ◌≡◌, refl, if◌then◌else◌, ◌==◌,
  string_eq, option_eq, contains, is_empty,
}
use infrahub_network_field_d.Base.Dict.{get, keys}
use infrahub_network_field_d.Base.Members.{append-empty}
use infrahub_network_field_d.Checks.Wan.Schema.{
  Address, Site, Device, SessionDevice, Session, SiteReason, edge_not_grouped, edge_without_id,
}
use infrahub_network_field_d.Checks.Wan.Rendered.{
  is_safe, Wan, site_prerequisites, attachment_of, bgp_attachment, static_attachment, bgp_sides,
  edge_reasons, asn_reasons, by_role, on_a_port, lan_reasons, port_reasons,
}

pub if_empty :
    {A : Type 0} (b : Bool) (x : A) → ◌≡◌ {A = List A} (if b then [] else x ∷ []) [] → b ≡ true
if_empty true x h = refl
if_empty false x h = cc

pub unless_empty :
    {A : Type 0} (b : Bool) (x : A) → ◌≡◌ {A = List A} (if b then x ∷ [] else []) [] → b ≡ false
unless_empty true x h = cc
unless_empty false x h = refl

-- A route to a next hop that a device owns, on the network of a provider edge's port.
abbrev pub HasRoute : Wan → Site → Type 0
HasRoute wan s =
    (hop : Address) × (hops : List Address) × (s.static_routes ≡ hop ∷ hops)
    × (contains (keys wan.owners) hop.text ≡ true)
    × (on_a_port hop wan.pe_ports ≡ true)

-- An address, where there is one, is on the network of a provider edge's port.
abbrev pub Reaches : List Address → Option Address → Type 0
Reaches ports none = Unit
Reaches ports (some a) = on_a_port a ports ≡ true

-- The customer edge is known, in a group, and has a router's id.
abbrev pub HasEdge : Wan → Option String → Type 0
HasEdge wan name =
    (device : Device) × (id : String) × (get wan.devices name ≡ some device)
    × (is_empty device.member_of_groups ≡ false)
    × (device.router_id ≡ some id)

-- A number, and a session on the provider's edge and one on the customer's.
abbrev pub HasSessions : Wan → Site → Type 0
HasSessions wan s =
    (asn : ℕ) × (pe : SessionDevice × Session) × (ce : SessionDevice × Session) × (s.site_asn
      ≡ some asn)
    × (get (by_role [] s.bgp_sessions) (some "isp_edge") ≡ some pe)
    × (get (by_role [] s.bgp_sessions) (some "customer_edge") ≡ some ce)
    × HasEdge wan ce.0.name
    × Reaches wan.pe_ports ce.1.peer_address

abbrev pub IsAttached : Bool → Wan → Site → Type 0
IsAttached true = HasSessions
IsAttached false = HasRoute

-- What a site has that is rendered onto a port.
abbrev pub IsRendered : Wan → Site → Type 0
IsRendered wan s = (is_safe s.name ≡ true) × IsAttached (s.attachment_kind == some "bgp") wan s

port_reasons-Reaches :
    (ports : List Address) (o : Option Address) → port_reasons ports o ≡ [] → Reaches ports o
port_reasons-Reaches ports none h = tt
port_reasons-Reaches ports (some a) h = if_empty (on_a_port a ports) _ h

static_attachment-HasRoute :
    (wan : Wan) (s : Site) (hops : List Address)
    → s.static_routes ≡ hops
    → (static_attachment wan.owners hops).0 ≡ []
    → port_reasons wan.pe_ports (static_attachment wan.owners hops).1 ≡ []
    → HasRoute wan s
unfolding static_attachment
static_attachment-HasRoute wan s [] e h p = cc
static_attachment-HasRoute wan s (hop ∷ hops) e h p = (
  hop,
  hops,
  e,
  if_empty (contains (keys wan.owners) hop.text) _ h,
  if_empty (on_a_port hop wan.pe_ports) _ p,
)

edge_reasons-HasEdge :
    (wan : Wan) (name : Option String) (o : Option Device)
    → get wan.devices name ≡ o
    → edge_reasons name o ≡ []
    → HasEdge wan name
edge_reasons-HasEdge wan name none e h = cc
edge_reasons-HasEdge wan name (some device) e h =
    grouped (is_empty device.member_of_groups) device.router_id refl refl h
  where
    grouped :
        (b : Bool) (r : Option String)
        → is_empty device.member_of_groups ≡ b
        → device.router_id ≡ r
        → ◌≡◌ {A = List SiteReason}
            (if b
              then edge_not_grouped name ∷ []
              else elim r [ none ↦ edge_without_id name ∷ [] | some id ↦ [] ])
            []
        → HasEdge wan name
    grouped true r q i k = cc
    grouped false none q i k = cc
    grouped false (some id) q i k = (device, id, e, q, i)

asn_of : (o : Option ℕ) → asn_reasons o ≡ [] → (n : ℕ) × (o ≡ some n)
asn_of none h = cc
asn_of (some n) h = (n, refl)

bgp_sides-HasSessions :
    (wan : Wan) (s : Site) (n : ℕ) (pe ce : Option (SessionDevice × Session))
    → s.site_asn ≡ some n
    → get (by_role [] s.bgp_sessions) (some "isp_edge") ≡ pe
    → get (by_role [] s.bgp_sessions) (some "customer_edge") ≡ ce
    → (bgp_sides wan.devices pe ce).0 ≡ []
    → port_reasons wan.pe_ports (bgp_sides wan.devices pe ce).1 ≡ []
    → HasSessions wan s
bgp_sides-HasSessions wan s n none ce a e f h p = cc
bgp_sides-HasSessions wan s n (some pe) none a e f h p = cc
bgp_sides-HasSessions wan s n (some pe) (some (edge, session)) a e f h p = (
  n,
  pe,
  (edge, session),
  a,
  e,
  f,
  edge_reasons-HasEdge wan edge.name (get wan.devices edge.name) refl h,
  port_reasons-Reaches wan.pe_ports session.peer_address p,
)

attachment_of-IsAttached :
    (wan : Wan) (s : Site) (b : Bool)
    → (if b then bgp_attachment wan.devices s else static_attachment wan.owners s.static_routes).0
      ≡ []
    → port_reasons wan.pe_ports
        (if b then bgp_attachment wan.devices s else static_attachment wan.owners s.static_routes).1
      ≡ []
    → IsAttached b wan s
unfolding bgp_attachment
attachment_of-IsAttached wan s false h p = static_attachment-HasRoute wan s s.static_routes refl h p
attachment_of-IsAttached wan s true h p =
    let parts = append-empty (asn_reasons s.site_asn) _ h in
    let (n, numbered) = asn_of s.site_asn parts.0 in
    bgp_sides-HasSessions wan s n _ _ numbered refl refl parts.1 p

pub site_quiet : (wan : Wan) (s : Site) → site_prerequisites wan s ≡ [] → IsRendered wan s
unfolding site_prerequisites
site_quiet wan s h =
    let named = append-empty (if is_safe s.name then [] else _ ∷ []) _ h in
    let lan = append-empty (lan_reasons wan.aggregate s.lan_prefix) _ named.1 in
    let port = append-empty (attachment_of wan s).0 _ lan.1 in
    (
      if_empty (is_safe s.name) _ named.0,
      attachment_of-IsAttached wan s (s.attachment_kind == some "bgp") port.0 port.1,
    )
