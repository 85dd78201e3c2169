-- ===== src/Tests/Wans.antt =====
-- The check of the WAN services on a small branch: two tenants with an L3VPN, a cloud and a site each.
use infrahub_network_field_d.Base.{
  keep_if, is_empty, String, true, false, none, some, [], ◌∷◌, ◌≡◌, refl,
}
use mathlib.Core.List.{Memᴰ}
use mathlib.Core.List.Memᴰ.{head}
use infrahub_network_field_d.Base.Members.{All, AllPairs}
use infrahub_network_field_d.Pools.Prefixes.{Network}
use infrahub_network_field_d.Checks.Wan.{validate, log_info}
use infrahub_network_field_d.Checks.Wan.Schema.{
  Query, Named, Zone, Circuit, L3vpn, Cloud, Address, Site, Device,
}
use infrahub_network_field_d.Checks.Wan.Rendered.{is_live, is_safe, name_of}
use infrahub_network_field_d.Checks.Wan.Live.{wan_of}
use infrahub_network_field_d.Checks.Wan.Isolated.{
  is_blocked, AreApart, AreSame, HaveOwnZones, Governs, validate-isolates_vpns,
  validate-isolates_clouds,
}
use infrahub_network_field_d.Checks.Wan.Accepted.{is_live_of, is_site_of, validate-renders}
use infrahub_network_field_d.Checks.Wan.Attached.{IsRendered}

abbrev named : String → Named
named n = record { id = n; name = some n }

abbrev acme_circuit : Circuit
acme_circuit = record { circuit_id = some "C-1"; tenant = some (named "acme") }

abbrev acme : L3vpn
acme = record {
  id = "v1";
  name = some "acme-vpn";
  status = some "active";
  tenant = some (named "acme");
  vrf = some (named "PE-ACME");
  circuits = acme_circuit ∷ [];
  dc_service_prefixes = some "10.9.0.0/16" ∷ [];
}

abbrev globex : L3vpn
globex = record {
  id = "v2";
  name = some "globex-vpn";
  status = some "decommissioned";
  tenant = some (named "globex");
  vrf = some (named "PE-GLOBEX");
  circuits = [];
  dc_service_prefixes = [];
}

abbrev acme_zone : Zone
acme_zone = record { id = "z1"; name = some "cloud-acme"; vrf = some (named "CLOUD-ACME") }

abbrev globex_zone : Zone
globex_zone = record { id = "z2"; name = some "cloud-globex"; vrf = none }

abbrev acme_cloud : Cloud
acme_cloud = record {
  id = "c1";
  name = some "acme-cloud";
  status = none;
  tenant = some (named "acme");
  vrf = some (named "CLOUD-ACME");
  zone = some acme_zone;
}

abbrev globex_cloud : Cloud
globex_cloud = record {
  id = "c2";
  name = some "globex-cloud";
  status = some "decommissioning";
  tenant = some (named "globex");
  vrf = some (named "CLOUD-GLOBEX");
  zone = some globex_zone;
}

-- 10.0.0.0/30
abbrev link : Network
link = record { version = 4; address = 167772160; prefix = 30 }

abbrev edge_side : Address
edge_side = record { text = "10.0.0.1"; host = 167772161; network = link }

abbrev hop : Address
hop = record { text = "10.0.0.2"; host = 167772162; network = link }

abbrev acme_site : Site
acme_site = record {
  name = some "hq";
  tenant = some (named "acme");
  lan_prefix = none;
  attachment_kind = some "static";
  site_asn = none;
  bgp_sessions = [];
  static_routes = hop ∷ [];
}

abbrev pe1 : Device
pe1 = record {
  name = some "pe1";
  role = some "isp_edge";
  interfaces = (some edge_side ∷ []) ∷ [];
  member_of_groups = [];
  router_id = none;
}

abbrev branch : Query
branch = record {
  service_l3vpn = acme ∷ globex ∷ [];
  service_tenant_cloud = acme_cloud ∷ globex_cloud ∷ [];
  wan_site = acme_site ∷ [];
  dcim_device = pe1 ∷ [];
  ipam_ip_address = record { address = some hop; device = some (some "ce1") } ∷ [];
  wan_internet_peering = [];
}

branch_accepted : validate branch ≡ log_info ∷ []
unfolding validate
branch_accepted = refl

-- Without the port, the site has nowhere to go.
portless_refused : is_blocked (validate (record branch { dcim_device = [] })) ≡ true
unfolding validate
portless_refused = refl

-- A VRF that two L3VPNs name, one of them withdrawn, is refused.
shared_refused :
    is_blocked (
      validate (record branch {
        service_l3vpn = acme ∷ record globex { vrf = some (named "PE-ACME") } ∷ [];
      }))
    ≡ true
unfolding validate
shared_refused = refl

branch_unblocked : is_blocked (validate branch) ≡ false
unfolding validate
branch_unblocked = refl

validate-isolates_vpns_example :
    AllPairs (λ v w. AreApart v.vrf w.vrf) (acme ∷ globex ∷ [])
    × All (λ v. All (λ c. AreSame c.tenant v.tenant) v.circuits) (acme ∷ globex ∷ [])
validate-isolates_vpns_example = validate-isolates_vpns branch branch_unblocked

validate-isolates_clouds_example :
    AllPairs (λ a b. AreApart a.vrf b.vrf) (acme_cloud ∷ globex_cloud ∷ [])
    × AllPairs (λ a b. HaveOwnZones a.zone b.zone) (acme_cloud ∷ globex_cloud ∷ [])
    × All (λ c. Governs c.zone c.vrf) (acme_cloud ∷ globex_cloud ∷ [])
validate-isolates_clouds_example = validate-isolates_clouds branch branch_unblocked

validate-renders_example :
    All (λ w. w ≡ acme) (keep_if (is_live_of "acme") branch.service_l3vpn)
    × ((vrf : Named) × (acme.vrf ≡ some vrf) × (is_safe vrf.name ≡ true))
    × ((c : Cloud) × Memᴰ c branch.service_tenant_cloud
        × (is_live c.status ≡ true)
        × (name_of c.tenant ≡ some "acme"))
    × (is_empty (keep_if (is_site_of "acme") branch.wan_site) ≡ false)
    × All (IsRendered (wan_of branch)) (keep_if (is_site_of "acme") branch.wan_site)
validate-renders_example =
    validate-renders branch acme "acme" branch_unblocked (head refl) refl refl
