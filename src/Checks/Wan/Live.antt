-- ===== src/Checks/Wan/Live.antt =====
-- Rules 5 and 6 of checks/wan_service_check.py: each live service is rendered.
use infrahub_network_field_d.Base.{
  String, Bool, true, false, not, ◌&&◌, Option, none, some, List, [], ◌∷◌, ◌++◌, map, if◌then◌else◌,
  ◌==◌, string_eq, option_eq, list_eq, str_leb, keep_if, sort, contains, all_of, is_empty, minus,
}
use infrahub_network_field_d.Base.Dict.{Dict, put, values}
use infrahub_network_field_d.Base.Groups.{append_to, group}
use infrahub_network_field_d.Base.Members.{each}
use infrahub_network_field_d.Pools.Prefixes.{Network}
use infrahub_network_field_d.Checks.Wan.Schema.{
  Query, Named, L3vpn, Cloud, Address, Site, Device, Reason, unsafe_tenant, no_cloud, no_site,
  no_vrf, unsafe_vrf, of_site, Finding, Message, many_vpns, not_rendered, cloud_nowhere, no_source,
  other_range, kind_l3vpn, kind_cloud,
}
use infrahub_network_field_d.Checks.Wan.Rules.{finding}
use infrahub_network_field_d.Checks.Wan.Rendered.{
  is_live, is_safe, name_of, interface_addresses, address_owners, Wan, site_prerequisites,
}

-- {_value(d.name): d for d in devices}
unfoldable pub by_name : Dict (Option String) Device → List Device → Dict (Option String) Device
by_name d [] = d
by_name d (device ∷ devices) = by_name (put d device.name device) devices

abbrev pub edge_addresses : List Device → List Address
edge_addresses =
    each (λ (d : Device). if d.role == some "isp_edge" then interface_addresses d else [])

abbrev pub first_aggregate : List (Option Network) → Option Network
first_aggregate [] = none
first_aggregate (a ∷ as') = a

unfoldable pub wan_of : Query → Wan
unfolding by_name address_owners
wan_of parsed =
    let devices = by_name [] parsed.dcim_device in
    record {
      pe_ports = edge_addresses (values devices);
      devices = devices;
      owners = address_owners [] parsed.ipam_ip_address;
      aggregate = first_aggregate parsed.wan_internet_peering;
    }

abbrev pub sites_step : Dict String (List Site) → Option String → Site → Dict String (List Site)
sites_step d none site = d
sites_step d (some owner) site = append_to d owner site

unfoldable pub sites_by_owner : Dict String (List Site) → List Site → Dict String (List Site)
sites_by_owner d [] = d
sites_by_owner d (site ∷ sites) = sites_by_owner (sites_step d (name_of site.tenant) site) sites

abbrev pub live_step :
    Dict String (List L3vpn) → Bool → Option String → L3vpn → Dict String (List L3vpn)
live_step d false tenant vpn = d
live_step d true none vpn = d
live_step d true (some tenant) vpn = append_to d tenant vpn

unfoldable pub live_by_tenant : Dict String (List L3vpn) → List L3vpn → Dict String (List L3vpn)
live_by_tenant d [] = d
live_by_tenant d (vpn ∷ vpns) =
    live_by_tenant (live_step d (is_live vpn.status) (name_of vpn.tenant) vpn) vpns

-- The tenants' names of the live clouds.
abbrev pub cloud_tenants : List Cloud → List (Option String)
cloud_tenants clouds =
    map (λ (c : Cloud). name_of c.tenant) (keep_if (λ (c : Cloud). is_live c.status) clouds)

abbrev pub vrf_reasons : Option Named → List Reason
vrf_reasons none = no_vrf ∷ []
vrf_reasons (some vrf) = if is_safe vrf.name then [] else unsafe_vrf vrf.name ∷ []

abbrev pub or_blank : Option String → String
or_blank none = ""
or_blank (some name) = name

abbrev pub site_leb : Site → Site → Bool
site_leb a b = str_leb (or_blank a.name) (or_blank b.name)

abbrev pub site_reasons : Wan → Site → List Reason
site_reasons wan site = map (of_site site) (site_prerequisites wan site)

-- Every reason for which a tenant's only live L3VPN is not rendered.
unfoldable pub missing : Wan → List (Option String) → List Site → String → L3vpn → List Reason
unfolding is_safe sort site_prerequisites
missing wan clouds sites tenant vpn =
    (if is_safe (some tenant) then [] else unsafe_tenant tenant ∷ [])
    ++ (vrf_reasons vpn.vrf
        ++ ((if contains clouds (some tenant) then [] else no_cloud tenant ∷ [])
            ++ ((if is_empty sites then no_site tenant ∷ [] else [])
                ++ each (site_reasons wan) (sort site_leb sites))))

abbrev pub vpn_finding : L3vpn → Message → Finding
vpn_finding vpn = finding kind_l3vpn vpn.id

-- The findings on a tenant's live L3VPNs.
unfoldable pub tenant_findings :
    Wan → List (Option String) → Dict String (List Site) → String × List L3vpn → List Finding
unfolding missing
tenant_findings wan clouds sites (tenant, []) = []
tenant_findings wan clouds sites (tenant, vpn ∷ []) =
    map (λ reason. vpn_finding vpn (not_rendered vpn reason))
      (missing wan clouds (group sites tenant) tenant vpn)
tenant_findings wan clouds sites (tenant, vpn ∷ other ∷ vpns) =
    map (λ v. vpn_finding v (many_vpns tenant (vpn ∷ other ∷ vpns))) (vpn ∷ other ∷ vpns)

-- Rule 5
unfoldable pub check_l3vpn_renderable : Query → List Finding
unfolding wan_of sites_by_owner live_by_tenant sort tenant_findings
check_l3vpn_renderable parsed =
    each
      (tenant_findings (wan_of parsed) (cloud_tenants parsed.service_tenant_cloud)
        (sites_by_owner [] parsed.wan_site))
      (sort (λ a b. str_leb a.0 b.0) (live_by_tenant [] parsed.service_l3vpn))

abbrev pub live_vpns : Query → List L3vpn
live_vpns parsed = keep_if (λ (v : L3vpn). is_live v.status) parsed.service_l3vpn

abbrev pub cloud_findings : List (Option String) → Cloud → List Finding
cloud_findings tenants cloud =
    if is_live cloud.status && not (contains tenants (name_of cloud.tenant))
    then finding kind_cloud cloud.id (cloud_nowhere cloud) ∷ []
    else []

abbrev pub declares : L3vpn → Bool
declares vpn = not (is_empty vpn.dc_service_prefixes)

-- The prefixes of the two are the same set.
abbrev pub same_range : L3vpn → L3vpn → Bool
same_range a b =
    is_empty (minus a.dc_service_prefixes b.dc_service_prefixes)
    && is_empty (minus b.dc_service_prefixes a.dc_service_prefixes)

-- Not all members of the list state the same range.
abbrev pub disagree : List L3vpn → Bool
disagree [] = false
disagree (vpn ∷ vpns) = not (all_of (same_range vpn) vpns)

unfoldable pub range_findings : List L3vpn → List Finding
range_findings live =
    let declared = keep_if declares live in
    if not (is_empty live) && is_empty declared
    then map (λ v. vpn_finding v (no_source v)) live
    else if disagree declared
    then map (λ v. vpn_finding v (other_range v)) declared
    else []

-- Rule 6
unfoldable pub check_dependents_renderable : Query → List Finding
unfolding range_findings
check_dependents_renderable parsed =
    each (cloud_findings (map (λ (v : L3vpn). name_of v.tenant) (live_vpns parsed)))
      parsed.service_tenant_cloud
    ++ range_findings (live_vpns parsed)
