-- ===== src/Checks/Wan/Accepted.antt =====
-- What a live L3VPN has in a change that checks/wan_service_check.py lets through.
use infrahub_network_field_d.Base.{
  false≢true, ◌&&◌, keep_if, and_left, and_right, String, Bool, true, false, Option, none, some,
  List, [], ◌∷◌, ◌≡◌, refl, sym, ap, subst, ◌∙◌, inl, inr, if◌then◌else◌, ◌==◌, string_eq,
  option_eq, Bool-cases, contains, str_leb, is_empty,
}
use mathlib.Core.List.{Memᴰ}
use mathlib.Core.List.Memᴰ.{head, tail, not-nil}
use infrahub_network_field_d.Base.Dict.{Dict}
use infrahub_network_field_d.Base.Groups.{
  group, group-put_other, append_to-grows, append_to-Memᴰ, group-entry, Memᴰ-grows,
}
use infrahub_network_field_d.Base.Members.{All, keep_if-All, each-empty, append-empty, sort-member}
use infrahub_network_field_d.Checks.Wan.{validate}
use infrahub_network_field_d.Checks.Wan.Schema.{Query, Named, L3vpn, Cloud, Site}
use infrahub_network_field_d.Checks.Wan.Rendered.{
  is_live, is_safe, name_of, Wan, site_prerequisites,
}
use infrahub_network_field_d.Checks.Wan.Live.{
  wan_of, sites_step, sites_by_owner, live_step, live_by_tenant, cloud_tenants, vrf_reasons,
  missing, site_leb, site_reasons, tenant_findings, check_l3vpn_renderable,
}
use infrahub_network_field_d.Checks.Wan.Attached.{if_empty, unless_empty, IsRendered, site_quiet}
use infrahub_network_field_d.Checks.Wan.Isolated.{is_blocked, quiet-rules, map-empty}

live_step-Memᴰ :
    (d : Dict String (List L3vpn)) (b : Bool) (o : Option String) (u : L3vpn) (t : String)
    (v : L3vpn)
    → Memᴰ v (group d t)
    → Memᴰ v (group (live_step d b o u) t)
live_step-Memᴰ d false o u t v m = m
live_step-Memᴰ d true none u t v m = m
live_step-Memᴰ d true (some k) u t v m = append_to-grows (λ vs. Memᴰ v vs) (Memᴰ-grows v) d k t u m

live-grows :
    (d : Dict String (List L3vpn)) (vpns : List L3vpn) (t : String) (v : L3vpn)
    → Memᴰ v (group d t)
    → Memᴰ v (group (live_by_tenant d vpns) t)
unfolding live_by_tenant
live-grows d [] t v m = m
live-grows d (u ∷ vpns) t v m =
    live-grows (live_step d (is_live u.status) (name_of u.tenant) u) vpns t v
      (live_step-Memᴰ d (is_live u.status) (name_of u.tenant) u t v m)

-- A live L3VPN is among those of its tenant.
live-member :
    (d : Dict String (List L3vpn)) (vpns : List L3vpn) (t : String) (v : L3vpn)
    → Memᴰ v vpns
    → is_live v.status ≡ true
    → name_of v.tenant ≡ some t
    → Memᴰ v (group (live_by_tenant d vpns) t)
unfolding live_by_tenant
live-member d [] t v m l n = absurd (not-nil m)
live-member d (u ∷ vpns) t v (head e) l n =
    live-grows (live_step d (is_live u.status) (name_of u.tenant) u) vpns t v (
      subst (λ x. Memᴰ v (group (live_step d (is_live x.status) (name_of x.tenant) x) t)) e
        (subst (λ b. Memᴰ v (group (live_step d b (name_of v.tenant) v) t)) (sym l)
          (subst (λ o. Memᴰ v (group (live_step d true o v) t)) (sym n)
            (append_to-Memᴰ d t t v refl))))
live-member d (u ∷ vpns) t v (tail m) l n =
    live-member (live_step d (is_live u.status) (name_of u.tenant) u) vpns t v m l n

sites_step-Memᴰ :
    (d : Dict String (List Site)) (o : Option String) (u : Site) (t : String) (s : Site)
    → Memᴰ s (group d t)
    → Memᴰ s (group (sites_step d o u) t)
sites_step-Memᴰ d none u t s m = m
sites_step-Memᴰ d (some k) u t s m = append_to-grows (λ vs. Memᴰ s vs) (Memᴰ-grows s) d k t u m

sites-grows :
    (d : Dict String (List Site)) (sites : List Site) (t : String) (s : Site)
    → Memᴰ s (group d t)
    → Memᴰ s (group (sites_by_owner d sites) t)
unfolding sites_by_owner
sites-grows d [] t s m = m
sites-grows d (u ∷ sites) t s m =
    sites-grows (sites_step d (name_of u.tenant) u) sites t s
      (sites_step-Memᴰ d (name_of u.tenant) u t s m)

-- A site is among those of its owner.
sites-member :
    (d : Dict String (List Site)) (sites : List Site) (t : String) (s : Site)
    → Memᴰ s sites
    → name_of s.tenant ≡ some t
    → Memᴰ s (group (sites_by_owner d sites) t)
unfolding sites_by_owner
sites-member d [] t s m n = absurd (not-nil m)
sites-member d (u ∷ sites) t s (head e) n =
    sites-grows (sites_step d (name_of u.tenant) u) sites t s (
      subst (λ x. Memᴰ s (group (sites_step d (name_of x.tenant) x) t)) e
        (subst (λ o. Memᴰ s (group (sites_step d o s) t)) (sym n) (append_to-Memᴰ d t t s refl)))
sites-member d (u ∷ sites) t s (tail m) n =
    sites-member (sites_step d (name_of u.tenant) u) sites t s m n

-- Where a tenant's L3VPNs give no finding, each is the only one, and nothing of it is missing.
tenant-quiet :
    (wan : Wan) (clouds : List (Option String)) (sites : Dict String (List Site)) (t : String)
    (vpns : List L3vpn) (v : L3vpn)
    → tenant_findings wan clouds sites (t, vpns) ≡ []
    → Memᴰ v vpns
    → (vpns ≡ v ∷ []) × (missing wan clouds (group sites t) t v ≡ [])
unfolding tenant_findings
tenant-quiet wan clouds sites t [] v h m = absurd (not-nil m)
tenant-quiet wan clouds sites t (u ∷ []) v h (head e) = (
  ap (λ x. x ∷ []) (sym e),
  subst (λ x. missing wan clouds (group sites t) t x ≡ []) (sym e)
      (map-empty _ (missing wan clouds (group sites t) t u) h),
)
tenant-quiet wan clouds sites t (u ∷ []) v h (tail m) = absurd (not-nil m)
tenant-quiet wan clouds sites t (u ∷ w ∷ vpns) v h m = cc

-- A live cloud of the tenant.
cloud_of :
    (clouds : List Cloud) (t : String)
    → contains (cloud_tenants clouds) (some t) ≡ true
    → (c : Cloud) × Memᴰ c clouds × (is_live c.status ≡ true) × (name_of c.tenant ≡ some t)
cloud_of [] t h = cc
cloud_of (c ∷ clouds) t h = elim (Bool-cases (is_live c.status)) [
  | inr n ↦ let (d, m, l, q) = cloud_of clouds t (rw (n, cloud_tenants) at h) in (d, tail m, l, q)
  | inl l ↦ elim (Bool-cases (name_of c.tenant == some t)) [
    | inl e ↦ (c, head refl, l, (option_eq.beq_iff (name_of c.tenant) (some t)).0 e)
    | inr n ↦
        let (d, m, k, q) = cloud_of clouds t (rw n at (rw (l, cloud_tenants) at h)) in
        (d, tail m, k, q)
  ]
]

vrf_of :
    (o : Option Named)
    → vrf_reasons o ≡ []
    → (vrf : Named) × (o ≡ some vrf) × (is_safe vrf.name ≡ true)
vrf_of none h = cc
vrf_of (some vrf) h = (vrf, refl, if_empty (is_safe vrf.name) _ h)

-- A site is of the tenant with the name; an L3VPN is a live one of it.
abbrev pub is_site_of : String → Site → Bool
is_site_of t s = name_of s.tenant == some t

abbrev pub is_live_of : String → L3vpn → Bool
is_live_of t v = is_live v.status && (name_of v.tenant == some t)

sites_step-empty :
    (d : Dict String (List Site)) (o : Option String) (u : Site) (t : String)
    → (o == some t) ≡ false
    → is_empty (group d t) ≡ true
    → is_empty (group (sites_step d o u) t) ≡ true
sites_step-empty d none u t n h = h
sites_step-empty d (some k) u t n h = ap is_empty (group-put_other d k t _ n) ∙ h

sites-empty :
    (d : Dict String (List Site)) (sites : List Site) (t : String)
    → is_empty (group d t) ≡ true
    → is_empty (keep_if (is_site_of t) sites) ≡ true
    → is_empty (group (sites_by_owner d sites) t) ≡ true
unfolding sites_by_owner
sites-empty d [] t h k = h
sites-empty d (u ∷ sites) t h k = elim (Bool-cases (is_site_of t u)) [
  | inl y ↦ let no = rw y at k in cc
  | inr n ↦
      sites-empty (sites_step d (name_of u.tenant) u) sites t
        (sites_step-empty d (name_of u.tenant) u t n h) (rw n at k)
]

some-site :
    (sites : List Site) (t : String)
    → is_empty (group (sites_by_owner [] sites) t) ≡ false
    → is_empty (keep_if (is_site_of t) sites) ≡ false
some-site sites t h = elim (Bool-cases (is_empty (keep_if (is_site_of t) sites))) [
  | inl y ↦ absurd (false≢true (sym h ∙ sites-empty [] sites t refl y))
  | inr n ↦ n
]

only_member : (v w : L3vpn) → Memᴰ w (v ∷ []) → w ≡ v
only_member v w (head e) = e
only_member v w (tail m) = absurd (not-nil m)

-- In a change that is not blocked, a live L3VPN whose tenant has a name is the only live one of that
-- tenant; it has a provider-edge VRF with a name that can be rendered; the tenant has a live cloud
-- and some site; and each site of the tenant has a name that can be rendered and, if it is attached
-- by BGP, a number, a session on either side and a grouped customer edge with a router's id, whose
-- peer address, if any, is on the network of a provider edge's port; if not, a first static route to
-- a next hop that a device owns, on such a network.
pub validate-renders :
    (parsed : Query) (v : L3vpn) (t : String)
    → is_blocked (validate parsed) ≡ false
    → Memᴰ v parsed.service_l3vpn
    → is_live v.status ≡ true
    → name_of v.tenant ≡ some t
    → All (λ w. w ≡ v) (keep_if (is_live_of t) parsed.service_l3vpn)
      × ((vrf : Named) × (v.vrf ≡ some vrf) × (is_safe vrf.name ≡ true))
      × ((c : Cloud) × Memᴰ c parsed.service_tenant_cloud
          × (is_live c.status ≡ true)
          × (name_of c.tenant ≡ some t))
      × (is_empty (keep_if (is_site_of t) parsed.wan_site) ≡ false)
      × All (IsRendered (wan_of parsed)) (keep_if (is_site_of t) parsed.wan_site)
unfolding check_l3vpn_renderable missing
validate-renders parsed v t h vm vl vt =
    let wan = wan_of parsed in
    let clouds = cloud_tenants parsed.service_tenant_cloud in
    let sites = sites_by_owner [] parsed.wan_site in
    let live = live_by_tenant [] parsed.service_l3vpn in
    let mine = live-member [] parsed.service_l3vpn t v vm vl vt in
    let quiet =
      each-empty (tenant_findings wan clouds sites) _ (quiet-rules parsed h).4 (t, group live t)
        (sort-member (λ a b. str_leb a.0 b.0) (group-entry live t v mine)) in
    let (alone, nothing) = tenant-quiet wan clouds sites t (group live t) v quiet mine in
    let named = append-empty (if is_safe (some t) then [] else _ ∷ []) _ nothing in
    let vrf = append-empty (vrf_reasons v.vrf) _ named.1 in
    let cloud = append-empty (if contains clouds (some t) then [] else _ ∷ []) _ vrf.1 in
    let none_missing = append-empty (if is_empty (group sites t) then _ ∷ [] else []) _ cloud.1 in
    let some_site = unless_empty (is_empty (group sites t)) _ none_missing.0 in
    (
      keep_if-All (λ w. w ≡ v) (is_live_of t) parsed.service_l3vpn
          (λ w m k. only_member v w (
            subst (λ vs. Memᴰ w vs) alone
              (live-member [] parsed.service_l3vpn t w m (and_left _ _ k)
                ((option_eq.beq_iff (name_of w.tenant) (some t)).0 (and_right _ _ k))))),
      vrf_of v.vrf vrf.0,
      cloud_of parsed.service_tenant_cloud t (if_empty (contains clouds (some t)) _ cloud.0),
      some-site parsed.wan_site t some_site,
      keep_if-All (IsRendered wan) (is_site_of t) parsed.wan_site (λ s m k. site_quiet wan s (
          map-empty _ (site_prerequisites wan s) (
            each-empty (site_reasons wan) _ none_missing.1 s (
              sort-member site_leb (
                sites-member [] parsed.wan_site t s m
                  ((option_eq.beq_iff (name_of s.tenant) (some t)).0 k)))))),
    )
