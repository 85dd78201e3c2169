-- ===== src/Checks/Wan/Isolated.antt =====
-- The isolation of the tenants in a change that checks/wan_service_check.py lets through.
use infrahub_network_field_d.Base.{
  String, Bool, true, false, Option, none, some, List, [], ◌∷◌, ◌++◌, ◌≡◌, ◌≢◌, refl, sym, ap,
  subst, inl, inr, map, ◌==◌, string_eq, Bool-cases, arith, any_of, length, ltb, str_leb,
  false≢true,
}
use mathlib.Core.List.{Memᴰ}
use mathlib.Core.List.Memᴰ.{head, tail, not-nil}
use infrahub_network_field_d.Base.Dict.{Dict}
use infrahub_network_field_d.Base.Groups.{
  append_to, group, append_to-grows, append_to-Memᴰ, append_to-Before, group-entry, Memᴰ-grows,
  Before-grows,
}
use infrahub_network_field_d.Base.Members.{
  All, AllPairs, Memᴰ-All, Before-AllPairs, AllPairs-map, each, each-empty, each-member, Before,
  here, later, append-Before, append-empty, sort-member, member-keep_if, Before-member,
}
use infrahub_network_field_d.Checks.Wan.{
  validate, collect_findings, Entry, log_error, log_info, log,
}
use infrahub_network_field_d.Checks.Wan.Schema.{
  Query, Named, Zone, Circuit, L3vpn, Cloud, Finding, Message, kind_l3vpn, kind_cloud, shared_vrf,
  shared_peer,
}
use infrahub_network_field_d.Checks.Wan.Live.{check_l3vpn_renderable, check_dependents_renderable}
use infrahub_network_field_d.Checks.Wan.Rules.{
  check_circuit_membership, check_exclusive_vrfs, check_cloud_zone_matches_vrf,
  check_exclusive_clouds, circuit_findings, circuit_finding, zone_findings, zone_finding, zone_vrf,
  zone_named, Claim, grouped, shared, exclusive, shared_findings, claim_of, cloud_vrf_pairs,
  name_or,
}

abbrev is_error : Entry → Bool
is_error (log_error f) = true
is_error log_info = false

-- A merge that the check blocks.
abbrev pub is_blocked : List Entry → Bool
is_blocked = any_of is_error

pub log-quiet : (fs : List Finding) → is_blocked (log fs) ≡ false → fs ≡ []
log-quiet [] h = refl
log-quiet (f ∷ fs) h = cc

module _ {A B : Type 0} (f : A → List B) where
  Before-append_left : {l r : B} (xs : List B) {ys : List B} → Before l r ys → Before l r (xs ++ ys)
  Before-append_left [] b = b
  Before-append_left (x ∷ xs) b = later (Before-append_left xs b)

  each-Before :
      {l r : B} {a b : A} {xs : List A}
      → Before a b xs
      → Memᴰ l (f a)
      → Memᴰ r (f b)
      → Before l r (each f xs)
  each-Before {l} (here {x} e m) p q =
      append-Before (subst (λ z. Memᴰ l (f z)) e p) (each-member f m q)
  each-Before (later {x} b) p q = Before-append_left (f x) (each-Before b p q)

Before-length : {A : Type 0} {l r : A} (xs : List A) → Before l r xs → ltb 1 (length xs) ≡ true
Before-length [] b = elim b [ ]
Before-length (x ∷ []) (here e m) = absurd (not-nil m)
Before-length (x ∷ []) (later b) = elim b [ ]
Before-length (x ∷ y ∷ ys) b = ground arith

grouped-Memᴰ :
    (d : Dict String (List Claim)) (pairs : List (String × Claim)) (k : String) (v : Claim)
    → Memᴰ v (group d k)
    → Memᴰ v (group (grouped d pairs) k)
unfolding grouped
grouped-Memᴰ d [] k v m = m
grouped-Memᴰ d ((j, w) ∷ pairs) k v m =
    grouped-Memᴰ (append_to d j w) pairs k v
      (append_to-grows (λ vs. Memᴰ v vs) (Memᴰ-grows v) d j k w m)

grouped-grows :
    (d : Dict String (List Claim)) (pairs : List (String × Claim)) (k : String) (v w : Claim)
    → Before v w (group d k)
    → Before v w (group (grouped d pairs) k)
unfolding grouped
grouped-grows d [] k v w b = b
grouped-grows d ((j, u) ∷ pairs) k v w b =
    grouped-grows (append_to d j u) pairs k v w
      (append_to-grows (λ vs. Before v w vs) (Before-grows v w) d j k u b)

-- A claim before which another of the same peer was appended.
grouped-after :
    (d : Dict String (List Claim)) (pairs : List (String × Claim)) (k : String) (v w : Claim)
    → Memᴰ v (group d k)
    → Memᴰ (k, w) pairs
    → Before v w (group (grouped d pairs) k)
unfolding grouped
grouped-after d [] k v w m n = absurd (not-nil n)
grouped-after d ((j, u) ∷ pairs) k v w m (head e) = grouped-grows (append_to d j u) pairs k v w (
    subst (λ z. Before v z (group (append_to d j u) k)) (ap (λ x. x.1) (sym e))
      (append_to-Before d j k v u (ap (λ x. x.0) (sym e)) m))
grouped-after d ((j, u) ∷ pairs) k v w m (tail n) =
    grouped-after (append_to d j u) pairs k v w
      (append_to-grows (λ vs. Memᴰ v vs) (Memᴰ-grows v) d j k u m) n

grouped-Before :
    (d : Dict String (List Claim)) (pairs : List (String × Claim)) (k : String) (v w : Claim)
    → Before (k, v) (k, w) pairs
    → Before v w (group (grouped d pairs) k)
unfolding grouped
grouped-Before d [] k v w b = elim b [ ]
grouped-Before d ((j, u) ∷ pairs) k v w (here e m) =
    grouped-after (append_to d j u) pairs k v w
      (subst (λ z. Memᴰ z (group (append_to d j u) k)) (ap (λ x. x.1) (sym e))
        (append_to-Memᴰ d j k u (ap (λ x. x.0) (sym e))))
      m
grouped-Before d ((j, u) ∷ pairs) k v w (later b) = grouped-Before (append_to d j u) pairs k v w b

pub map-empty : {A B : Type 0} (f : A → B) (xs : List A) → map f xs ≡ [] → xs ≡ []
map-empty f [] h = refl
map-empty f (x ∷ xs) h = cc

-- Where nothing is found, no two claims are of one peer.
exclusive-apart :
    (kind : String) (message : String → List String → Message) (pairs : List (String × Claim))
    (k : String) (v w : Claim)
    → exclusive kind message pairs ≡ []
    → Before (k, v) (k, w) pairs
    → false ≡ true
unfolding exclusive shared
exclusive-apart kind message pairs k v w h b =
    let claims = group (grouped [] pairs) k in
    let twice : Before v w claims = grouped-Before [] pairs k v w b in
    let entry : Memᴰ (k, claims) (grouped [] pairs) =
      group-entry (grouped [] pairs) k v (Before-member twice).0 in
    let kept =
      member-keep_if (λ entry. ltb 1 (length entry.1)) entry (Before-length claims twice) in
    let none_of =
      each-empty (shared_findings kind message) _ h (k, claims)
        (sort-member (λ a b. str_leb a.0 b.0) kept) in
    let empty : claims ≡ [] = map-empty _ claims none_of in
    absurd (not-nil (subst (λ cs. Memᴰ v cs) empty (Before-member twice).0))

-- What is found nowhere is found by none of the rules.
pub quiet-rules :
    (parsed : Query)
    → is_blocked (validate parsed) ≡ false
    → (check_circuit_membership parsed ≡ [])
      × (check_exclusive_vrfs parsed ≡ [])
      × (check_cloud_zone_matches_vrf parsed ≡ [])
      × (check_exclusive_clouds parsed ≡ [])
      × (check_l3vpn_renderable parsed ≡ [])
      × (check_dependents_renderable parsed ≡ [])
unfolding validate collect_findings
quiet-rules parsed h =
    let a =
      append-empty (check_circuit_membership parsed) _ (log-quiet (collect_findings parsed) h) in
    let b = append-empty (check_exclusive_vrfs parsed) _ a.1 in
    let c = append-empty (check_cloud_zone_matches_vrf parsed) _ b.1 in
    let d = append-empty (check_exclusive_clouds parsed) _ c.1 in
    let f = append-empty (check_l3vpn_renderable parsed) _ d.1 in (a.0, b.0, c.0, d.0, f.0, f.1)

abbrev claim_in : Named → String → Option String → Claim
claim_in peer id name = record {
  peer_name = name_or peer.name peer.id;
  service_id = id;
  service_name = name_or name id;
}

-- The claims of one peer, by two services in order.
claims_apart :
    {A : Type 0} (kind : String) (message : String → List String → Message)
    (f : A → List (String × Claim)) (xs : List A) (a b : A) (p q : Named) (i j : String)
    (m n : Option String)
    → exclusive kind message (each f xs) ≡ []
    → Before a b xs
    → f a ≡ claim_of (some p) i m
    → f b ≡ claim_of (some q) j n
    → p.id ≢ q.id
claims_apart kind message f xs a b p q i j m n h before l r same = false≢true (
    exclusive-apart kind message (each f xs) p.id (claim_in p i m) (claim_in q j n) h (
      each-Before f before (subst (λ c. Memᴰ (p.id, claim_in p i m) c) (sym l) (head refl)) (
        subst (λ c. Memᴰ (p.id, claim_in q j n) c) (sym r)
          (head (ap (λ k. (k, claim_in q j n)) same)))))

-- Two nodes, where both are known, are not the same one; they are.
abbrev pub AreApart : Option Named → Option Named → Type 0
AreApart none q = Unit
AreApart (some p) none = Unit
AreApart (some p) (some q) = p.id ≢ q.id

abbrev pub AreSame : Option Named → Option Named → Type 0
AreSame none q = Unit
AreSame (some p) none = Unit
AreSame (some p) (some q) = p.id ≡ q.id

abbrev pub HaveOwnZones : Option Zone → Option Zone → Type 0
HaveOwnZones none z = Unit
HaveOwnZones (some y) none = Unit
HaveOwnZones (some y) (some z) = y.id ≢ z.id

-- The VRF that a zone governs, where it governs one, is the given one.
abbrev pub Governs : Option Zone → Option Named → Type 0
Governs none vrf = Unit
Governs (some zone) vrf = AreSame zone.vrf vrf

-- No two of the services name one peer, where none is found.
pairs_apart :
    {A : Type 0} (kind : String) (message : String → List String → Message)
    (peer : A → Option Named) (id : A → String) (name : A → Option String) (xs : List A)
    → exclusive kind message (each (λ a. claim_of (peer a) (id a) (name a)) xs) ≡ []
    → AllPairs (λ a b. AreApart (peer a) (peer b)) xs
pairs_apart {A} kind message peer id name xs h =
    Before-AllPairs (λ a b. AreApart (peer a) (peer b)) xs (λ a b before. two a b before)
  where
    both : (a b : A) (o r : Option Named) → Before a b xs → peer a ≡ o → peer b ≡ r → AreApart o r
    both a b none r before l m = tt
    both a b (some p) none before l m = tt
    both a b (some p) (some q) before l m =
        claims_apart kind message (λ a. claim_of (peer a) (id a) (name a)) xs a b p q (id a) (id b)
          (name a) (name b) h before (ap (λ x. claim_of x (id a) (name a)) l)
          (ap (λ x. claim_of x (id b) (name b)) m)

    two : (a b : A) → Before a b xs → AreApart (peer a) (peer b)
    two a b before = both a b (peer a) (peer b) before refl refl

own_circuit :
    (v : L3vpn) (c : Circuit) (tenant owner : Option Named)
    → circuit_finding v c tenant owner ≡ []
    → AreSame owner tenant
own_circuit v c tenant none h = tt
own_circuit v c none (some owner) h = tt
own_circuit v c (some tenant) (some owner) h = elim (Bool-cases (owner.id == tenant.id)) [
  | inl t ↦ (string_eq.beq_iff owner.id tenant.id).0 t
  | inr n ↦ let q = rw n at h in cc
]

own_zone :
    (c : Cloud) (vrf governed : Option Named)
    → zone_finding c vrf governed ≡ []
    → AreSame governed vrf
own_zone c vrf none h = tt
own_zone c none (some governed) h = tt
own_zone c (some vrf) (some governed) h = elim (Bool-cases (governed.id == vrf.id)) [
  | inl t ↦ (string_eq.beq_iff governed.id vrf.id).0 t
  | inr n ↦ let q = rw n at h in cc
]

zone_vrf-Governs :
    (zone : Option Zone) (vrf : Option Named) → AreSame (zone_vrf zone) vrf → Governs zone vrf
zone_vrf-Governs none vrf h = tt
zone_vrf-Governs (some zone) vrf h = h

zone_named-HaveOwnZones :
    (y z : Option Zone) → AreApart (zone_named y) (zone_named z) → HaveOwnZones y z
zone_named-HaveOwnZones none z h = tt
zone_named-HaveOwnZones (some y) none h = tt
zone_named-HaveOwnZones (some y) (some z) h = h

-- In a change that is not blocked, no two of the L3VPNs have a provider-edge VRF in common, whatever
-- their status; and each circuit of each L3VPN, where the tenant of both is known, is of the L3VPN's
-- tenant.
pub validate-isolates_vpns :
    (parsed : Query)
    → is_blocked (validate parsed) ≡ false
    → AllPairs (λ v w. AreApart v.vrf w.vrf) parsed.service_l3vpn
      × All (λ v. All (λ c. AreSame c.tenant v.tenant) v.circuits) parsed.service_l3vpn
unfolding check_exclusive_vrfs check_circuit_membership
validate-isolates_vpns parsed h =
    let quiet = quiet-rules parsed h in
    let of_v = each-empty circuit_findings parsed.service_l3vpn quiet.0 in
    (
      pairs_apart kind_l3vpn shared_vrf (λ (v : L3vpn). v.vrf) (λ (v : L3vpn). v.id)
          (λ (v : L3vpn). v.name) parsed.service_l3vpn quiet.1,
      Memᴰ-All _ parsed.service_l3vpn (λ v m. Memᴰ-All _ v.circuits (λ c k.
          own_circuit v c v.tenant c.tenant (
            each-empty (λ (c : Circuit). circuit_finding v c v.tenant c.tenant) v.circuits
              (of_v v m) c k))),
    )

-- In a change that is not blocked, no two of the tenant clouds have a VRF in common, and no two have
-- a firewall zone in common, whatever their status; and where the zone of a cloud with a VRF governs
-- a VRF, it is the cloud's.
pub validate-isolates_clouds :
    (parsed : Query)
    → is_blocked (validate parsed) ≡ false
    → AllPairs (λ a b. AreApart a.vrf b.vrf) parsed.service_tenant_cloud
      × AllPairs (λ a b. HaveOwnZones a.zone b.zone) parsed.service_tenant_cloud
      × All (λ c. Governs c.zone c.vrf) parsed.service_tenant_cloud
unfolding check_exclusive_clouds check_cloud_zone_matches_vrf
validate-isolates_clouds parsed h =
    let clouds = parsed.service_tenant_cloud in
    let quiet = quiet-rules parsed h in
    let both =
      append-empty (exclusive kind_cloud (shared_peer "VRF") (cloud_vrf_pairs clouds)) _ quiet.3 in
    let zones : AllPairs (λ a b. AreApart (zone_named a.zone) (zone_named b.zone)) clouds =
      pairs_apart kind_cloud (shared_peer "firewall zone") (λ (c : Cloud). zone_named c.zone)
        (λ (c : Cloud). c.id) (λ (c : Cloud). c.name) clouds both.1 in
    (
      pairs_apart kind_cloud (shared_peer "VRF") (λ (c : Cloud). c.vrf) (λ (c : Cloud). c.id)
          (λ (c : Cloud). c.name) clouds both.0,
      AllPairs-map _ _ clouds (λ a b. zone_named-HaveOwnZones a.zone b.zone) zones,
      Memᴰ-All _ clouds (λ c m.
          zone_vrf-Governs c.zone c.vrf
            (own_zone c c.vrf (zone_vrf c.zone) (each-empty zone_findings clouds quiet.2 c m))),
    )
