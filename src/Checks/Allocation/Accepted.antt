-- ===== src/Checks/Allocation/Accepted.antt =====
-- What checks/allocation_consistency_check.py refuses, and what holds of a branch that it lets
-- through.
use infrahub_network_field_d.Base.{
  ℕ, zero, suc, ◌^◌, ◌<◌, ◌-◌, String, Bool, true, false, ◌&&◌, ◌||◌, not, some, List, [], ◌∷◌,
  ◌++◌, ◌≡◌, refl, ap, subst, ◌∙◌, inl, inr, string_eq, nat_eq, Bool-cases, arith, sort, str_leb,
  map, is_empty, contains, keep_if, any_of, and_intro, nat_beq_iff, contains_cases,
}
use mathlib.Core.List.{Memᴰ}
use mathlib.Core.List.Memᴰ.{head, append_left, not-nil}
use mathlib.Core.List.Memᴰ as Mem
use native.Mathlib.Nat.{pow-succ'}
use infrahub_network_field_d.Base.Members.{
  Before, each, combinations, Before-combinations, each-empty, append-empty, any_of-Memᴰ,
}
use infrahub_network_field_d.Pools.Prefixes.{Network, holds, overlaps, last, width, size}
use infrahub_network_field_d.Checks.Allocation.{
  Entry, log_error, log_info, validate, collect_findings,
}
use infrahub_network_field_d.Checks.Allocation.Schema.{
  Query, Readers, ServiceVlan, TenantSubnet, VipBlock, Finding, renders_vlan, networks_overlap,
}
use infrahub_network_field_d.Checks.Allocation.Vlans.{
  service_vlans, shared_tags, is_same, clash_findings, check_fabric_vlan_ids, check_vlan_reference,
}
use infrahub_network_field_d.Checks.Allocation.Subnets.{
  tenant_subnets, check_segment_subnets, overlap_findings, shared_findings, are_apart, are_unplaced,
}
use infrahub_network_field_d.Checks.Allocation.Vips.{
  vip_blocks, check_vip_blocks, pool_findings, block_findings, is_inside,
}
use infrahub_network_field_d.Checks.Allocation.Fabrics.{clash_findings-member}

abbrev is_error : Entry → Bool
is_error (log_error f) = true
is_error (log_info v s b) = false

-- A merge that the check blocks.
abbrev pub is_blocked : List Entry → Bool
is_blocked = any_of is_error

-- No error is logged just where nothing is found.
validate-collect_findings :
    (readers : Readers) (parsed : Query)
    → is_blocked (validate readers parsed) ≡ false
    → collect_findings readers parsed ≡ []
unfolding validate
validate-collect_findings readers parsed h = go (collect_findings readers parsed) _ h
  where
    go :
        (fs : List Finding) (rest : List Entry)
        → is_blocked (map log_error fs ++ rest) ≡ false
        → fs ≡ []
    go [] rest k = refl
    go (f ∷ fs) rest k = cc

-- Each rule found nothing.
findings-empty :
    (readers : Readers) (parsed : Query)
    → is_blocked (validate readers parsed) ≡ false
    → (check_fabric_vlan_ids parsed ≡ [])
      × (check_vlan_reference parsed ≡ [])
      × (check_segment_subnets readers parsed ≡ [])
      × (check_vip_blocks readers parsed ≡ [])
unfolding collect_findings
findings-empty readers parsed h =
    let (a, r) =
      append-empty (check_fabric_vlan_ids parsed) _ (validate-collect_findings readers parsed h) in
    let (b, s) = append-empty (check_vlan_reference parsed) _ r in
    let (c, d) = append-empty (check_segment_subnets readers parsed) _ s in (a, b, c, d)

shared-empty :
    (xs ys : List String) (t : String)
    → contains xs t ≡ true
    → contains ys t ≡ true
    → is_empty (keep_if (λ u. contains ys u) xs) ≡ false
shared-empty [] ys t p q = cc
shared-empty (u ∷ us) ys t p q = elim (contains_cases u t us p) [
  | inl e ↦ let h : contains ys u ≡ true = ap (contains ys) e ∙ q in rw h refl
  | inr m ↦ elim (Bool-cases (contains ys u)) [
    | inl t ↦ rw t refl
    | inr f ↦ rw f (shared-empty us ys t m q)
  ]
]

no_members : {A : Type 0} (xs : List A) → ((a : A) → Memᴰ a xs → Memᴰ {A = A} a []) → xs ≡ []
no_members [] h = refl
no_members (x ∷ xs) h = absurd (not-nil (h x (head refl)))

clash_findings-empty :
    (f : String) (l r : ServiceVlan)
    → clash_findings f (l, r) ≡ []
    → ((is_same l.vlan_id r.vlan_id && not (is_empty (shared_tags l r))) ≡ false)
      × (is_same l.vni r.vni ≡ false)
unfolding clash_findings
clash_findings-empty f l r h = ground arith

-- Two VLANs of one fabric that have the same id and a tag in common are refused: an error is logged
-- that names the later of the two.
pub validate-refuses_clash :
    (readers : Readers) (parsed : Query) (l r : ServiceVlan) (g : String × String) (n : ℕ)
    (t : String)
    → Before l r (service_vlans parsed)
    → Memᴰ g l.fabrics
    → Memᴰ g r.fabrics
    → l.vlan_id ≡ some n
    → r.vlan_id ≡ some n
    → contains l.tags t ≡ true
    → contains r.tags t ≡ true
    → Memᴰ
        (log_error (record {
          message = renders_vlan l r g.1 (sort str_leb (shared_tags l r));
          object_id = r.object_id;
          object_type = r.kind;
        }))
        (validate readers parsed)
unfolding validate collect_findings clash_findings
validate-refuses_clash readers parsed l r g n t b p q i j tl tr =
    let same : (is_same l.vlan_id r.vlan_id && not (is_empty (shared_tags l r))) ≡ true =
      and_intro (ground (arith, nat_eq.beq_iff n n))
        (ap not (shared-empty l.tags r.tags t tl tr)) in
    append_left _ (
      Mem.map log_error
        (append_left _ (clash_findings-member parsed l r g _ b p q (rw same (head refl)))))

-- Where the check logs no error, two VLANs of one fabric share no tag or no VLAN id, and have not the
-- same VNI.
pub validate-accepts_vlans :
    (readers : Readers) (parsed : Query) (l r : ServiceVlan) (g : String × String) (t : String)
    → is_blocked (validate readers parsed) ≡ false
    → Before l r (service_vlans parsed)
    → Memᴰ g l.fabrics
    → Memᴰ g r.fabrics
    → ((is_same l.vlan_id r.vlan_id && (contains l.tags t && contains r.tags t)) ≡ false)
      × (is_same l.vni r.vni ≡ false)
validate-accepts_vlans readers parsed l r g t h b p q =
    let none_found = (findings-empty readers parsed h).0 in
    let (i, v) = clash_findings-empty g.1 l r (
      no_members (clash_findings g.1 (l, r)) (λ x m.
        subst (λ xs. Memᴰ x xs) none_found (clash_findings-member parsed l r g x b p q m))) in
    (ground (arith, shared-empty l.tags r.tags t), v)

no_findings :
    (readers : Readers) (parsed : Query)
    → is_blocked (validate readers parsed) ≡ false
    → (each pool_findings (vip_blocks readers parsed) ≡ [])
      × (each block_findings (combinations (vip_blocks readers parsed)) ≡ [])
unfolding check_vip_blocks
no_findings readers parsed h =
    append-empty (each pool_findings (vip_blocks readers parsed)) _
      (findings-empty readers parsed h).3

pool_findings-empty :
    (b : VipBlock) → pool_findings b ≡ [] → any_of (is_inside b.network) b.pools ≡ true
unfolding pool_findings
pool_findings-empty b h = ground arith

pub pow_positive : (n : ℕ) → 0 < 2 ^ n
pow_positive zero = omega arith
pow_positive (suc n) = omega (arith, pow-succ' 2 n, pow_positive n)

pub is_inside-holds :
    (a b : Network) (x : ℕ) → is_inside a b ≡ true → holds a x ≡ true → holds b x ≡ true
unfolding is_inside holds last size
is_inside-holds a b x h k = ground (arith, pow_positive (width b.version - b.prefix))

-- Where the check logs no error, each address of a VIP block is an address of a pool of its cluster.
pub validate-accepts_vip_block :
    (readers : Readers) (parsed : Query) (b : VipBlock) (x : ℕ)
    → is_blocked (validate readers parsed) ≡ false
    → Memᴰ b (vip_blocks readers parsed)
    → holds b.network x ≡ true
    → (p : Network) × Memᴰ p b.pools × (b.network.version ≡ p.version) × (holds p x ≡ true)
unfolding is_inside
validate-accepts_vip_block readers parsed b x h m k =
    let inside =
      pool_findings-empty b (
        each-empty pool_findings (vip_blocks readers parsed) (no_findings readers parsed h).0 b
          m) in
    let (p, on, t) = any_of-Memᴰ (is_inside b.network) b.pools inside in
    (
      p,
      on,
      ground (arith, nat_beq_iff b.network.version p.version),
      is_inside-holds b.network p x t k,
    )

pub overlaps-holds :
    (a b : Network) (x : ℕ) → overlaps a b ≡ false → (holds a x && holds b x) ≡ false
unfolding overlaps holds
overlaps-holds a b x h = ground arith

networks_overlap-holds :
    (a b : Network) (x : ℕ)
    → a.version ≡ b.version
    → networks_overlap a b ≡ false
    → (holds a x && holds b x) ≡ false
networks_overlap-holds a b x v h =
    overlaps-holds a b x (ground (arith, nat_beq_iff a.version b.version))

block_findings-empty :
    (l r : VipBlock) → block_findings (l, r) ≡ [] → networks_overlap l.network r.network ≡ false
unfolding block_findings
block_findings-empty l r h = ground arith

-- Where the check logs no error, two VIP blocks of one version share no address.
pub validate-accepts_vip_blocks :
    (readers : Readers) (parsed : Query) (l r : VipBlock) (x : ℕ)
    → is_blocked (validate readers parsed) ≡ false
    → Before l r (vip_blocks readers parsed)
    → l.network.version ≡ r.network.version
    → (holds l.network x && holds r.network x) ≡ false
validate-accepts_vip_blocks readers parsed l r x h b v =
    networks_overlap-holds l.network r.network x v (
      block_findings-empty l r (
        each-empty block_findings _ (no_findings readers parsed h).1 (l, r)
          (Before-combinations b)))

overlap_findings-empty :
    (l r : TenantSubnet)
    → overlap_findings (l, r) ≡ []
    → (are_apart l.vrf r.vrf || are_unplaced l r) ≡ false
    → networks_overlap l.network r.network ≡ false
unfolding overlap_findings
overlap_findings-empty l r h k = ground arith

-- Where the check logs no error, two tenant subnets of one version share no address, unless they are
-- in VRFs of different ids, or neither was allocated and neither has a known VRF.
pub validate-accepts_subnets :
    (readers : Readers) (parsed : Query) (l r : TenantSubnet) (x : ℕ)
    → is_blocked (validate readers parsed) ≡ false
    → Before l r (tenant_subnets readers parsed)
    → l.network.version ≡ r.network.version
    → (are_apart l.vrf r.vrf || are_unplaced l r) ≡ false
    → (holds l.network x && holds r.network x) ≡ false
unfolding check_segment_subnets
validate-accepts_subnets readers parsed l r x h b v near =
    let none_found =
      append-empty (each shared_findings (tenant_subnets readers parsed)) _
        (findings-empty readers parsed h).2 in
    networks_overlap-holds l.network r.network x v (
      overlap_findings-empty l r
        (each-empty overlap_findings _ none_found.1 (l, r) (Before-combinations b)) near)
