-- ===== src/Checks/Allocation/Fabrics.antt =====
-- What the grouping by fabric in check_fabric_vlan_ids keeps, of
-- checks/allocation_consistency_check.py.
use infrahub_network_field_d.Base.{String, List, [], ◌∷◌, ◌++◌, sym, subst, string_eq, pair_eq}
use mathlib.Core.List.{Memᴰ}
use mathlib.Core.List.Memᴰ.{head, tail, not-nil}
use infrahub_network_field_d.Base.Groups.{
  group, append_to-grows, append_to-Memᴰ, append_to-Before, group-entry, Memᴰ-grows, Before-grows,
}
use infrahub_network_field_d.Base.Members.{
  Before, here, later, Before-combinations, each-member, sort-member, Before-member,
}
use infrahub_network_field_d.Checks.Allocation.Schema.{Query, ServiceVlan, Finding}
use infrahub_network_field_d.Checks.Allocation.Vlans.{
  ByFabric, append_vlan, by_fabric, clash_findings, fabric_findings, fabric_leb,
  check_fabric_vlan_ids, service_vlans,
}

-- What holds of a fabric's VLANs, and of them with any VLANs after them, holds when more are added.
module _ (Q : List ServiceVlan → Type 0)
    (grow : (xs ys : List ServiceVlan) → Q xs → Q (xs ++ ys)) where
  append_vlan-grows :
      (v : ServiceVlan) (fs : List (String × String)) (d : ByFabric) (g : String × String)
      → Q (group d g)
      → Q (group (append_vlan v fs d) g)
  unfolding append_vlan
  append_vlan-grows v [] d g h = h
  append_vlan-grows v (f ∷ fs) d g h = append_vlan-grows v fs _ g (append_to-grows Q grow d f g v h)

  by_fabric-grows :
      (vs : List ServiceVlan) (d : ByFabric) (g : String × String)
      → Q (group d g)
      → Q (group (by_fabric vs d) g)
  unfolding by_fabric
  by_fabric-grows [] d g h = h
  by_fabric-grows (v ∷ vs) d g h = by_fabric-grows vs _ g (append_vlan-grows v v.fabrics d g h)

-- A VLAN is among the VLANs of its fabrics.
append_vlan-adds :
    (v : ServiceVlan) (fs : List (String × String)) (d : ByFabric) (g : String × String)
    → Memᴰ g fs
    → Memᴰ v (group (append_vlan v fs d) g)
unfolding append_vlan
append_vlan-adds v [] d g m = absurd (not-nil m)
append_vlan-adds v (f ∷ fs) d g (head p) =
    append_vlan-grows (Memᴰ v) (Memᴰ-grows v) v fs _ g (append_to-Memᴰ d f g v (sym p))
append_vlan-adds v (f ∷ fs) d g (tail m) = append_vlan-adds v fs _ g m

-- And it stands there after each VLAN that was there.
append_vlan-pairs :
    (l v : ServiceVlan) (fs : List (String × String)) (d : ByFabric) (g : String × String)
    → Memᴰ l (group d g)
    → Memᴰ g fs
    → Before l v (group (append_vlan v fs d) g)
unfolding append_vlan
append_vlan-pairs l v [] d g k m = absurd (not-nil m)
append_vlan-pairs l v (f ∷ fs) d g k (head p) =
    append_vlan-grows (Before l v) (Before-grows l v) v fs _ g
      (append_to-Before d f g l v (sym p) k)
append_vlan-pairs l v (f ∷ fs) d g k (tail m) =
    append_vlan-pairs l v fs _ g (append_to-grows (Memᴰ l) (Memᴰ-grows l) d f g v k) m

by_fabric-follows :
    (l r : ServiceVlan) (vs : List ServiceVlan) (d : ByFabric) (g : String × String)
    → Memᴰ l (group d g)
    → Memᴰ r vs
    → Memᴰ g r.fabrics
    → Before l r (group (by_fabric vs d) g)
unfolding by_fabric
by_fabric-follows l r [] d g k m on = absurd (not-nil m)
by_fabric-follows l r (v ∷ vs) d g k (head p) on =
    subst (λ z. Before l z (group (by_fabric (v ∷ vs) d) g)) (sym p)
      (by_fabric-grows (Before l v) (Before-grows l v) vs _ g (
        append_vlan-pairs l v v.fabrics d g k (subst (λ (z : ServiceVlan). Memᴰ g z.fabrics) p on)))
by_fabric-follows l r (v ∷ vs) d g k (tail m) on =
    by_fabric-follows l r vs _ g (append_vlan-grows (Memᴰ l) (Memᴰ-grows l) v v.fabrics d g k) m on

-- Two VLANs of one fabric are a pair of that fabric's VLANs.
by_fabric-pairs :
    (l r : ServiceVlan) (vs : List ServiceVlan) (d : ByFabric) (g : String × String)
    → Before l r vs
    → Memᴰ g l.fabrics
    → Memᴰ g r.fabrics
    → Before l r (group (by_fabric vs d) g)
unfolding by_fabric
by_fabric-pairs l r [] d g b p q = absurd (not-nil (Before-member b).0)
by_fabric-pairs l r (v ∷ vs) d g (here e m) p q =
    by_fabric-follows l r vs _ g
      (subst (λ z. Memᴰ z (group (append_vlan v v.fabrics d) g)) (sym e)
        (append_vlan-adds v v.fabrics d g (subst (λ (z : ServiceVlan). Memᴰ g z.fabrics) e p)))
      m q
by_fabric-pairs l r (v ∷ vs) d g (later b) p q = by_fabric-pairs l r vs _ g b p q

-- What is found on two VLANs of one fabric is among the findings.
pub clash_findings-member :
    (parsed : Query) (l r : ServiceVlan) (g : String × String) (finding : Finding)
    → Before l r (service_vlans parsed)
    → Memᴰ g l.fabrics
    → Memᴰ g r.fabrics
    → Memᴰ finding (clash_findings g.1 (l, r))
    → Memᴰ finding (check_fabric_vlan_ids parsed)
unfolding check_fabric_vlan_ids
clash_findings-member parsed l r g finding b p q m =
    let d = by_fabric (service_vlans parsed) [] in
    let pair = by_fabric-pairs l r (service_vlans parsed) [] g b p q in
    let entry = group-entry d g l (Before-member pair).0 in
    each-member fabric_findings (sort-member fabric_leb entry)
      (each-member (clash_findings g.1) (Before-combinations pair) m)
