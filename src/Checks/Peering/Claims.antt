-- ===== src/Checks/Peering/Claims.antt =====
-- The third rule of checks/peering_consistency_check.py: two services of one cluster.
use infrahub_network_field_d.Base.{
  String, true, false, Option, none, some, List, [], ◌∷◌, ◌++◌, ◌≡◌, refl, sym, ap, subst, ◌∙◌,
  string_eq, arith, map, ltb, length,
}
use infrahub_network_field_d.Base.Dict.{Dict}
use infrahub_network_field_d.Base.Groups.{
  group, append_to-grows, append_to-Memᴰ, append_to-Before, group-entry, Memᴰ-grows, Before-grows,
}
use mathlib.Core.List.{Memᴰ}
use mathlib.Core.List.Memᴰ.{head, tail, append_left, not-nil}
use mathlib.Core.List.Memᴰ as Mem
use infrahub_network_field_d.Base.Members.{Before, here, later, each-member, Before-member}
use infrahub_network_field_d.Checks.Peering.{
  validate, collect_findings, rules, log_error, entry_of, log,
}
use infrahub_network_field_d.Checks.Peering.Schema.{Query, ClusterName, Service, Finding}
use infrahub_network_field_d.Checks.Peering.Rules.{
  add_service, by_cluster, service_findings, claim, check_one_service_per_cluster,
}

abbrev ByCluster : Type 0
ByCluster = Dict String (List Service)

module _ (Q : List Service → Type 0) (grow : (xs ys : List Service) → Q xs → Q (xs ++ ys)) where
  add_service-grows :
      (d : ByCluster) (s : Service) (o : Option ClusterName) (id : String)
      → Q (group d id)
      → Q (group (add_service d s o) id)
  add_service-grows d s none id h = h
  add_service-grows d s (some c) id h = append_to-grows Q grow d c.id id s h

  by_cluster-grows :
      (d : ByCluster) (ss : List Service) (id : String)
      → Q (group d id)
      → Q (group (by_cluster d ss) id)
  unfolding by_cluster
  by_cluster-grows d [] id h = h
  by_cluster-grows d (s ∷ ss) id h =
      by_cluster-grows (add_service d s s.cluster) ss id (add_service-grows d s s.cluster id h)

add_service-Memᴰ :
    (d : ByCluster) (s : Service) (o : Option ClusterName) (c : ClusterName)
    → o ≡ some c
    → Memᴰ s (group (add_service d s o) c.id)
add_service-Memᴰ d s o c p =
    subst (λ q. Memᴰ s (group (add_service d s q) c.id)) (sym p) (append_to-Memᴰ d c.id c.id s refl)

add_service-Before :
    (d : ByCluster) (a s : Service) (o : Option ClusterName) (c : ClusterName) (id : String)
    → o ≡ some c
    → c.id ≡ id
    → Memᴰ a (group d id)
    → Before a s (group (add_service d s o) id)
add_service-Before d a s o c id p q m =
    subst (λ r. Before a s (group (add_service d s r) id)) (sym p)
      (append_to-Before d c.id id a s q m)

by_cluster-follows :
    (d : ByCluster) (a b : Service) (ss : List Service) (c : ClusterName) (id : String)
    → Memᴰ a (group d id)
    → Memᴰ b ss
    → b.cluster ≡ some c
    → c.id ≡ id
    → Before a b (group (by_cluster d ss) id)
unfolding by_cluster
by_cluster-follows d a b [] c id k m p q = absurd (not-nil m)
by_cluster-follows d a b (s ∷ ss) c id k (head e) p q =
    subst (λ z. Before a z (group (by_cluster d (s ∷ ss)) id)) (sym e)
      (by_cluster-grows (Before a s) (Before-grows a s) _ ss id
        (add_service-Before d a s s.cluster c id (ap (λ (z : Service). z.cluster) (sym e) ∙ p) q k))
by_cluster-follows d a b (s ∷ ss) c id k (tail m) p q =
    by_cluster-follows (add_service d s s.cluster) a b ss c id
      (add_service-grows (Memᴰ a) (Memᴰ-grows a) d s s.cluster id k) m p q

-- Two services of one cluster are a pair of that cluster's services.
by_cluster-pairs :
    (d : ByCluster) (a b : Service) (ss : List Service) (c e : ClusterName)
    → Before a b ss
    → a.cluster ≡ some c
    → b.cluster ≡ some e
    → c.id ≡ e.id
    → Before a b (group (by_cluster d ss) c.id)
unfolding by_cluster
by_cluster-pairs d a b [] c e k p q same = absurd (not-nil (Before-member k).0)
by_cluster-pairs d a b (s ∷ ss) c e (here r m) p q same =
    by_cluster-follows _ a b ss e c.id
      (subst (λ z. Memᴰ z (group (add_service d s s.cluster) c.id)) (sym r)
        (add_service-Memᴰ d s s.cluster c (ap (λ (z : Service). z.cluster) (sym r) ∙ p)))
      m q (sym same)
by_cluster-pairs d a b (s ∷ ss) c e (later k) p q same =
    by_cluster-pairs (add_service d s s.cluster) a b ss c e k p q same

two-length : {A : Type 0} {a b : A} (xs : List A) → Before a b xs → ltb (length xs) 2 ≡ false
two-length [] k = absurd (not-nil (Before-member k).0)
two-length (x ∷ []) (here e m) = absurd (not-nil m)
two-length (x ∷ []) (later k) = absurd (not-nil (Before-member k).0)
two-length (x ∷ y ∷ xs) k = ground arith

log-member :
    (fs : List Finding) (f : Finding) → f.is_error ≡ true → Memᴰ f fs → Memᴰ (log_error f) (log fs)
log-member fs f t m =
    let e : entry_of f ≡ log_error f = rw t refl in
    append_left _ (subst (λ x. Memᴰ x (map entry_of fs)) e (Mem.map entry_of m))

-- A service of a cluster that has several is refused.
claim-member :
    (parsed : Query) (s : Service) (id : String) (ss : List Service)
    → Memᴰ (id, ss) (by_cluster [] parsed.service_fabric_peering)
    → ltb (length ss) 2 ≡ false
    → Memᴰ s ss
    → Memᴰ (log_error (claim ss s)) (validate parsed)
unfolding validate collect_findings check_one_service_per_cluster service_findings rules
claim-member parsed s id ss m two on =
    let found : Memᴰ (claim ss s) (service_findings (id, ss)) = rw two (Mem.map (claim ss) on) in
    let all : Memᴰ (claim ss s) (check_one_service_per_cluster parsed) =
      each-member service_findings m found in
    let third : Memᴰ check_one_service_per_cluster rules = tail (tail (head refl)) in
    let collected : Memᴰ (claim ss s) (collect_findings parsed) =
      each-member (λ (r : Query → List Finding). r parsed) third all in
    log-member (collect_findings parsed) (claim ss s) refl collected

-- Of two services that claim one cluster, each is refused: an error is logged that names it.
pub validate-refuses_services :
    (parsed : Query) (a b : Service) (c e : ClusterName)
    → Before a b parsed.service_fabric_peering
    → a.cluster ≡ some c
    → b.cluster ≡ some e
    → c.id ≡ e.id
    → ((f : Finding) × Memᴰ (log_error f) (validate parsed) × (f.object_id ≡ a.id))
      × ((f : Finding) × Memᴰ (log_error f) (validate parsed) × (f.object_id ≡ b.id))
unfolding claim
validate-refuses_services parsed a b c e k p q same =
    let d = by_cluster [] parsed.service_fabric_peering in
    let pair = by_cluster-pairs [] a b parsed.service_fabric_peering c e k p q same in
    let (ma, mb) = Before-member pair in
    let entry = group-entry d c.id a ma in
    let two = two-length (group d c.id) pair in
    (
      (claim (group d c.id) a, claim-member parsed a c.id _ entry two ma, refl),
      (claim (group d c.id) b, claim-member parsed b c.id _ entry two mb, refl),
    )
