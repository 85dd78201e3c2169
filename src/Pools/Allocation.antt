-- ===== src/Pools/Allocation.antt =====
-- What next_available_prefix finds, and what it may miss.
use infrahub_network_field_d.Base.{
  ℕ, ◌-◌, ◌^◌, ◌≤◌, Bool, true, false, not, ◌&&◌, ◌||◌, Option, none, some, List, [], ◌∷◌, ◌++◌,
  ◌≡◌, refl, sym, ap, ◌∙◌, arith, inl, inr, nat_eq, leb, ltb, any_of, any_of-append, nat_beq,
  keep_if, any_of-sort, sort, Bool-cases, Option-cases,
}
use infrahub_network_field_d.Base.Dict.{Dict, get, put}
use infrahub_network_field_d.Base.Result.{ok}
use infrahub_network_field_d.Pools.Prefixes.{
  Network, width, is_taken, holds, overlaps, is_full, free_child, search_supernets, listed,
  by_version, at_most, flatten_versions, search_order, next_available_prefix,
}
use infrahub_network_field_d.Pools.Children.{
  child, is_within, length_of, free_child-some, free_child-none,
}

-- A supernet that holds a network.
search_supernets-some :
    (used : List Network) (prefix : ℕ) (ss : List Network) (c : Network)
    → search_supernets used prefix ss ≡ ok (some c)
    → (any_of (λ s. is_within s c) ss ≡ true)
      × (c.prefix ≡ length_of prefix c.version)
      × (is_taken used c ≡ false)
unfolding search_supernets
search_supernets-some used prefix [] c h = cc
search_supernets-some used prefix (s ∷ ss) c h = elim (Bool-cases (ltb prefix s.prefix)) [
  | inl short ↦
      let (a, b, d) = search_supernets-some used prefix ss c (rw short at h) in
      (ground (arith, a), b, d)
  | inr long ↦ elim (Bool-cases (ltb (width s.version) prefix && not (is_full s))) [
    | inl wide ↦ cc (rw (long, wide) at h)
    | inr fits ↦ elim (Option-cases (free_child used prefix s)) [
      | inl e ↦
          let (a, b, d) = search_supernets-some used prefix ss c (rw (long, fits, e) at h) in
          (ground (arith, a), b, d)
      | inr (c', e) ↦
          let same : c' ≡ c = cc (rw (long, fits, e) at h) in
          let (a, b, d) =
            free_child-some used prefix s c (ground (arith, long)) fits (e ∙ ap some same) in
          (ground (arith, a), b, d)
    ]
  ]
]

module _ (p : Network → Bool) where
  any_of-listed :
      (o : Option (List Network)) (n : Network)
      → any_of p (listed o ++ n ∷ []) ≡ (any_of p (listed o) || p n)
  any_of-listed o n = any_of-append p (listed o) (n ∷ []) ∙ ground arith

  any_of-put-listed :
      (d : Dict ℕ (List Network)) (n : Network)
      → any_of (λ e. any_of p e.1) (put d n.version (listed (get d n.version) ++ n ∷ []))
        ≡ (any_of (λ e. any_of p e.1) d || p n)
  any_of-put-listed [] n = ground arith
  any_of-put-listed ((v, ns) ∷ d) n =
      ground (arith, any_of-append p ns (n ∷ []), any_of-put-listed d n)

  any_of-by_version :
      (ns : List Network) (d : Dict ℕ (List Network))
      → any_of (λ e. any_of p e.1) (by_version d ns) ≡ (any_of (λ e. any_of p e.1) d || any_of p ns)
  unfolding by_version
  any_of-by_version [] d = ground arith
  any_of-by_version (n ∷ ns) d = any_of-by_version ns _ ∙ ground (arith, any_of-put-listed d n)

  any_of-flatten_versions :
      (d : Dict ℕ (List Network)) → any_of p (flatten_versions d) ≡ any_of (λ e. any_of p e.1) d
  unfolding flatten_versions
  any_of-flatten_versions [] = refl
  any_of-flatten_versions ((v, ns) ∷ d) =
      any_of-append p (sort at_most ns) (flatten_versions d)
      ∙ rw (any_of-sort p at_most ns, any_of-flatten_versions d)

  -- The search goes through the supernets that it was given, in another order.
  any_of-search_order : (ns : List Network) → any_of p (search_order ns) ≡ any_of p ns
  unfolding search_order
  any_of-search_order ns =
      any_of-flatten_versions (sort (λ e f. leb e.0 f.0) (by_version [] ns))
      ∙ (any_of-sort (λ e. any_of p e.1) _ (by_version [] ns) ∙ any_of-by_version ns [])

-- An address of both networks.
abbrev pub shares : Network → ℕ → Network → Bool
shares c x p = nat_beq p.version c.version && (holds p x && holds c x)

overlaps-holds : (a b : Network) (x : ℕ) → overlaps a b ≡ false → (holds b x && holds a x) ≡ false
unfolding overlaps holds
overlaps-holds a b x h = ground arith

any_of-shares :
    (c : Network) (x : ℕ) (used : List Network)
    → any_of (λ p. overlaps c p) (keep_if (λ p. nat_beq p.version c.version) used) ≡ false
    → any_of (shares c x) used ≡ false
any_of-shares c x [] h = refl
any_of-shares c x (p ∷ used) h = ground (arith, overlaps-holds c p x, any_of-shares c x used)

is_taken-shares :
    (used : List Network) (c : Network) (x : ℕ)
    → is_taken used c ≡ false
    → any_of (shares c x) used ≡ false
unfolding is_taken
is_taken-shares used c x h = any_of-shares c x used h

-- A prefix that is found has the length asked for, or full length where that is shorter; it lies
-- in one of the supernets, and shares no address with a used prefix of its version.
pub next_available_prefix-free :
    (supernets used : List Network) (prefix : ℕ) (c : Network) (x : ℕ)
    → next_available_prefix supernets used prefix ≡ ok (some c)
    → (any_of (λ s. is_within s c) supernets ≡ true)
      × (c.prefix ≡ length_of prefix c.version)
      × (any_of (shares c x) used ≡ false)
unfolding next_available_prefix
next_available_prefix-free supernets used prefix c x h =
    let (within, length, free) = search_supernets-some used prefix (search_order supernets) c h in
    (
      sym (any_of-search_order (λ s. is_within s c) supernets) ∙ within,
      length,
      is_taken-shares used c x free,
    )

-- The child of an index below the number of children, if the supernet is large enough.
abbrev pub has_free_child : List Network → ℕ → ℕ → Network → Bool
has_free_child used prefix i s =
    (leb s.prefix prefix && leb prefix (width s.version))
    && (ltb i (2 ^ (prefix - s.prefix)) && not (is_taken used (child prefix s i)))

leb_of : (m n : ℕ) → leb m n ≡ true → m ≤ n
leb_of m n h = ground (arith, h)

or_none :
    (a b low taken : Bool) {rest : Bool}
    → rest ≡ false
    → (a ≡ true → b ≡ true → low ≡ true → taken ≡ true)
    → (((a && b) && (low && not taken)) || rest) ≡ false
or_none true true true taken e h = rw (e, h refl refl refl)
or_none true true false taken e h = e
or_none true false low taken e h = e
or_none false b low taken e h = e

search_supernets-none :
    (used : List Network) (prefix i : ℕ) (ss : List Network)
    → search_supernets used prefix ss ≡ ok none
    → any_of (has_free_child used prefix i) ss ≡ false
unfolding search_supernets
search_supernets-none used prefix i [] h = refl
search_supernets-none used prefix i (s ∷ ss) h = elim (Bool-cases (ltb prefix s.prefix)) [
  | inl short ↦ ground (arith, search_supernets-none used prefix i ss (rw short at h))
  | inr long ↦ elim (Bool-cases (ltb (width s.version) prefix && not (is_full s))) [
    | inl wide ↦ cc (rw (long, wide) at h)
    | inr fits ↦ elim (Option-cases (free_child used prefix s)) [
      | inl e ↦
          let rest = search_supernets-none used prefix i ss (rw (long, fits, e) at h) in
          or_none (leb s.prefix prefix) (leb prefix (width s.version)) _ _ rest
            λ a b low. free_child-none used prefix i s (leb_of _ _ a) (leb_of _ _ b) e low
      | inr (c, e) ↦ cc (rw (long, fits, e) at h)
    ]
  ]
]

-- Where no prefix is found, no supernet that is large enough has a child of the length asked for
-- that overlaps no used prefix of its version.
pub next_available_prefix-exhausted :
    (supernets used : List Network) (prefix i : ℕ)
    → next_available_prefix supernets used prefix ≡ ok none
    → any_of (has_free_child used prefix i) supernets ≡ false
unfolding next_available_prefix
next_available_prefix-exhausted supernets used prefix i h =
    sym (any_of-search_order (has_free_child used prefix i) supernets)
    ∙ search_supernets-none used prefix i (search_order supernets) h
