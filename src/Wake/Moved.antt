-- ===== src/Wake/Moved.antt =====
-- `moved` and the comparison of snapshots, against what the two dictionaries answer.
use infrahub_network_field_d.Base.{
  String, true, false, not, ◌||◌, ◌++◌, ◌≡◌, ◌≢◌, ◌↔◌, ◌⊎◌, inl, inr, sym, ap, subst, ◌∙◌,
  and_right, and_intro, ◌==◌, string_eq, pair_eq, option_eq, Bool-cases, keep_if, any_of,
  any_of-member, any_of-witness, contains, contains-append, contains-keep_if, contains-map,
  contains-map_witness, not_beq_iff,
}
use mathlib.Core.Bool.{false≢true}
use infrahub_network_field_d.Base.Dict.{get, keys, get-absent}
use infrahub_network_field_d.Wake.{Snapshot, key_moved, moved, same}

module _ (a b : Snapshot) where
  -- A key that answers differently is a key of one of the two.
  ne→contains : (k : String × String) → get a k ≢ get b k → contains (keys a ++ keys b) k ≡ true
  ne→contains k h =
      rw contains-append
        (split (Bool-cases (contains (keys a) k)) (Bool-cases (contains (keys b) k)))
    where
      split :
          ((contains (keys a) k ≡ true) ⊎ (contains (keys a) k ≡ false))
          → ((contains (keys b) k ≡ true) ⊎ (contains (keys b) k ≡ false))
          → (contains (keys a) k || contains (keys b) k) ≡ true
      split (inl p) q = rw p
      split (inr p) (inl q) = rw (p, q)
      split (inr p) (inr q) = absurd (h (get-absent a k p ∙ sym (get-absent b k q)))

  ne→any :
      (k : String × String) → get a k ≢ get b k → any_of (key_moved a b) (keys a ++ keys b) ≡ true
  ne→any k h =
      any_of-member (key_moved a b) (keys a ++ keys b) k (ne→contains k h) ((not_beq_iff _ _).1 h)

  pub same→eq : same a b ≡ true → (k : String × String) → get a k ≡ get b k
  unfolding same
  same→eq h k = elim (Bool-cases (get a k == get b k)) [
    | inl t ↦ (option_eq.beq_iff (get a k) (get b k)).0 t
    | inr f ↦
        let e = ne→any k ((not_beq_iff _ _).0 (rw f)) in absurd (false≢true (sym (ap not e) ∙ h))
  ]

  pub eq→same : ((k : String × String) → get a k ≡ get b k) → same a b ≡ true
  unfolding same
  eq→same h = elim (Bool-cases (any_of (key_moved a b) (keys a ++ keys b))) [
    | inl t ↦
        let (k, m, p) = any_of-witness (key_moved a b) (keys a ++ keys b) t in
        absurd ((not_beq_iff _ _).0 p (h k))
    | inr f ↦ rw f
  ]

  -- Two snapshots compare as the same exactly when they answer alike at every key.
  pub same_iff : (same a b ≡ true) ↔ ((k : String × String) → get a k ≡ get b k)
  same_iff = (same→eq, eq→same)

  -- A device is in `moved` exactly when one of its artifacts has another checksum in the second
  -- snapshot than in the first, or is in one of the two only.
  pub moved_iff :
      (d : String)
      → (contains (moved a b) d ≡ true) ↔ ((name : String) × (get a (name, d) ≢ get b (name, d)))
  unfolding moved
  moved_iff d = (
    λ h.
        let (k, m, p) =
          contains-map_witness (λ (k : String × String). k.1)
            (keep_if (key_moved a b) (keys a ++ keys b)) d h in
        let hit =
          and_right (contains (keys a ++ keys b) k) (key_moved a b k)
            (sym (contains-keep_if (key_moved a b) (keys a ++ keys b) k) ∙ m) in
        (k.0, subst (λ d. get a (k.0, d) ≢ get b (k.0, d)) p ((not_beq_iff _ _).0 hit)),
    λ w.
        contains-map (λ (k : String × String). k.1) (keep_if (key_moved a b) (keys a ++ keys b))
          (w.0, d)
          (contains-keep_if (key_moved a b) (keys a ++ keys b) (w.0, d)
            ∙ and_intro (ne→contains (w.0, d) w.1) ((not_beq_iff _ _).1 w.1)),
  )
