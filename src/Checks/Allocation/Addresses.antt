-- ===== src/Checks/Allocation/Addresses.antt =====
-- Rule 3 of checks/allocation_consistency_check.py over the addresses of its blocks: what the
-- tests on the ends of the networks stand for.
use infrahub_network_field_d.Base.{
  ℕ, ◌-◌, Bool, true, false, ◌&&◌, not, List, [], ◌∷◌, ◌++◌, ◌≡◌, ◌≢◌, ◌↔◌, ◌⊎◌, refl, sym, ap, ◌∙◌,
  inl, inr, Bool-cases, arith, any_of, map, nat_beq, nat_beq_iff, ne→beq, nat_eq, false≢true,
}
use mathlib.Core.List.{Memᴰ, append_assoc}
use mathlib.Core.List.Memᴰ.{head, tail, not-nil}
use infrahub_network_field_d.Base.Members.{
  All, AllPairs, each, combinations, append-empty, any_of-Memᴰ,
}
use infrahub_network_field_d.Pools.Prefixes.{Network, holds, overlaps, last, size, width}
use infrahub_network_field_d.Checks.Allocation.Schema.{
  Query, Readers, Finding, VipBlock, networks_overlap,
}
use infrahub_network_field_d.Checks.Allocation.Vips.{
  vip_blocks, check_vip_blocks, pool_findings, block_findings, is_inside,
}
use infrahub_network_field_d.Checks.Allocation.Accepted.{
  pow_positive, is_inside-holds, overlaps-holds,
}

module _ {A : Type 0} (f : A → List Finding) (P : A → Type 0) where
  each-All : ((a : A) → f a ≡ [] → P a) → (xs : List A) → each f xs ≡ [] → All P xs
  each-All k [] h = tt
  each-All k (x ∷ xs) h = let (p, q) = append-empty (f x) (each f xs) h in (k x p, each-All k xs q)

  All-each : ((a : A) → P a → f a ≡ []) → (xs : List A) → All P xs → each f xs ≡ []
  All-each k [] h = refl
  All-each k (x ∷ xs) (p, q) = rw (k x p, All-each k xs q) refl

each-map :
    {A B : Type 0} (f : B → List Finding) (g : A → B) (xs : List A) (ys : List B)
    → each f (map g xs ++ ys) ≡ each (λ a. f (g a)) xs ++ each f ys
each-map f g [] ys = refl
each-map f g (x ∷ xs) ys =
    ap (λ zs. f (g x) ++ zs) (each-map f g xs ys)
    ∙ sym (append_assoc (f (g x)) (each (λ a. f (g a)) xs) (each f ys))

module _ {A : Type 0} (f : A × A → List Finding) (R : A → A → Type 0) where
  each-AllPairs :
      ((a b : A) → f (a, b) ≡ [] → R a b)
      → (xs : List A) → each f (combinations xs) ≡ []
      → AllPairs R xs
  each-AllPairs k [] h = tt
  each-AllPairs k (x ∷ xs) h =
      let (p, q) =
        append-empty (each (λ b. f (x, b)) xs) _
          (sym (each-map f (λ b. (x, b)) xs (combinations xs)) ∙ h) in
      (each-All (λ b. f (x, b)) (R x) (k x) xs p, each-AllPairs k xs q)

  AllPairs-each :
      ((a b : A) → R a b → f (a, b) ≡ [])
      → (xs : List A) → AllPairs R xs
      → each f (combinations xs) ≡ []
  AllPairs-each k [] h = refl
  AllPairs-each k (x ∷ xs) (p, q) =
      each-map f (λ b. (x, b)) xs (combinations xs)
      ∙ (let e = All-each (λ b. f (x, b)) (R x) (k x) xs p in rw (e, AllPairs-each k xs q) refl)

-- Every address of the one is an address of the other.
abbrev pub IsSubset : Network → Network → Type 0
IsSubset a b = (a.version ≡ b.version) × ((x : ℕ) → (holds a x && not (holds b x)) ≡ false)

abbrev pub IsInPools : VipBlock → Type 0
IsInPools b = (p : Network) × Memᴰ p b.pools × IsSubset b.network p

-- No address is one of both.
abbrev pub AreApart : VipBlock → VipBlock → Type 0
AreApart l r =
    (l.network.version ≢ r.network.version)
    ⊎ ((x : ℕ) → (holds l.network x && holds r.network x) ≡ false)

is_inside-IsSubset : (a b : Network) → is_inside a b ≡ true → IsSubset a b
unfolding is_inside
is_inside-IsSubset a b h = (
  ground (arith, nat_beq_iff a.version b.version),
  λ x. elim (Bool-cases (holds a x)) [
    | inl t ↦ let u = is_inside-holds a b x h t in rw (t, u) refl
    | inr f ↦ rw f refl
  ],
)

IsSubset-is_inside : (a b : Network) → IsSubset a b → is_inside a b ≡ true
unfolding is_inside holds last size
IsSubset-is_inside a b (v, h) =
    let low = h a.address in
    let high = h (last a) in
    let pa = pow_positive (width a.version - a.prefix) in
    let pb = pow_positive (width b.version - b.prefix) in
    ground (arith, nat_beq_iff a.version b.version)

networks_overlap-AreApart :
    (l r : VipBlock) → networks_overlap l.network r.network ≡ false → AreApart l r
networks_overlap-AreApart l r h = elim (Bool-cases (nat_beq l.network.version r.network.version)) [
  | inl t ↦ inr λ x. overlaps-holds l.network r.network x (ground arith)
  | inr n ↦ inl λ e. false≢true (sym n ∙ (nat_beq_iff l.network.version r.network.version).1 e)
]

apart-overlaps :
    (a b : Network) → ((x : ℕ) → (holds a x && holds b x) ≡ false) → overlaps a b ≡ false
unfolding overlaps holds last size
apart-overlaps a b h =
    let start = h a.address in
    let end_of_a = h (last a) in
    let start_of_b = h b.address in
    let end_of_b = h (last b) in
    let pa = pow_positive (width a.version - a.prefix) in
    let pb = pow_positive (width b.version - b.prefix) in ground arith

AreApart-networks_overlap :
    (l r : VipBlock) → AreApart l r → networks_overlap l.network r.network ≡ false
AreApart-networks_overlap l r (inl n) =
    let v : nat_beq l.network.version r.network.version ≡ false = ne→beq _ _ n in rw v refl
AreApart-networks_overlap l r (inr h) = let e = apart-overlaps l.network r.network h in ground arith

pool_findings-IsInPools : (b : VipBlock) → pool_findings b ≡ [] → IsInPools b
unfolding pool_findings
pool_findings-IsInPools b h =
    let inside : any_of (is_inside b.network) b.pools ≡ true = ground arith in
    let (p, on, t) = any_of-Memᴰ (is_inside b.network) b.pools inside in
    (p, on, is_inside-IsSubset b.network p t)

any_of-found :
    {A : Type 0} (p : A → Bool) (xs : List A) {a : A} → Memᴰ a xs → p a ≡ true → any_of p xs ≡ true
any_of-found p [] m h = absurd (not-nil m)
any_of-found p (x ∷ xs) (head e) h = let t : p x ≡ true = sym (ap p e) ∙ h in rw t refl
any_of-found p (x ∷ xs) (tail m) h = ground (arith, any_of-found p xs m)

IsInPools-pool_findings : (b : VipBlock) → IsInPools b → pool_findings b ≡ []
unfolding pool_findings
IsInPools-pool_findings b (p, on, h) =
    let t = any_of-found (is_inside b.network) b.pools on (IsSubset-is_inside b.network p h) in
    rw t refl

block_findings-AreApart : (l r : VipBlock) → block_findings (l, r) ≡ [] → AreApart l r
unfolding block_findings
block_findings-AreApart l r h = networks_overlap-AreApart l r (ground arith)

AreApart-block_findings : (l r : VipBlock) → AreApart l r → block_findings (l, r) ≡ []
unfolding block_findings
AreApart-block_findings l r h = let e = AreApart-networks_overlap l r h in rw e refl

-- The rule for VIP blocks finds nothing just where the addresses of each block lie in one of the
-- pools of its cluster, and no two blocks of one version have an address in common.
pub check_vip_blocks_iff :
    (readers : Readers) (parsed : Query)
    → (check_vip_blocks readers parsed ≡ [])
      ↔ (All IsInPools (vip_blocks readers parsed) × AllPairs AreApart (vip_blocks readers parsed))
unfolding check_vip_blocks
check_vip_blocks_iff readers parsed =
    let blocks = vip_blocks readers parsed in
    (
      λ h.
          let (p, q) = append-empty (each pool_findings blocks) _ h in
          (
            each-All pool_findings IsInPools pool_findings-IsInPools blocks p,
            each-AllPairs block_findings AreApart block_findings-AreApart blocks q,
          ),
      λ (p, q).
          let e = All-each pool_findings IsInPools IsInPools-pool_findings blocks p in
          rw (e, AllPairs-each block_findings AreApart AreApart-block_findings blocks q) refl,
    )
