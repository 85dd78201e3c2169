-- ===== src/Pools/Children.antt =====
-- The children of one supernet, and the first free one.
use infrahub_network_field_d.Base.{
  ℕ, zero, suc, ◌+◌, ◌-◌, ◌*◌, ◌^◌, ◌≤◌, ◌<◌, Bool, true, false, not, ◌&&◌, none, some, List, ◌≡◌,
  sym, ap, subst, ◌∙◌, arith, inl, inr, if◌then◌else◌, nat_eq, nat_beq, leb, ltb, Bool-cases,
}
use infrahub_network_field_d.Pools.Prefixes.{
  Network, width, size, is_taken, network_at, first_free, is_full, free_child,
}
use native.Mathlib.Nat.{suc-mul, pow-succ', mul-le-mul_right, mul_assoc}

-- The child of a supernet at an index.
abbrev pub child : ℕ → Network → ℕ → Network
child prefix s i =
    network_at s.version prefix (s.address + i * size (network_at s.version prefix 0))

-- A network that lies in a supernet.
abbrev pub is_within : Network → Network → Bool
is_within s c =
    nat_beq c.version s.version
    && (leb s.address c.address && leb (c.address + size c) (s.address + size s))

shifted : (address i k : ℕ) → address + k + i * k ≡ address + suc i * k
shifted address i k = omega (arith, suc-mul i k)

module _ (used : List Network) (version prefix : ℕ) where
  abbrev step : ℕ
  step = size (network_at version prefix 0)

  first_free-some :
      (n address : ℕ) (c : Network)
      → first_free used version prefix n address ≡ some c
      → (i : ℕ) × (i < n)
        × (c ≡ network_at version prefix (address + i * step))
        × (is_taken used c ≡ false)
  unfolding first_free size
  first_free-some zero address c h = cc
  first_free-some (suc n) address c h =
      elim (Bool-cases (is_taken used (network_at version prefix address))) [
        | inl t ↦
            let (i, low, e, free) = first_free-some n _ c (rw (t, first_free) at h) in
            (
              suc i,
              omega (arith, low),
              e ∙ ap (network_at version prefix) (shifted address i step),
              free,
            )
        | inr f ↦
            let e : network_at version prefix address ≡ c = cc (rw (f, first_free) at h) in
            (
              0,
              omega arith,
              sym e ∙ ap (network_at version prefix) (omega arith),
              ap (is_taken used) (sym e) ∙ f,
            )
      ]

  first_free-none :
      (n address i : ℕ)
      → first_free used version prefix n address ≡ none
      → i < n
      → is_taken used (network_at version prefix (address + i * step)) ≡ true
  unfolding first_free size
  first_free-none zero address i h low = absurd (omega (arith, low))
  first_free-none (suc n) address zero h low =
      elim (Bool-cases (is_taken used (network_at version prefix address))) [
        | inl t ↦ ap (λ a. is_taken used (network_at version prefix a)) (omega arith) ∙ t
        | inr f ↦ cc (rw (f, first_free) at h)
      ]
  first_free-none (suc n) address (suc i) h low =
      elim (Bool-cases (is_taken used (network_at version prefix address))) [
        | inl t ↦
            ap (λ a. is_taken used (network_at version prefix a)) (sym (shifted address i step))
            ∙ first_free-none n _ i (rw (t, first_free) at h) (omega (arith, low))
        | inr f ↦ cc (rw (f, first_free) at h)
      ]

pow_add : (m n : ℕ) → 2 ^ (m + n) ≡ 2 ^ m * 2 ^ n
pow_add zero n =
    let e : 0 + n ≡ n = omega arith in
    ap (λ x. 2 ^ x) e ∙ (let once : 2 ^ n ≡ 1 * 2 ^ n = omega arith in once)
pow_add (suc m) n =
    let e : suc m + n ≡ suc (m + n) = omega arith in
    ap (λ x. 2 ^ x) e
    ∙ (pow-succ' 2 (m + n)
        ∙ (ap (λ x. 2 * x) (pow_add m n)
            ∙ (sym (mul_assoc 2 (2 ^ m) (2 ^ n)) ∙ ap (λ x. x * 2 ^ n) (sym (pow-succ' 2 m)))))

-- The children of a supernet fill it.
sizes :
    (w prefix short : ℕ)
    → short ≤ prefix
    → prefix ≤ w
    → 2 ^ (prefix - short) * 2 ^ (w - prefix) ≡ 2 ^ (w - short)
sizes w prefix short low high =
    sym (pow_add (prefix - short) (w - prefix)) ∙ ap (λ n. 2 ^ n) (omega (arith, low, high))

child_fits : (i n k total : ℕ) → i < n → n * k ≡ total → i * k + k ≤ total
child_fits i n k total low e =
    omega (arith, suc-mul i k, mul-le-mul_right {m = suc i} {n = n} k (omega (arith, low)), e)

is_within_at :
    (s : Network) (prefix m : ℕ)
    → m + size (network_at s.version prefix 0) ≤ size s
    → is_within s (network_at s.version prefix (s.address + m)) ≡ true
unfolding size
is_within_at s prefix m h = ground (arith, nat_eq.beq_iff s.version s.version)

-- The length that a child has: the one asked for, or full length.
abbrev pub length_of : ℕ → ℕ → ℕ
length_of prefix version = if leb prefix (width version) then prefix else width version

is_within_self : (s : Network) → is_within s s ≡ true
is_within_self s = ground (arith, nat_eq.beq_iff s.version s.version)

pub free_child-some :
    (used : List Network) (prefix : ℕ) (s c : Network)
    → s.prefix ≤ prefix
    → (ltb (width s.version) prefix && not (is_full s)) ≡ false
    → free_child used prefix s ≡ some c
    → (is_within s c ≡ true) × (c.prefix ≡ length_of prefix c.version) × (is_taken used c ≡ false)
unfolding free_child is_full
free_child-some used prefix s c low fit h = elim (Bool-cases (is_full s)) [
  | inl full ↦ elim (Bool-cases (is_taken used s)) [
    | inl t ↦ cc (rw (full, t) at h)
    | inr f ↦
        let e : s ≡ c = cc (rw (full, f) at h) in
        let long : s.prefix ≡ length_of prefix s.version = ground (arith, full) in
        (
          ap (is_within s) (sym e) ∙ is_within_self s,
          subst (λ (n : Network). n.prefix ≡ length_of prefix n.version) e long,
          ap (is_taken used) (sym e) ∙ f,
        )
  ]
  | inr short ↦
      let high : prefix ≤ width s.version = ground (arith, short) in
      let (i, within, e, free) =
        first_free-some used s.version prefix (2 ^ (prefix - s.prefix)) s.address c
          (rw short at h) in
      let fits =
        child_fits i _ (size (network_at s.version prefix 0)) (size s) within
          (unfold size in sizes (width s.version) prefix s.prefix low high) in
      let asked : prefix ≡ length_of prefix s.version = ground (arith, high) in
      (
        ap (is_within s) e ∙ is_within_at s prefix _ fits,
        ap (λ (n : Network). n.prefix) e
            ∙ (asked ∙ sym (ap (λ (n : Network). length_of prefix n.version) e)),
        free,
      )
]

lt_of : (i n : ℕ) → ltb i n ≡ true → i < n
lt_of i n h = ground (arith, h)

child_full :
    (s : Network) (prefix i : ℕ)
    → s.prefix ≡ prefix
    → i < 2 ^ (prefix - s.prefix)
    → child prefix s i ≡ s
child_full s prefix i same low =
    let none_left : prefix - s.prefix ≡ 0 = omega (arith, same) in
    let once : 2 ^ (prefix - s.prefix) ≡ 1 = ap (λ n. 2 ^ n) none_left in
    let first : i ≡ 0 = omega (arith, low, once) in
    let k = size (network_at s.version prefix 0) in
    let start : s.address + 0 * k ≡ s.address = omega arith in
    ap (network_at s.version prefix) (ap (λ x. s.address + x * k) first ∙ start)
    ∙ ap (λ q. network_at s.version q s.address) (sym same)

pub free_child-none :
    (used : List Network) (prefix i : ℕ) (s : Network)
    → s.prefix ≤ prefix
    → prefix ≤ width s.version
    → free_child used prefix s ≡ none
    → ltb i (2 ^ (prefix - s.prefix)) ≡ true
    → is_taken used (child prefix s i) ≡ true
unfolding free_child is_full
free_child-none used prefix i s lower upper h low = elim (Bool-cases (is_full s)) [
  | inl full ↦ elim (Bool-cases (is_taken used s)) [
    | inl t ↦
        let same : s.prefix ≡ prefix = ground (arith, full) in
        ap (is_taken used) (child_full s prefix i same (lt_of i _ low)) ∙ t
    | inr f ↦ cc (rw (full, f) at h)
  ]
  | inr short ↦
      first_free-none used s.version prefix (2 ^ (prefix - s.prefix)) s.address i (rw short at h)
        (lt_of i _ low)
]
