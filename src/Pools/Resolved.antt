-- ===== src/Pools/Resolved.antt =====
-- Which pools the rules of pool_roles.py accept.
use infrahub_network_field_d.Base.{
  ℕ, ◌+◌, ◌≤◌, String, Bool, true, false, not, ◌&&◌, ◌||◌, Option, none, some, List, [], ◌∷◌, ◌++◌,
  ◌≡◌, refl, sym, ap, ◌∙◌, arith, inl, inr, if◌then◌else◌, ◌==◌, string_eq, nat_eq, nat_beq, ltb,
  length, length-append, is_empty, contains, contains-keep_if, minus, any_of, all_of, Bool-cases,
  and_intro, all_of-member,
}
use infrahub_network_field_d.Base.Dict.{Dict, get, get-put, or_empty, any_of-get}
use infrahub_network_field_d.Base.Result.{Result, ok, err}
use infrahub_network_field_d.Pools.Prefixes.{Network, holds}
use infrahub_network_field_d.Pools.Roles.{
  Role, role_eq, fabric_supernet, Scope, scope_roles, map_prefix_role, add_role, mapped_roles,
  sole_role, resolve_resource_role, missing_fabric_roles, out_of_scope, pools_by_role,
  validate_unique_roles, subnet_of, prefixes_of, is_contained, contains_role, contained_roles,
  validate_pod_pool_containment,
}

abbrev pub maps_to : Role → Option Role → Bool
maps_to r none = false
maps_to r (some q) = q == r

abbrev pub agrees : Role → Option Role → Bool
agrees r none = true
agrees r (some q) = q == r

contains-add_role :
    (o : Option Role) (rs : List Role) (r : Role)
    → contains (add_role o rs) r ≡ (maps_to r o || contains rs r)
contains-add_role none rs r = refl
contains-add_role (some q) rs r = elim (Bool-cases (contains rs q)) [
  | inl t ↦ elim (Bool-cases (q == r)) [
    | inl same ↦ let e = (role_eq.beq_iff q r).0 same in rw (t, same) (ap (contains rs) (sym e) ∙ t)
    | inr other ↦ rw (t, other)
  ]
  | inr f ↦ rw f
]

contains-mapped_roles :
    (ps : List (Option String)) (r : Role)
    → contains (mapped_roles ps) r ≡ any_of (λ p. maps_to r (map_prefix_role p)) ps
unfolding mapped_roles
contains-mapped_roles [] r = refl
contains-mapped_roles (p ∷ ps) r =
    contains-add_role (map_prefix_role p) (mapped_roles ps) r ∙ rw (contains-mapped_roles ps r)

sole_role-ok :
    (scope : Scope) (rs : List Role) (r : Role)
    → sole_role scope rs ≡ ok r
    → (rs ≡ r ∷ []) × (contains (scope_roles scope) r ≡ true)
sole_role-ok scope [] r h = cc
sole_role-ok scope (q ∷ []) r h = elim (Bool-cases (contains (scope_roles scope) q)) [
  | inl t ↦
      let e : q ≡ r = cc (rw t at h) in
      (ap (λ x. x ∷ []) e, ap (contains (scope_roles scope)) (sym e) ∙ t)
  | inr f ↦ cc (rw f at h)
]
sole_role-ok scope (q ∷ p ∷ rs) r h = cc

agrees-maps_to :
    (r : Role) (o : Option Role)
    → ((q : Role) → maps_to q o ≡ true → (r == q) ≡ true)
    → agrees r o ≡ true
agrees-maps_to r none h = refl
agrees-maps_to r (some q) h =
    (role_eq.beq_iff q r).1 (sym ((role_eq.beq_iff r q).0 (h q ((role_eq.beq_iff q q).1 refl))))

all_of-agrees :
    (r : Role) (ps : List (Option String))
    → ((q : Role) → any_of (λ p. maps_to q (map_prefix_role p)) ps ≡ true → (r == q) ≡ true)
    → all_of (λ p. agrees r (map_prefix_role p)) ps ≡ true
all_of-agrees r [] h = refl
all_of-agrees r (p ∷ ps) h =
    and_intro (agrees-maps_to r (map_prefix_role p) (λ q m. h q (rw m refl)))
      (all_of-agrees r ps (λ q m. h q (or_right (maps_to q (map_prefix_role p)) m)))
  where
    or_right : (a : Bool) {b : Bool} → b ≡ true → (a || b) ≡ true
    or_right true e = refl
    or_right false e = e

-- A pool resolves to a role of its scope that at least one of its prefixes has, and that every
-- prefix with a known role has.
pub resolve_resource_role-ok :
    (ps : List (Option String)) (scope : Scope) (r : Role)
    → resolve_resource_role ps scope ≡ ok r
    → (contains (scope_roles scope) r ≡ true)
      × (any_of (λ p. maps_to r (map_prefix_role p)) ps ≡ true)
      × (all_of (λ p. agrees r (map_prefix_role p)) ps ≡ true)
unfolding resolve_resource_role
resolve_resource_role-ok ps scope r h =
    let (sole, scoped) = sole_role-ok scope (mapped_roles ps) r h in
    let members = λ (q : Role). sym (contains-mapped_roles ps q) ∙ ap (λ rs. contains rs q) sole in
    (
      scoped,
      members r ∙ rw ((role_eq.beq_iff r r).1 refl),
      all_of-agrees r ps (λ q m. ground (arith, sym (members q) ∙ m)),
    )

-- The missing roles are those required and not available; where there is one, a Fabric Supernet is
-- available to carve it from.
pub missing_fabric_roles-ok :
    (required available missing : List Role) (r : Role)
    → missing_fabric_roles required available ≡ ok missing
    → (contains missing r ≡ (contains required r && not (contains available r)))
      × ((is_empty missing || contains available fabric_supernet) ≡ true)
unfolding missing_fabric_roles
missing_fabric_roles-ok required available missing r h =
    elim (Bool-cases
      (not (is_empty (minus required available)) && not (contains available fabric_supernet))) [
        | inl t ↦ cc (rw t at h)
        | inr f ↦
            let e : minus required available ≡ missing = cc (rw f at h) in
            (
              sym (ap (λ rs. contains rs r) e)
                  ∙ contains-keep_if (λ x. not (contains available x)) required r,
              sym (ap (λ rs. is_empty rs || contains available fabric_supernet) e) ∙ ground arith,
            )
      ]

-- The pools of a role.
abbrev pub pools_of : Role → Dict String Role → List String
pools_of r [] = []
pools_of r (e ∷ es) = let rest = pools_of r es in if e.1 == r then e.0 ∷ rest else rest

get-pools_by_role :
    (r : Role) (es : Dict String Role) (d : Dict Role (List String))
    → length (or_empty (get (pools_by_role d es) r))
      ≡ length (or_empty (get d r)) + length (pools_of r es)
unfolding pools_by_role
get-pools_by_role r [] d = omega arith
get-pools_by_role r (e ∷ es) d = get-pools_by_role r es _ ∙ elim (Bool-cases (e.1 == r)) [
  | inl t ↦
      let named = ap (λ q. length (or_empty (get d q))) ((role_eq.beq_iff e.1 r).0 t) in
      rw (get-put d e.1 (or_empty (get d e.1) ++ e.0 ∷ []) r, t)
        (omega (arith, length-append (or_empty (get d e.1)) (e.0 ∷ []), named))
  | inr f ↦ rw (get-put d e.1 (or_empty (get d e.1) ++ e.0 ∷ []) r, f)
]

few_of :
    (o : Option (List String))
    → ((n : List String) → o ≡ some n → ltb 1 (length n) ≡ false)
    → length (or_empty o) ≤ 1
few_of none h = omega arith
few_of (some n) h = let few = h n refl in ground (arith, few)

-- Pools that are accepted have roles of their scope only, and no two of them the same one.
pub validate_unique_roles-ok :
    (pools : Dict String Role) (scope : Scope) (r : Role)
    → validate_unique_roles pools scope ≡ ok tt
    → (any_of (λ e. not (contains (scope_roles scope) e.1)) pools ≡ false)
      × (length (pools_of r pools) ≤ 1)
unfolding validate_unique_roles out_of_scope
validate_unique_roles-ok pools scope r h = elim (Bool-cases (out_of_scope scope pools)) [
  | inl t ↦ cc (rw t at h)
  | inr f ↦ elim (Bool-cases (any_of (λ e. ltb 1 (length e.1)) (pools_by_role [] pools))) [
    | inl t ↦ cc (rw (f, t) at h)
    | inr g ↦
        let few = few_of (get (pools_by_role [] pools) r) (λ n e.
          any_of-get (λ (ns : List String). ltb 1 (length ns)) (pools_by_role [] pools) r n g e) in
        (f, omega (arith, get-pools_by_role r pools [], few))
  ]
]

-- A network of the version that has the address.
abbrev pub has_address : ℕ → ℕ → Network → Bool
has_address version x n = nat_beq n.version version && holds n x

subnet_of-holds :
    (n f : Network) (x : ℕ) → subnet_of n f ≡ true → holds n x ≡ true → holds f x ≡ true
unfolding subnet_of holds
subnet_of-holds n f x h k = ground arith

is_contained-has_address :
    (version x : ℕ) (n : Network) (fs : List Network)
    → is_contained fs n ≡ true
    → has_address version x n ≡ true
    → any_of (has_address version x) fs ≡ true
is_contained-has_address version x n [] h k = cc
is_contained-has_address version x n (f ∷ fs) h k =
    ground (arith, subnet_of-holds n f x, is_contained-has_address version x n fs)

all_contained :
    (version x : ℕ) (ns fs : List Network)
    → all_of (is_contained fs) ns ≡ true
    → any_of (has_address version x) ns ≡ true
    → any_of (has_address version x) fs ≡ true
all_contained version x [] fs h k = cc
all_contained version x (n ∷ ns) fs h k =
    ground (arith, is_contained-has_address version x n fs, all_contained version x ns fs)

contains_role-ok :
    (version x : ℕ) (unconstrained : List Role) (ns fs : List Network) (r : Role)
    → contains_role unconstrained ns fs r ≡ true
    → any_of (has_address version x) ns ≡ true
    → (any_of (has_address version x) fs || (is_empty fs && contains unconstrained r)) ≡ true
unfolding contains_role
contains_role-ok version x unconstrained [] fs r h k = cc
contains_role-ok version x unconstrained (n ∷ ns) [] r h k = h
contains_role-ok version x unconstrained (n ∷ ns) (f ∷ fs) r h k =
    ground (arith, all_contained version x (n ∷ ns) (f ∷ fs) h k)

if_ok :
    (b : Bool) (m : String)
    → ◌≡◌ {A = Result {0} Unit} (if b then ok tt else err m) (ok tt)
    → b ≡ true
if_ok true m h = refl
if_ok false m h = cc

-- Where the containment is accepted, each address of a pod's pool for loopbacks, VTEP loopbacks or
-- point-to-point links is an address of a fabric pool of the same role, unless the fabric has no
-- pool of that role and carves it on demand.
pub validate_pod_pool_containment-ok :
    (pods fabrics : Dict Role (List Network)) (unconstrained : List Role) (r : Role) (version x : ℕ)
    → validate_pod_pool_containment pods fabrics unconstrained ≡ ok tt
    → contains contained_roles r ≡ true
    → any_of (has_address version x) (prefixes_of pods r) ≡ true
    → (any_of (has_address version x) (prefixes_of fabrics r)
        || (is_empty (prefixes_of fabrics r) && contains unconstrained r))
      ≡ true
unfolding validate_pod_pool_containment
validate_pod_pool_containment-ok pods fabrics unconstrained r version x h m k =
    let accepts =
      λ (q : Role). contains_role unconstrained (prefixes_of pods q) (prefixes_of fabrics q) q in
    contains_role-ok version x unconstrained (prefixes_of pods r) (prefixes_of fabrics r) r
      (all_of-member accepts contained_roles r (if_ok _ _ h) m) k
