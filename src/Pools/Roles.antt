-- ===== src/Pools/Roles.antt =====
-- The roles of the pools in src/solution_arista_avd/pool_roles.py, and the rules about them. A set
-- of roles is a list that names each role once.
use infrahub_network_field_d.Base.{
  String, Bool, true, false, not, ◌&&◌, ◌||◌, Option, none, some, List, [], ◌∷◌, ◌++◌, ◌≡◌, ◌↔◌,
  refl, ap, if◌then◌else◌, Eq, ◌==◌, string_eq, nat_eq, nat_beq, leb, ltb, ◌+◌, length, is_empty,
  contains, minus, any_of, all_of,
}
use infrahub_network_field_d.Base.Dict.{Dict, get, put, or_empty}
use infrahub_network_field_d.Base.Result.{Result, ok, err}
use infrahub_network_field_d.Pools.Prefixes.{Network, size}

-- ResourceRole
pub data Role : Type 0 where
  management loopback loopback_vtep fabric_point_to_point dci fabric_supernet mlag mlag_peering :
      Role

-- The value of a member of the enumeration.
abbrev pub value : Role → String
value management = "management"
value loopback = "loopback"
value loopback_vtep = "loopback-vtep"
value fabric_point_to_point = "fabric_point_to_point"
value dci = "dci"
value fabric_supernet = "fabric_supernet"
value mlag = "mlag"
value mlag_peering = "mlag_peering"

-- POOL_ROLE_BY_PREFIX_ROLE, with LEGACY_ROLE_ALIASES
abbrev pub pool_role_by_prefix_role : Dict String Role
pool_role_by_prefix_role =
    ("management", management)
    ∷ ("loopback", loopback)
    ∷ ("loopback-vtep", loopback_vtep)
    ∷ ("fabric_point_to_point", fabric_point_to_point)
    ∷ ("dci", dci)
    ∷ ("fabric_supernet", fabric_supernet)
    ∷ ("mlag", mlag)
    ∷ ("mlag_peering", mlag_peering)
    ∷ ("supernet", fabric_supernet)
    ∷ ("pod_leaf_spine", fabric_point_to_point)
    ∷ ("pod_super_spine_spine", fabric_point_to_point)
    ∷ []

-- map_prefix_role
abbrev pub map_prefix_role : Option String → Option Role
map_prefix_role none = none
map_prefix_role (some prefix_role) = get pool_role_by_prefix_role prefix_role

map_prefix_role-value : (r : Role) → map_prefix_role (some (value r)) ≡ some r
map_prefix_role-value management = refl
map_prefix_role-value loopback = refl
map_prefix_role-value loopback_vtep = refl
map_prefix_role-value fabric_point_to_point = refl
map_prefix_role-value dci = refl
map_prefix_role-value fabric_supernet = refl
map_prefix_role-value mlag = refl
map_prefix_role-value mlag_peering = refl

pub role_beq_iff : (q r : Role) → ((value q == value r) ≡ true) ↔ (q ≡ r)
role_beq_iff q r = (
  λ h. cc (
    map_prefix_role-value q,
    map_prefix_role-value r,
    ap (λ v. map_prefix_role (some v)) ((string_eq.beq_iff (value q) (value r)).0 h),
  ),
  λ e. (string_eq.beq_iff (value q) (value r)).1 (ap value e),
)

instance abbrev pub role_eq : Eq Role
role_eq = record { beq = λ q r. value q == value r; beq_iff = role_beq_iff }

pub data Scope : Type 0 where
  fabric pod : Scope

-- SCOPE_ROLES
abbrev pub scope_roles : Scope → List Role
scope_roles fabric =
    management ∷ loopback ∷ loopback_vtep ∷ fabric_point_to_point ∷ dci ∷ fabric_supernet ∷ []
scope_roles pod = loopback ∷ loopback_vtep ∷ fabric_point_to_point ∷ mlag ∷ mlag_peering ∷ []

-- The set of the mapped roles.
abbrev pub add_role : Option Role → List Role → List Role
add_role none rs = rs
add_role (some r) rs = if contains rs r then rs else r ∷ rs

unfoldable pub mapped_roles : List (Option String) → List Role
mapped_roles [] = []
mapped_roles (p ∷ ps) = add_role (map_prefix_role p) (mapped_roles ps)

abbrev pub sole_role : Scope → List Role → Result Role
sole_role scope [] = err "pool does not satisfy the requirements"
sole_role scope (r ∷ []) =
    if contains (scope_roles scope) r
    then ok r
    else err "pool role does not satisfy the requirements"
sole_role scope (q ∷ r ∷ rs) = err "pool has mixed roles"

-- resolve_resource_role
unfoldable pub resolve_resource_role : List (Option String) → Scope → Result Role
unfolding mapped_roles
resolve_resource_role prefix_roles scope = sole_role scope (mapped_roles prefix_roles)

-- `bool(text)`
abbrev pub is_given : Option String → Bool
is_given none = false
is_given (some t) = not (t == "")

abbrev pub is_defined : Option String → Bool
is_defined none = false
is_defined (some t) = not (t == "") && not (t == "none")

abbrev add_if : Bool → List Role → List Role → List Role
add_if b new rs = if b then rs ++ new else rs

-- fabric_required_roles
unfoldable pub fabric_required_roles : Option String → Option String → Bool → List Role
fabric_required_roles overlay underlay has_dci_links = add_if has_dci_links (dci ∷ []) (
    add_if (is_defined underlay) (fabric_point_to_point ∷ [])
      (add_if (is_given overlay) (loopback ∷ loopback_vtep ∷ []) (management ∷ [])))

-- pod_required_mlag_roles
unfoldable pub pod_required_mlag_roles : Option String → Bool → List Role
pod_required_mlag_roles underlay has_mlag_enabled_rack =
    add_if (is_defined underlay && has_mlag_enabled_rack) (mlag_peering ∷ [])
      (add_if (not (is_defined underlay) || has_mlag_enabled_rack) (mlag ∷ []) [])

-- missing_fabric_roles
unfoldable pub missing_fabric_roles : List Role → List Role → Result (List Role)
missing_fabric_roles required available =
    if not (is_empty (minus required available)) && not (contains available fabric_supernet)
    then err "missing fabric pool roles require a fabric supernet"
    else ok (minus required available)

-- The test in the loop of validate_unique_roles.
unfoldable pub out_of_scope : Scope → Dict String Role → Bool
out_of_scope scope pools = any_of (λ e. not (contains (scope_roles scope) e.1)) pools

-- pools_by_role.setdefault(role, []).append(pool_name)
unfoldable pub pools_by_role : Dict Role (List String) → Dict String Role → Dict Role (List String)
pools_by_role d [] = d
pools_by_role d (e ∷ es) = pools_by_role (put d e.1 (or_empty (get d e.1) ++ e.0 ∷ [])) es

-- validate_unique_roles
unfoldable pub validate_unique_roles : Dict String Role → Scope → Result {0} Unit
unfolding out_of_scope pools_by_role
validate_unique_roles pools scope =
    if out_of_scope scope pools
    then err "pool role does not satisfy the requirements"
    else if any_of (λ e. ltb 1 (length e.1)) (pools_by_role [] pools)
    then err "duplicate authoritative roles"
    else ok tt

-- pod_prefix.subnet_of(fabric_prefix), of one version
unfoldable pub subnet_of : Network → Network → Bool
unfolding size
subnet_of a b = leb b.address a.address && leb (a.address + size a) (b.address + size b)

abbrev pub prefixes_of : Dict Role (List Network) → Role → List Network
prefixes_of d r = or_empty (get d r)

abbrev pub is_contained : List Network → Network → Bool
is_contained fabric_prefixes n =
    any_of (λ f. nat_beq n.version f.version && subnet_of n f) fabric_prefixes

-- One round of the loop of validate_pod_pool_containment, as whether it raises.
unfoldable pub contains_role : List Role → List Network → List Network → Role → Bool
unfolding subnet_of
contains_role unconstrained pod_prefixes fabric_prefixes role =
    is_empty pod_prefixes
    || (if is_empty fabric_prefixes
        then contains unconstrained role
        else all_of (is_contained fabric_prefixes) pod_prefixes)

abbrev pub contained_roles : List Role
contained_roles = loopback ∷ loopback_vtep ∷ fabric_point_to_point ∷ []

-- validate_pod_pool_containment
unfoldable pub validate_pod_pool_containment :
    Dict Role (List Network) → Dict Role (List Network) → List Role → Result {0} Unit
unfolding contains_role
validate_pod_pool_containment pods fabrics unconstrained =
    if all_of (λ r. contains_role unconstrained (prefixes_of pods r) (prefixes_of fabrics r) r)
      contained_roles
    then ok tt
    else err "pod pool is not contained by a matching fabric pool"
