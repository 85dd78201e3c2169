-- ===== src/Tests/Pooling.antt =====
-- Pools on concrete prefixes.
use infrahub_network_field_d.Base.{
  String, true, false, ◌&&◌, ◌||◌, Option, none, some, List, [], ◌∷◌, ◌≡◌, refl, string_eq, nat_eq,
  is_empty, contains, any_of, sort,
}
use infrahub_network_field_d.Base.Dict.{Dict}
use infrahub_network_field_d.Base.Result.{ok}
use infrahub_network_field_d.Pools.Prefixes.{
  Network, network_at, is_taken, size, holds, last, overlaps, first_free, next_available_prefix,
}
use infrahub_network_field_d.Pools.Children.{is_within, length_of}
use infrahub_network_field_d.Pools.Allocation.{
  shares, has_free_child, next_available_prefix-free, next_available_prefix-exhausted,
}
use infrahub_network_field_d.Pools.Roles.{
  Role, role_eq, loopback, mlag, validate_pod_pool_containment, prefixes_of,
}
use infrahub_network_field_d.Pools.Resolved.{has_address, validate_pod_pool_containment-ok}

-- 10.0.0.0/28 and 10.0.1.0/28, and an IPv6 prefix.
abbrev supernets : List Network
supernets = network_at 6 120 0 ∷ network_at 4 28 167772416 ∷ network_at 4 28 167772160 ∷ []

abbrev used : List Network
used = network_at 4 30 167772160 ∷ network_at 4 31 167772166 ∷ []

found : next_available_prefix supernets used 30 ≡ ok (some (network_at 4 30 167772168))
unfolding next_available_prefix first_free is_taken overlaps holds last size sort
found = refl

next_available_prefix-free_example :
    (any_of (λ s. is_within s (network_at 4 30 167772168)) supernets ≡ true)
    × ((network_at 4 30 167772168).prefix ≡ length_of 30 4)
    × (any_of (shares (network_at 4 30 167772168) 167772169) used ≡ false)
next_available_prefix-free_example =
    next_available_prefix-free supernets used 30 (network_at 4 30 167772168) 167772169 found

abbrev full : List Network
full = network_at 4 29 167772160 ∷ network_at 4 29 167772168 ∷ []

exhausted : next_available_prefix (network_at 4 28 167772160 ∷ []) full 30 ≡ ok none
unfolding next_available_prefix first_free is_taken overlaps holds last size sort
exhausted = refl

next_available_prefix-exhausted_example :
    any_of (has_free_child full 30 2) (network_at 4 28 167772160 ∷ []) ≡ false
next_available_prefix-exhausted_example =
    next_available_prefix-exhausted (network_at 4 28 167772160 ∷ []) full 30 2 exhausted

abbrev prefix_roles : List (Option String)
prefix_roles = some "pod_leaf_spine" ∷ none ∷ some "fabric_point_to_point" ∷ some "other" ∷ []

abbrev pools : Dict String Role
pools = ("p1", loopback) ∷ ("p2", mlag) ∷ []

abbrev pods : Dict Role (List Network)
pods = (loopback, network_at 4 30 167772168 ∷ []) ∷ []

abbrev fabrics : Dict Role (List Network)
fabrics = (loopback, network_at 4 28 167772160 ∷ []) ∷ []

validate_pod_pool_containment-ok_example :
    (any_of (has_address 4 167772169) (prefixes_of fabrics loopback)
      || (is_empty (prefixes_of fabrics loopback) && contains {A = Role} [] loopback))
    ≡ true
unfolding validate_pod_pool_containment holds size
validate_pod_pool_containment-ok_example =
    validate_pod_pool_containment-ok pods fabrics [] loopback 4 167772169 refl refl refl
