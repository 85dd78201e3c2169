-- ===== src/Pools/Prefixes.antt =====
-- next_available_prefix of src/solution_arista_avd/pool_roles.py. A network of the standard
-- library's `ipaddress` is its version, its address as a number, and its prefix length.
use infrahub_network_field_d.Base.{
  ℕ, zero, suc, ◌+◌, ◌-◌, ◌^◌, Bool, true, false, not, ◌&&◌, ◌||◌, Option, none, some, List, [],
  ◌∷◌, ◌++◌, if◌then◌else◌, nat_eq, nat_beq, leb, ltb, any_of, keep_if, sort,
}
use infrahub_network_field_d.Base.Dict.{Dict, get, put}
use infrahub_network_field_d.Base.Result.{Result, ok, err}

pub record Network : Type 0 where
  pub version : ℕ
  pub address : ℕ
  pub prefix : ℕ

-- max_prefixlen
abbrev pub width : ℕ → ℕ
width version = if nat_beq version 4 then 32 else 128

-- num_addresses
unfoldable pub size : Network → ℕ
size n = 2 ^ (width n.version - n.prefix)

-- x in n
unfoldable pub holds : Network → ℕ → Bool
unfolding size
holds n x = leb n.address x && ltb x (n.address + size n)

-- broadcast_address
unfoldable pub last : Network → ℕ
unfolding size
last n = n.address + size n - 1

-- a.overlaps(b)
unfoldable pub overlaps : Network → Network → Bool
unfolding holds last
overlaps a b = holds b a.address || holds b (last a) || holds a b.address || holds a (last b)

-- The test on one child.
unfoldable pub is_taken : List Network → Network → Bool
unfolding overlaps
is_taken used child =
    any_of (λ p. overlaps child p) (keep_if (λ p. nat_beq p.version child.version) used)

abbrev pub network_at : ℕ → ℕ → ℕ → Network
network_at version prefix address = record { version = version; address = address; prefix = prefix }

-- The next `n` children from an address on, in order: the first that is free.
unfoldable pub first_free : List Network → (version prefix n address : ℕ) → Option Network
first_free used version prefix zero address = none
first_free used version prefix (suc n) address =
    elim (is_taken used (network_at version prefix address)) [
      | false ↦ some (network_at version prefix address)
      | true ↦ first_free used version prefix n (address + size (network_at version prefix address))
    ]

-- for child in supernet.subnets(new_prefix=prefix_length): a supernet of full length has itself as
-- its only child, whatever length is asked for.
unfoldable pub is_full : Network → Bool
is_full s = nat_beq s.prefix (width s.version)

unfoldable pub free_child : List Network → ℕ → Network → Option Network
unfolding first_free is_full
free_child used prefix s =
    if is_full s
    then (if is_taken used s then none else some s)
    else first_free used s.version prefix (2 ^ (prefix - s.prefix)) s.address

abbrev pub or_next : Option Network → Result (Option Network) → Result (Option Network)
or_next none rest = rest
or_next (some c) rest = ok (some c)

-- The loop over the supernets of one version, and then of the next.
unfoldable pub search_supernets : List Network → ℕ → List Network → Result (Option Network)
unfolding free_child is_full
search_supernets used prefix [] = ok none
search_supernets used prefix (s ∷ ss) =
    let rest = search_supernets used prefix ss in
    if ltb prefix s.prefix
    then rest
    else if ltb (width s.version) prefix && not (is_full s)
    then err "new prefix must be longer"
    else or_next (free_child used prefix s) rest

-- by_version.setdefault(supernet.version, []).append(supernet)
abbrev pub listed : Option (List Network) → List Network
listed none = []
listed (some ns) = ns

unfoldable pub by_version : Dict ℕ (List Network) → List Network → Dict ℕ (List Network)
by_version d [] = d
by_version d (n ∷ ns) = by_version (put d n.version (listed (get d n.version) ++ n ∷ [])) ns

-- The order of two networks of one version.
abbrev pub at_most : Network → Network → Bool
at_most a b = ltb a.address b.address || nat_beq a.address b.address && leb a.prefix b.prefix

-- sorted(by_version[version]), for each version
unfoldable pub flatten_versions : Dict ℕ (List Network) → List Network
unfolding sort
flatten_versions [] = []
flatten_versions ((v, ns) ∷ d) = sort at_most ns ++ flatten_versions d

-- for version in sorted(by_version)
unfoldable pub search_order : List Network → List Network
unfolding by_version sort flatten_versions
search_order supernets = flatten_versions (sort (λ e f. leb e.0 f.0) (by_version [] supernets))

unfoldable pub next_available_prefix : List Network → List Network → ℕ → Result (Option Network)
unfolding search_supernets search_order
next_available_prefix supernets used prefix = search_supernets used prefix (search_order supernets)
