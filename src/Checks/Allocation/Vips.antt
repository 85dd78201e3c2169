-- ===== src/Checks/Allocation/Vips.antt =====
-- Rule 3 of checks/allocation_consistency_check.py: the blocks of virtual addresses.
use infrahub_network_field_d.Base.{
  String, Bool, ◌&&◌, not, Option, none, some, List, [], ◌∷◌, ◌++◌, if◌then◌else◌, nat_beq, leb,
  any_of, sort,
}
use infrahub_network_field_d.Base.Members.{each, combinations}
use infrahub_network_field_d.Pools.Prefixes.{Network, overlaps, last}
use infrahub_network_field_d.Checks.Allocation.Schema.{
  Query, Readers, App, Cluster, VipBlock, Finding, name_or, pair_leb, network_of, networks_overlap,
  kind_app, is_outside_pools, blocks_overlap,
}

abbrev network_list : Option Network → List Network
network_list none = []
network_list (some n) = n ∷ []

abbrev cluster_pools : Readers → Option Cluster → List Network
cluster_pools readers none = []
cluster_pools readers (some c) = each (λ p. network_list (network_of readers p)) c.vip_pools

abbrev cluster_name_of : Option Cluster → Option String
cluster_name_of none = none
cluster_name_of (some c) = some (name_or c.name c.id)

unfoldable pub vip_block_of : Readers → App → List VipBlock
vip_block_of readers app = elim app.vip_block [
  | none ↦ []
  | some block ↦ elim (network_of readers block.1) [
    | none ↦ []
    | some network ↦
        record {
          app_id = app.id;
          app_name = name_or app.name app.id;
          block_id = block.0;
          network = network;
          cluster_name = cluster_name_of app.cluster;
          pools = cluster_pools readers app.cluster;
        }
        ∷ []
  ]
]

-- The order by name and id.
abbrev block_leb : VipBlock → VipBlock → Bool
block_leb a b = pair_leb (a.app_name, a.app_id) (b.app_name, b.app_id)

unfoldable pub vip_blocks : Readers → Query → List VipBlock
unfolding sort vip_block_of
vip_blocks readers parsed = sort block_leb (each (vip_block_of readers) parsed.service_fabric_app)

-- block.version == pool.version and block.subnet_of(pool)
unfoldable pub is_inside : Network → Network → Bool
unfolding last
is_inside network pool =
    nat_beq network.version pool.version
    && (leb pool.address network.address && leb (last network) (last pool))

unfoldable pub pool_findings : VipBlock → List Finding
unfolding is_inside
pool_findings block =
    if any_of (is_inside block.network) block.pools
    then []
    else record {
      message = is_outside_pools block;
      object_id = block.app_id;
      object_type = kind_app;
    }
      ∷ []

unfoldable pub block_findings : VipBlock × VipBlock → List Finding
unfolding overlaps
block_findings (left, right) =
    if not (networks_overlap left.network right.network)
    then []
    else record {
      message = blocks_overlap left right;
      object_id = right.app_id;
      object_type = kind_app;
    }
      ∷ []

unfoldable pub check_vip_blocks : Readers → Query → List Finding
unfolding vip_blocks pool_findings block_findings
check_vip_blocks readers parsed =
    let blocks = vip_blocks readers parsed in
    each pool_findings blocks ++ each block_findings (combinations blocks)
