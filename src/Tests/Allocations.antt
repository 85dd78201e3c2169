-- ===== src/Tests/Allocations.antt =====
-- Branches of two tenants and two applications, read by a reader that knows three networks.
use infrahub_network_field_d.Base.{
  ◌↔◌, ℕ, String, true, false, ◌&&◌, Option, none, some, [], ◌∷◌, ◌≡◌, refl, if◌then◌else◌, ◌==◌,
  string_eq, contains, sort, str_leb,
}
use mathlib.Core.List.{Memᴰ}
use mathlib.Core.List.Memᴰ.{head}
use infrahub_network_field_d.Base.Members.{All, AllPairs, Before, here}
use infrahub_network_field_d.Pools.Prefixes.{Network, network_at, holds}
use infrahub_network_field_d.Checks.Allocation.{validate, log_error}
use infrahub_network_field_d.Checks.Allocation.Schema.{
  Query, Readers, Named, L2Vlan, Tenant, Prefix, Cluster, App, ServiceVlan, VipBlock, TenantSubnet,
  renders_vlan,
}
use infrahub_network_field_d.Checks.Allocation.Vlans.{
  service_vlans, shared_tags, is_same, l2_service_vlan,
}
use infrahub_network_field_d.Checks.Allocation.Subnets.{tenant_subnets}
use infrahub_network_field_d.Checks.Allocation.Addresses.{AreApart, IsInPools, check_vip_blocks_iff}
use infrahub_network_field_d.Checks.Allocation.Vips.{check_vip_blocks, vip_blocks}
use infrahub_network_field_d.Checks.Allocation.Accepted.{
  is_blocked, validate-refuses_clash, validate-accepts_vlans, validate-accepts_vip_block,
  validate-accepts_subnets,
}

abbrev read_network : String → Option Network
read_network t =
    if t == "10.112.240.0/24"
    then some (network_at 4 24 175173632)
    else if t == "10.112.240.0/28"
    then some (network_at 4 28 175173632)
    else if t == "10.112.240.16/28"
    then some (network_at 4 28 175173648)
    else none

abbrev readers : Readers
readers = record { ip_network = read_network; ip_interface = λ t. none }

abbrev fabric : Named
fabric = record { id = "f1"; name = some "fabric" }

abbrev vlan_at : String → ℕ → L2Vlan
vlan_at id n = record {
  id = id;
  name = none;
  vlan_id = some n;
  vni_override = none;
  rack_tags = some "rack1" ∷ [];
  avd_tags = none ∷ [];
  vlan = none;
}

abbrev tenant_at : String → ℕ → L2Vlan → Tenant
tenant_at id base vlan = record {
  id = id;
  name = some id;
  mac_vrf_vni_base = some base;
  fabrics = fabric ∷ [];
  vrfs = [];
  l_2_vlans = vlan ∷ [];
}

abbrev cluster : Cluster
cluster = record { id = "c1"; name = none; vip_pools = some "10.112.240.0/24" ∷ [] }

abbrev app_at : String → String → App
app_at id block = record {
  id = id;
  name = none;
  vip_block = some (id, some block);
  cluster = some cluster;
}

abbrev red : Named
red = record { id = "v1"; name = some "red" }

abbrev prefix_at : String → String → Prefix
prefix_at id t = record { id = id; prefix = some t; role = some "tenant_host"; vrf = some red }

abbrev branch : ℕ → Query
branch n = record {
  evpn_tenant = tenant_at "t1" 10000 (vlan_at "l1" 10) ∷ tenant_at "t2" 20000 (vlan_at "l2" n) ∷ [];
  evpn_svi = [];
  core_ip_prefix_pool = [];
  service_network_segment = [];
  ipam_prefix = prefix_at "p1" "10.112.240.0/28" ∷ prefix_at "p2" "10.112.240.16/28" ∷ [];
  service_fabric_app = app_at "a1" "10.112.240.0/28" ∷ app_at "a2" "10.112.240.16/28" ∷ [];
}

abbrev first_vlan : ServiceVlan
unfolding l2_service_vlan
first_vlan = l2_service_vlan (tenant_at "t1" 10000 (vlan_at "l1" 10)) (vlan_at "l1" 10)

abbrev second_vlan : ℕ → ServiceVlan
unfolding l2_service_vlan
second_vlan n = l2_service_vlan (tenant_at "t2" 20000 (vlan_at "l2" n)) (vlan_at "l2" n)

vlans-Before : (n : ℕ) → Before first_vlan (second_vlan n) (service_vlans (branch n))
unfolding service_vlans l2_service_vlan
vlans-Before n = here refl (head refl)

accepted : is_blocked (validate readers (branch 11)) ≡ false
unfolding validate
accepted = refl

validate-refuses_clash_example :
    Memᴰ
      (log_error (record {
        message =
            renders_vlan first_vlan
              (second_vlan 10)
              "fabric"
              (sort str_leb (shared_tags first_vlan (second_vlan 10)));
        object_id = "l2";
        object_type = "EvpnL2Vlan";
      }))
      (validate readers (branch 10))
unfolding l2_service_vlan
validate-refuses_clash_example =
    validate-refuses_clash readers (branch 10) first_vlan (second_vlan 10) ("f1", "fabric") 10
      "rack1" (vlans-Before 10) (head refl) (head refl) refl refl refl refl

validate-accepts_vlans_example :
    ((is_same first_vlan.vlan_id (some 11)
        && (contains first_vlan.tags "rack1" && contains (second_vlan 11).tags "rack1"))
      ≡ false)
    × (is_same (first_vlan.vni) (second_vlan 11).vni ≡ false)
unfolding l2_service_vlan
validate-accepts_vlans_example =
    validate-accepts_vlans readers (branch 11) first_vlan (second_vlan 11) ("f1", "fabric") "rack1"
      accepted (vlans-Before 11) (head refl) (head refl)

abbrev block_at : String → ℕ → VipBlock
block_at id address = record {
  app_id = id;
  app_name = id;
  block_id = id;
  network = network_at 4 28 address;
  cluster_name = some "c1";
  pools = network_at 4 24 175173632 ∷ [];
}

blocks-Before :
    Before (block_at "a1" 175173632) (block_at "a2" 175173648) (vip_blocks readers (branch 11))
unfolding vip_blocks
blocks-Before = here refl (head refl)

block_in : Memᴰ (block_at "a1" 175173632) (vip_blocks readers (branch 11))
unfolding vip_blocks
block_in = head refl

validate-accepts_vip_block_example :
    (p : Network) × Memᴰ p (network_at 4 24 175173632 ∷ [])
    × (4 ≡ p.version)
    × (holds p 175173634 ≡ true)
unfolding holds
validate-accepts_vip_block_example =
    validate-accepts_vip_block readers (branch 11) (block_at "a1" 175173632) 175173634 accepted
      block_in refl

abbrev subnet_at : String → ℕ → TenantSubnet
subnet_at id address = record {
  prefix_id = id;
  network = network_at 4 28 address;
  role = some "tenant_host";
  vrf = some ("v1", "red");
  segments = [];
}

subnets-Before :
    Before
      (subnet_at "p1" 175173632)
      (subnet_at "p2" 175173648)
      (tenant_subnets readers (branch 11))
unfolding tenant_subnets
subnets-Before = here refl (head refl)

validate-accepts_subnets_example :
    (holds (network_at 4 28 175173632) 175173634 && holds (network_at 4 28 175173648) 175173634)
    ≡ false
validate-accepts_subnets_example =
    validate-accepts_subnets readers (branch 11) (subnet_at "p1" 175173632)
      (subnet_at "p2" 175173648) 175173634 accepted subnets-Before refl refl

check_vip_blocks_iff_example : (check_vip_blocks readers (branch 11) ≡ []) ↔ (
    All IsInPools (vip_blocks readers (branch 11))
    × AllPairs AreApart (vip_blocks readers (branch 11)))
check_vip_blocks_iff_example = check_vip_blocks_iff readers (branch 11)
