-- ===== src/Checks/Allocation.antt =====
-- The findings and the verdict of checks/allocation_consistency_check.py.
pub mod Schema
pub mod Vlans
pub mod Subnets
pub mod Vips
pub mod Fabrics
pub mod Accepted
pub mod Addresses
use infrahub_network_field_d.Base.{
  ℕ, String, List, [], ◌∷◌, ◌++◌, map, is_empty, if◌then◌else◌, length,
}
use infrahub_network_field_d.Checks.Allocation.Schema.{Query, Readers, Finding}
use infrahub_network_field_d.Checks.Allocation.Vlans.{
  check_fabric_vlan_ids, check_vlan_reference, service_vlans,
}
use infrahub_network_field_d.Checks.Allocation.Subnets.{check_segment_subnets, tenant_subnets}
use infrahub_network_field_d.Checks.Allocation.Vips.{check_vip_blocks, vip_blocks}

unfoldable pub collect_findings : Readers → Query → List Finding
unfolding check_fabric_vlan_ids check_vlan_reference check_segment_subnets check_vip_blocks
collect_findings readers parsed =
    check_fabric_vlan_ids parsed
    ++ (check_vlan_reference parsed
        ++ (check_segment_subnets readers parsed ++ check_vip_blocks readers parsed))

-- What the check logs: a logged error blocks the merge, the information says what was examined.
pub data Entry : Type 0 where
  log_error : Finding → Entry
  log_info : (vlans subnets blocks : ℕ) → Entry

unfoldable pub validate : Readers → Query → List Entry
unfolding collect_findings service_vlans tenant_subnets vip_blocks
validate readers parsed =
    let findings = collect_findings readers parsed in
    map log_error findings
    ++ (if is_empty findings
        then log_info (length (service_vlans parsed)) (length (tenant_subnets readers parsed))
            (length (vip_blocks readers parsed))
          ∷ []
        else [])
