-- ===== src/Checks/Wan.antt =====
-- The findings and the verdict of checks/wan_service_check.py.
pub mod Schema
pub mod Rules
pub mod Rendered
pub mod Live
pub mod Isolated
pub mod Accepted
pub mod Attached
use infrahub_network_field_d.Base.{Bool, List, [], ◌∷◌, ◌++◌, map, any_of}
use infrahub_network_field_d.Base.Members.{each}
use infrahub_network_field_d.Checks.Wan.Schema.{Query, Finding}
use infrahub_network_field_d.Checks.Wan.Rules.{
  check_circuit_membership, check_exclusive_vrfs, check_cloud_zone_matches_vrf,
  check_exclusive_clouds,
}
use infrahub_network_field_d.Checks.Wan.Live.{check_l3vpn_renderable, check_dependents_renderable}

unfoldable pub collect_findings : Query → List Finding
unfolding check_circuit_membership check_exclusive_vrfs check_cloud_zone_matches_vrf
    check_exclusive_clouds check_l3vpn_renderable check_dependents_renderable
collect_findings parsed =
    check_circuit_membership parsed
    ++ (check_exclusive_vrfs parsed
        ++ (check_cloud_zone_matches_vrf parsed
            ++ (check_exclusive_clouds parsed
                ++ (check_l3vpn_renderable parsed ++ check_dependents_renderable parsed))))

-- What the check logs: a logged error blocks the merge.
pub data Entry : Type 0 where
  log_error : Finding → Entry
  log_info : Entry

abbrev pub log : List Finding → List Entry
log [] = log_info ∷ []
log (f ∷ fs) = map log_error (f ∷ fs)

unfoldable pub validate : Query → List Entry
unfolding collect_findings
validate parsed = log (collect_findings parsed)
