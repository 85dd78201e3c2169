-- ===== src/Checks/Peering.antt =====
-- The findings and the verdict of checks/peering_consistency_check.py.
pub mod Schema
pub mod Rules
pub mod Accepted
pub mod Claims
use infrahub_network_field_d.Base.{Bool, List, [], ◌∷◌, ◌++◌, map, any_of, not, if◌then◌else◌}
use infrahub_network_field_d.Base.Members.{each}
use infrahub_network_field_d.Checks.Peering.Schema.{Query, Finding}
use infrahub_network_field_d.Checks.Peering.Rules.{
  check_asn_matches_device, check_address_matches_svi, check_one_service_per_cluster,
  check_peer_is_cabled, check_peer_role, check_svi_node_agreement,
}

unfoldable pub rules : List (Query → List Finding)
unfolding check_asn_matches_device check_address_matches_svi check_one_service_per_cluster
    check_peer_is_cabled check_peer_role check_svi_node_agreement
rules =
    check_asn_matches_device ∷ check_address_matches_svi ∷ check_one_service_per_cluster
    ∷ check_peer_is_cabled ∷ check_peer_role ∷ check_svi_node_agreement ∷ []

unfoldable pub collect_findings : Query → List Finding
unfolding rules
collect_findings parsed = each (λ rule. rule parsed) rules

-- What the check logs: a logged error blocks the merge.
pub data Entry : Type 0 where
  log_error : Finding → Entry
  log_advisory : Finding → Entry
  log_consistent : Entry

abbrev pub entry_of : Finding → Entry
entry_of f = if f.is_error then log_error f else log_advisory f

abbrev pub log : List Finding → List Entry
log findings =
    map entry_of findings
    ++ (if not (any_of (λ (f : Finding). f.is_error) findings) then log_consistent ∷ [] else [])

unfoldable pub validate : Query → List Entry
unfolding collect_findings
validate parsed = log (collect_findings parsed)
