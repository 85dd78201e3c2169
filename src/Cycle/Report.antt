-- ===== src/Cycle/Report.antt =====
-- The record of a cycle in reconcile.py: its report, and what it writes of each outcome.
use infrahub_network_field_d.Base.{
  String, Bool, true, false, not, ◌&&◌, Option, none, some, List, [], ◌∷◌, ◌++◌, if◌then◌else◌,
  ◌==◌, string_eq, option_eq, sort, str_leb,
}
use infrahub_network_field_d.Inventory.{World, DeviceOutcome}
use infrahub_network_field_d.State.{
  Graph, Outcome, in_sync, pending, drifted, failed, record_outcome, last_checksum,
}
use infrahub_network_field_d.Wake.{Snapshot}

pub record CycleReport : Type 0 where
  pub compared : List String
  pub differed : List String
  pub pushed : List String
  pub failed : List String
  pub suspended : List String
  pub not_due : List String
  -- a device and what was cleared on it
  pub swept : List (String × String)
  pub checksums : Snapshot

-- sorted(outcomes, key=lambda o: o.device)
unfoldable pub sort_outcomes : List DeviceOutcome → List DeviceOutcome
unfolding sort
sort_outcomes = sort (λ o p. str_leb o.device p.device)

unfoldable pub sort_names : List String → List String
unfolding sort
sort_names = sort str_leb

abbrev pub no_report : CycleReport
no_report = record {
  compared = [];
  differed = [];
  pushed = [];
  failed = [];
  suspended = [];
  not_due = [];
  swept = [];
  checksums = [];
}

-- previous is not None and previous != outcome.checksum
abbrev pub intent_moved : Option String → String → Bool
intent_moved none checksum = false
intent_moved (some previous) checksum = not (previous == checksum)

abbrev pub append_if : Bool → List String → String → List String
append_if b names name = if b then names ++ name ∷ [] else names

-- The four ways in which the loop over the outcomes ends its round, as what is recorded.
abbrev pub failed_outcome : DeviceOutcome → Outcome
failed_outcome o = record {
  device = o.device;
  status = failed;
  confirmed = false;
  error = o.error;
  diff = none;
  pushed = false;
  checksum = none;
}

abbrev pub in_sync_outcome : DeviceOutcome → Outcome
in_sync_outcome o = record {
  device = o.device;
  status = in_sync;
  confirmed = true;
  error = none;
  diff = none;
  pushed = false;
  checksum = some o.checksum;
}

abbrev pub differing_outcome : Option String → DeviceOutcome → Outcome
differing_outcome previous o = record {
  device = o.device;
  status = if intent_moved previous o.checksum then pending else drifted;
  confirmed = false;
  error = none;
  diff = some o.diff;
  pushed = o.pushed;
  checksum = some o.checksum;
}

-- The report's lists after an outcome.
unfoldable pub report_outcome : Bool → DeviceOutcome → CycleReport → CycleReport
report_outcome dry_run o r =
    if o.failed
    then record r { failed = r.failed ++ o.device ∷ [] }
    else if not o.differs
    then record r { compared = r.compared ++ o.device ∷ [] }
    else record r {
      compared = r.compared ++ o.device ∷ [];
      differed = r.differed ++ o.device ∷ [];
      pushed = append_if (not dry_run && o.pushed) r.pushed o.device;
    }

module _ (graph : Graph) where
  open graph use {Store}

  -- What is recorded of an outcome, with the checksum read back from the store.
  unfoldable pub to_record : DeviceOutcome → Store → Outcome
  unfolding last_checksum
  to_record o s =
      if o.failed
      then failed_outcome o
      else if o.differs
      then differing_outcome (last_checksum graph o.device s) o
      else in_sync_outcome o

  -- The loop over the outcomes.
  unfoldable pub take_outcomes :
      World → Bool → List DeviceOutcome → CycleReport → Store → CycleReport × Store
  unfolding report_outcome to_record record_outcome
  take_outcomes w dry_run [] r s = (r, s)
  take_outcomes w dry_run (o ∷ os) r s =
      take_outcomes w dry_run os (report_outcome dry_run o r)
        (if dry_run then s else record_outcome graph (w.stamps o.device) (to_record o s) s)
