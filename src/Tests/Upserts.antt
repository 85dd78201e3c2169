-- ===== src/Tests/Upserts.antt =====
-- Outcomes recorded in the graph in memory, and its sweep.
use infrahub_network_field_d.Base.{true, false, Option, none, some, List, [], ◌∷◌, ◌≡◌, string_eq}
use infrahub_network_field_d.State.{
  Record, Outcome, Stamps, drifted, failed, is_found, record_outcome,
}
use infrahub_network_field_d.State.Records.{field_of, record_outcome-suspend}
use infrahub_network_field_d.Tests.Memory.{memory}

abbrev frozen : Record
frozen = record {
  name = "fw1";
  status = failed;
  suspend = true;
  suspend_reason = some "change freeze";
  last_checked_at = some 1;
  last_confirmed_at = some 1;
  last_attempt_at = none;
  last_error = some "lock held";
  last_artifact_checksum = some "c0";
}

abbrev gone : Record
gone = record frozen { name = "gone" }

abbrev store : List Record
store = frozen ∷ gone ∷ []

abbrev now : Stamps
now = record { checked = 7; confirmed = 8; attempted = 9 }

abbrev pushed : Outcome
pushed = record {
  device = "fw1";
  status = drifted;
  confirmed = false;
  error = none;
  diff = none;
  pushed = true;
  checksum = some "c1";
}

abbrev after : Option Record
after = memory.find (record_outcome memory now pushed store) "fw1"

record_outcome-suspend_example :
    (field_of false (λ r. r.suspend) after ≡ true)
    × (field_of none (λ r. r.suspend_reason) after ≡ some "change freeze")
    × (is_found after ≡ true)
record_outcome-suspend_example = record_outcome-suspend memory now pushed store "fw1"
