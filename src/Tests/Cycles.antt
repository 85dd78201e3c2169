-- ===== src/Tests/Cycles.antt =====
-- A cycle over a switch, a router and a firewall, and the service loop.
use infrahub_network_field_d.Base.{
  String, true, false, none, some, List, [], ◌∷◌, ◌≡◌, refl, string_eq, any_of, map, if◌then◌else◌,
  ◌==◌, is_empty, sort,
}
use infrahub_network_field_d.Base.Dict.{Dict, get}
use infrahub_network_field_d.Base.Result.{ok}
use infrahub_network_field_d.Base.Text.{Text, codes, strip}
use infrahub_network_field_d.Normalise.{normalise}
use infrahub_network_field_d.Normalise.Junos.{junos_line}
use infrahub_network_field_d.Wake.{Target, snapshot}
use infrahub_network_field_d.State.{
  Record, in_sync, fresh, updated, write_fields, record_outcome, is_suspended, last_checksum,
  sweep_orphans,
}
use infrahub_network_field_d.Inventory.{
  World, sweeps, compares, pushes, compare, reconcile_host, run_over, split_firewalls,
}
use infrahub_network_field_d.Inventory.Turns.{reaches, reconcile_host-pushes}
use infrahub_network_field_d.Cycle.{
  Options, CycleResult, order, by_name, due, sweep, due_targets, suspended_of, runnable_of,
  runnable_targets, run_devices, take_outcomes, to_record, report_outcome, sort_outcomes,
  sort_names, run_cycle,
}
use infrahub_network_field_d.Cycle.Suspended.{run_cycle-suspended}
use infrahub_network_field_d.Cycle.Outcomes.{changes, run_cycle-dry_run}
use infrahub_network_field_d.Cycle.Sweeping.{sweep_of, run_cycle-sweeps}
use infrahub_network_field_d.Tests.Memory.{memory}

unfoldable pub program : Unit {0}
unfolding order by_name due sweep due_targets suspended_of runnable_of runnable_targets run_devices
    run_over take_outcomes to_record report_outcome sort_outcomes sort_names run_cycle sort
    split_firewalls reconcile_host normalise junos_line record_outcome updated write_fields fresh
    sweep_orphans is_suspended last_checksum snapshot
program = tt

abbrev target : String → String → String → Target
target device family checksum = record {
  device = device;
  artifact_name = family;
  artifact_id = device;
  status = "Ready";
  mgmt_ip = some "172.20.41.11";
  checksum = checksum;
}

abbrev pub leaf : Target
leaf = target "leaf1" "AVD EOS Configuration" "c1"

abbrev wan : Target
wan = target "wan1" "SR Linux Configuration" "c2"

abbrev pub fw : Target
fw = target "fw1" "Junos Configuration" "c3"

-- The switch differs, the router is in sync, the firewall would differ.
abbrev raw_of : String → Text
raw_of device = if device == "wan1" then [] else codes "+ ntp server 1.2.3.4"

abbrev pub world : World
world = record {
  targets = fw ∷ leaf ∷ wan ∷ [];
  hosts =
      record { name = "fw1"; groups = "junos_firewalls" ∷ [] }
      ∷ record { name = "leaf1"; groups = "avd_devices" ∷ [] }
      ∷ record { name = "wan1"; groups = "srl_routers" ∷ [] }
      ∷ [];
  download = λ t. ok (codes "hostname x");
  comparator = λ t config. ok (raw_of t.device);
  pusher = λ t config. ok [];
  sweep_sessions = λ t. ok [];
  sweep_lock = λ t. ok true;
  task_error = λ host. none;
  crypt = λ password setting. none;
  passwords = [];
  stamps = λ device. record { checked = 7; confirmed = 8; attempted = 9 };
}

abbrev pub everything : Options
everything = record {
  firewall_every = 4;
  cycle = 0;
  dry_run = false;
  all_due = true;
  force = [];
  scheduled = true;
}

abbrev suspended_fw : Record
suspended_fw = record {
  name = "fw1";
  status = in_sync;
  suspend = true;
  suspend_reason = some "change freeze";
  last_checked_at = some 1;
  last_confirmed_at = some 1;
  last_attempt_at = none;
  last_error = none;
  last_artifact_checksum = some "c0";
}

abbrev pub store : List Record
store = suspended_fw ∷ record suspended_fw { name = "gone"; suspend = false } ∷ []

abbrev after : CycleResult memory
after = run_cycle memory world everything store

cycle_reports :
    (after.report.compared ≡ "leaf1" ∷ "wan1" ∷ [])
    × (after.report.pushed ≡ "leaf1" ∷ [])
    × (after.report.suspended ≡ "fw1" ∷ [])
    × (map (λ r. r.name) after.store ≡ "fw1" ∷ "leaf1" ∷ "wan1" ∷ [])
    × (after.contacts
        ≡ sweeps "leaf1"
          ∷ sweeps "wan1"
          ∷ sweeps "fw1"
          ∷ compares "leaf1"
          ∷ pushes "leaf1"
          ∷ compares "wan1"
          ∷ [])
unfolding program
cycle_reports = (refl, refl, refl, refl, refl)

run_cycle-suspended_example :
    (memory.find after.store "fw1" ≡ some suspended_fw)
    × (any_of (reaches "fw1") after.contacts ≡ false)
unfolding program
run_cycle-suspended_example =
    run_cycle-suspended memory world everything store "fw1" refl refl refl refl

-- The suspended firewall is swept all the same.
run_cycle-sweeps_example : any_of (sweep_of "fw1") after.contacts ≡ true
run_cycle-sweeps_example = run_cycle-sweeps memory world everything store "fw1" refl

abbrev dry : Options
dry = record everything { dry_run = true }

run_cycle-dry_run_example :
    ((run_cycle memory world dry store).store ≡ store)
    × (any_of changes (run_cycle memory world dry store).contacts ≡ false)
    × ((run_cycle memory world dry store).report.pushed ≡ [])
run_cycle-dry_run_example = run_cycle-dry_run memory world dry store refl

abbrev one : Dict String Target
one = ("leaf1", leaf) ∷ []

reconcile_host-pushes_example :
    (t : Target) × (config : Text) × (lines : List Text) × (get one "leaf1" ≡ some t)
    × (world.download t ≡ ok config)
    × (is_empty (strip config) ≡ false)
    × (compare world t config ≡ ok lines)
    × (is_empty lines ≡ false)
    × (everything.dry_run ≡ false)
unfolding program
reconcile_host-pushes_example = reconcile_host-pushes world one false "leaf1" refl
