-- ===== src/Cycle.antt =====
-- src/solution_arista_avd/deployment/reconcile.py: one cycle over the fabric.
mod Plan
pub mod Suspended
pub mod Sweeping
pub mod Outcomes
pub mod Quiet
mod Report
pub use Plan.{Options, minimum_interval, minimum_poll, is_junos}
unfoldable pub use Plan.{validate_interval, validate_poll, due, order, by_name, sweep}
pub use Report.{CycleReport, no_report}
unfoldable pub use Report.{to_record, report_outcome, take_outcomes, sort_outcomes, sort_names}
use infrahub_network_field_d.Base.{
  ℕ, ◌+◌, ◌%◌, String, Bool, true, false, not, ◌&&◌, ◌||◌, Option, none, some, List, [], ◌∷◌, ◌++◌,
  map, nat_beq, ltb, if◌then◌else◌, ◌==◌, string_eq, option_eq, is_empty, contains, keep_if, minus,
  sort, str_leb,
}
use infrahub_network_field_d.Base.Dict.{Dict, get, put, keys}
use infrahub_network_field_d.Base.Result.{Result, ok, err}
use infrahub_network_field_d.Inventory.{
  World, Host, Contact, sweeps, DeviceOutcome, known_family, run_over, split_firewalls,
}
use infrahub_network_field_d.Normalise.{artifact_eos, artifact_srl, artifact_junos}
use infrahub_network_field_d.State.{
  Graph, Outcome, in_sync, pending, drifted, failed, record_outcome, last_checksum, is_suspended,
  sweep_orphans,
}
use infrahub_network_field_d.Wake.{Target, Snapshot, snapshot}
use Prim.Native.String

-- {name: t for name, t in by_name.items() if all_due or _due(...)}
unfoldable pub due_targets : Options → Dict String Target → Dict String Target
unfolding due
due_targets o = keep_if (λ e. o.all_due || due o e.1)

unfoldable pub runnable_of : Dict String Target → List String → Dict String Target
runnable_of d suspended = keep_if (λ e. not (contains suspended e.0)) d

-- The two runs: the fabric, then the firewalls.
unfoldable pub run_devices : World → Bool → Dict String Target → List DeviceOutcome × List Contact
unfolding run_over split_firewalls
run_devices w dry_run runnable =
    let (fabric, firewalls) = split_firewalls w.hosts in
    let (os, cs) = run_over w fabric runnable dry_run in
    let (ps, ds) = run_over w firewalls runnable dry_run in (os ++ ps, cs ++ ds)

module _ (graph : Graph) where
  open graph use {Store}

  -- The due devices that the operator has suspended; a dry run asks for none.
  unfoldable pub suspended_of : Bool → Dict String Target → Store → List String
  unfolding is_suspended
  suspended_of dry_run d s =
      if dry_run then [] else keep_if (λ name. is_suspended graph name s) (keys d)

  -- The runnable devices of a cycle.
  unfoldable pub runnable_targets : World → Options → Store → Dict String Target
  unfolding order by_name due_targets suspended_of runnable_of
  runnable_targets w o s =
      let due_now = due_targets o (by_name (order w.targets)) in
      runnable_of due_now (suspended_of o.dry_run due_now s)

  pub record CycleResult : Type 0 where
    pub report : CycleReport
    pub store : Store
    -- every contact that the cycle made with a device
    pub contacts : List Contact

  -- run_cycle
  unfoldable pub run_cycle : World → Options → Store → CycleResult
  run_cycle w o s =
      let targets = order w.targets in
      let (swept, sweeping) = if o.dry_run then ([], []) else sweep w targets in
      let named = by_name targets in
      let due_now = due_targets o named in
      let (outcomes, running) = run_devices w o.dry_run (runnable_targets w o s) in
      let (r, s') =
        take_outcomes graph w o.dry_run (sort_outcomes outcomes)
          (record no_report {
            suspended = sort_names (suspended_of o.dry_run due_now s);
            not_due = sort_names (minus (keys named) (keys due_now));
            swept = swept;
            checksums = snapshot targets;
          })
          s in
      record {
        report = r;
        store = if o.dry_run then s' else (sweep_orphans graph (map (λ t. t.device) targets) s').0;
        contacts = sweeping ++ running;
      }
