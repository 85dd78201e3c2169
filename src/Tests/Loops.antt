-- ===== src/Tests/Loops.antt =====
-- The service loop, and the outcomes of a cycle.
use infrahub_network_field_d.Base.{
  true, false, ◌≤◌, none, some, List, [], ◌∷◌, ◌≡◌, refl, string_eq,
}
use infrahub_network_field_d.Base.Result.{ok, err}
use infrahub_network_field_d.Base.Text.{codes}
use infrahub_network_field_d.Cycle.{CycleReport, minimum_interval, minimum_poll, no_report}
use infrahub_network_field_d.Forever.{
  Call, Round, Loop, cycle_arguments, round, rounds, run_forever, started,
}
use infrahub_network_field_d.Forever.Rounds.{IsNumbered, run_forever-IsNumbered}
use infrahub_network_field_d.Inventory.{DeviceOutcome}
use infrahub_network_field_d.Wake.{Snapshot, interval, wait_for_wake, turn, moved, same}

abbrev quiet : Snapshot
quiet = (("AVD EOS Configuration", "leaf1"), "c1") ∷ []

abbrev pushing : CycleReport
pushing = record no_report {
  compared = "leaf1" ∷ [];
  differed = "leaf1" ∷ [];
  pushed = "leaf1" ∷ [];
  checksums = quiet;
}

-- The cycle pushes leaf1, and the readings end the wait at time 60.
abbrev first : Round
first = record {
  report = λ call. some pushing;
  observed = none;
  begin = 0;
  readings = record { now = 60; triggered = false; observed = none } ∷ [];
}

-- The cycle raises; the readings end the wait at time 660.
abbrev second : Round
second = record first {
  report = λ call. none;
  begin = 60;
  readings = record { now = 660; triggered = false; observed = none } ∷ [];
}

abbrev confirming : Loop
confirming = record {
  scheduled_cycles = 1;
  reason = record { reason = interval; moved = [] };
  follow_up = "leaf1" ∷ [];
}

abbrev calls : List Call
calls =
    record { cycle = 0; arguments = record { all_due = false; force = []; scheduled = true } }
    ∷ record {
      cycle = 1;
      arguments = record { all_due = false; force = "leaf1" ∷ []; scheduled = false };
    }
    ∷ record { cycle = 1; arguments = record { all_due = false; force = []; scheduled = true } }
    ∷ []

after_first : round 600 10 started first ≡ some confirming
unfolding round wait_for_wake turn moved same cycle_arguments
after_first = refl

after_second : run_forever 600 10 (first ∷ second ∷ first ∷ []) ≡ ok calls
unfolding run_forever rounds round wait_for_wake turn moved same cycle_arguments
after_second = refl

refuses : run_forever 59 10 (first ∷ []) ≡ err "interval below the floor"
unfolding run_forever
refuses = refl

run_forever-IsNumbered_example :
    (minimum_interval ≤ 600)
    × (minimum_poll ≤ 10)
    × IsNumbered 600 10 0 started.reason [] (first ∷ second ∷ first ∷ []) calls
run_forever-IsNumbered_example =
    run_forever-IsNumbered 600 10 (first ∷ second ∷ first ∷ []) calls after_second

abbrev repeat : Round
repeat = record second { report = λ call. some pushing }

after_repeat : round 600 10 confirming repeat ≡ some (record confirming { follow_up = [] })
unfolding round wait_for_wake turn moved same cycle_arguments
after_repeat = refl

abbrev outcomes : List DeviceOutcome
outcomes =
    record {
      device = "fw1";
      differs = true;
      pushed = true;
      failed = false;
      error = none;
      diff = codes "x";
      checksum = "c3";
    }
    ∷ record {
      device = "leaf1";
      differs = false;
      pushed = false;
      failed = false;
      error = none;
      diff = [];
      checksum = "c1";
    }
    ∷ record {
      device = "wan1";
      differs = false;
      pushed = false;
      failed = true;
      error = some "timeout";
      diff = [];
      checksum = "c2";
    }
    ∷ []
