-- ===== src/Tests/Wakes.antt =====
-- The wait between cycles on concrete readings.
use infrahub_network_field_d.Base.{
  ℕ, false, Option, none, some, List, [], ◌∷◌, ◌≡◌, refl, string_eq, pair_eq, option_eq,
}
use infrahub_network_field_d.Wake.{
  Snapshot, Wake, Reading, interval, artifacts, snapshot, moved, same, turn, wait_for_wake,
}
use infrahub_network_field_d.Wake.Returns.{wait_for_wake-returns}
use infrahub_network_field_d.Wake.Settled.{JustifiedIn, wait_for_wake-justified}

abbrev old : Snapshot
old = (("eos", "leaf1"), "a") ∷ (("eos", "leaf2"), "b") ∷ []

abbrev new : Snapshot
new = (("eos", "leaf1"), "a") ∷ (("eos", "leaf2"), "c") ∷ []

abbrev reading : ℕ → Option Snapshot → Reading
reading now observed = record { now = now; triggered = false; observed = observed }

abbrev render : List Reading
render = reading 1 none ∷ reading 10 (some old) ∷ reading 20 (some new) ∷ reading 30 (some new) ∷ []

-- Two polls that agree on a moved snapshot wake the loop, and name the device.
wakes_settled :
    wait_for_wake (some old) 100 0 10 2 300 render
    ≡ some (record { reason = artifacts; moved = "leaf2" ∷ "leaf2" ∷ [] })
unfolding wait_for_wake turn moved same
wakes_settled = refl

-- One poll does not.
one_poll_waits :
    wait_for_wake (some old) 100 0 10 2 300 (reading 10 (some old) ∷ reading 20 (some new) ∷ [])
    ≡ none
unfolding wait_for_wake turn moved same
one_poll_waits = refl

-- A render that still moves holds the deadline, until the hard deadline.
abbrev moving : List Reading
moving =
    reading 10 (some new) ∷ reading 20 (some []) ∷ reading 25 none ∷ reading 330 (some new) ∷ []

holds_deadline :
    wait_for_wake (some old) 20 0 10 2 300 moving
    ≡ some (record { reason = interval; moved = "leaf2" ∷ "leaf2" ∷ [] })
unfolding wait_for_wake turn moved same
holds_deadline = refl

snapshot_last_wins :
    snapshot (
      record {
        device = "d";
        artifact_name = "a";
        artifact_id = "1";
        status = "";
        mgmt_ip = none;
        checksum = "x";
      }
      ∷ record {
        device = "d";
        artifact_name = "a";
        artifact_id = "2";
        status = "";
        mgmt_ip = none;
        checksum = "y";
      }
      ∷ [])
    ≡ (("a", "d"), "y") ∷ []
unfolding snapshot
snapshot_last_wins = refl

wait_for_wake-returns_example :
    (w : Wake) × (wait_for_wake (some old) 20 0 10 2 300 moving ≡ some w)
wait_for_wake-returns_example = wait_for_wake-returns (some old) 20 0 10 2 300 moving refl

wait_for_wake-justified_example :
    JustifiedIn
      (record { deadline = 100; hard_deadline = 400; poll_seconds = 10; stable_polls = 2 })
      old
      10
      []
      render
      (record { reason = artifacts; moved = "leaf2" ∷ "leaf2" ∷ [] })
wait_for_wake-justified_example =
    wait_for_wake-justified old 100 0 10 2 300 render
      (record { reason = artifacts; moved = "leaf2" ∷ "leaf2" ∷ [] }) wakes_settled
