-- ===== src/Wake/Unread.antt =====
-- The wait after a cycle that could read nothing.
use infrahub_network_field_d.Base.{
  ℕ, ◌+◌, ◌≤◌, ◌<◌, false, Option, none, some, [], ◌∷◌, ◌≡◌, ◌∙◌, arith,
}
use infrahub_network_field_d.Wake.{
  Snapshot, moved, same, Reading, woke, waits, WaitConfig, WaitState, artifacts, turn,
  wait_for_wake, config_of,
}
use infrahub_network_field_d.Wake.Held.{same_refl}
use infrahub_network_field_d.Wake.Returns.{wait_loop-woke, wait_loop-waits}

abbrev pub seen : ℕ → Snapshot → Reading
seen now current = record { now = now; triggered = false; observed = some current }

module _ (delay begin poll_seconds limit t u v : ℕ) (b p : Snapshot) (differ : same p b ≡ false)
    (first : begin + poll_seconds ≤ t) (second : t + poll_seconds ≤ u)
    (third : u + poll_seconds ≤ v) (early : u < begin + delay) where
  abbrev config : WaitConfig
  config = config_of begin delay poll_seconds 2 limit

  abbrev state : Option Snapshot → ℕ → Option Snapshot → ℕ → WaitState
  state baseline next pending agreeing = record {
    baseline = baseline;
    next_poll = next;
    pending = pending;
    agreeing = agreeing;
  }

  turn-first :
      turn config (state none (begin + poll_seconds) none 0) (seen t b)
      ≡ waits (state (some b) (t + poll_seconds) none 0)
  unfolding turn
  turn-first = ground (arith, first, second, early)

  turn-second :
      turn config (state (some b) (t + poll_seconds) none 0) (seen u p)
      ≡ waits (state (some b) (u + poll_seconds) (some p) 1)
  unfolding turn
  turn-second = ground (arith, second, early, differ)

  turn-third :
      turn config (state (some b) (u + poll_seconds) (some p) 1) (seen v p)
      ≡ woke (record { reason = artifacts; moved = moved b p })
  unfolding turn
  turn-third = ground (arith, third, differ, same_refl p)

  -- Also after a cycle that could read nothing a wait ends for moved artifacts: the first poll
  -- becomes the baseline, and the next two polls, if they agree on another snapshot and the first of
  -- them is before the deadline, wake the loop and name the devices that moved since the baseline.
  pub wait_for_wake-unread :
      wait_for_wake none delay begin poll_seconds 2 limit (seen t b ∷ seen u p ∷ seen v p ∷ [])
      ≡ some (record { reason = artifacts; moved = moved b p })
  unfolding wait_for_wake
  wait_for_wake-unread =
      wait_loop-waits config _ _ (seen t b) (seen u p ∷ seen v p ∷ []) turn-first
      ∙ (wait_loop-waits config _ _ (seen u p) (seen v p ∷ []) turn-second
          ∙ wait_loop-woke config _ (seen v p) [] _ turn-third)
