-- ===== src/Wake.antt =====
-- src/solution_arista_avd/deployment/wake.py: when the loop starts its next cycle.
-- A clock reading, a delay and a poll interval are natural numbers of one unit. What the wait
-- reads from outside (clock, trigger file, checksum poll) is a list of readings, one for each
-- turn of its loop.
pub mod Moved
pub mod Returns
pub mod Held
pub mod Settled
pub mod Unread
use infrahub_network_field_d.Base.{
  ℕ, ◌+◌, String, Bool, true, false, not, ◌&&◌, ◌||◌, Option, none, some, List, [], ◌∷◌, ◌++◌, map,
  leb, if◌then◌else◌, ◌==◌, string_eq, pair_eq, option_eq, keep_if, any_of,
}
use infrahub_network_field_d.Base.Dict.{Dict, get, put, keys}

pub record Target : Type 0 where
  pub device : String
  pub artifact_name : String
  pub artifact_id : String
  pub status : String
  pub mgmt_ip : Option String
  pub checksum : String

-- (artifact name, device) -> checksum
abbrev pub Snapshot : Type 0
Snapshot = Dict (String × String) String

pub data Reason : Type 0 where
  start interval artifacts requested : Reason

pub record Wake : Type 0 where
  pub reason : Reason
  pub moved : List String

-- The dictionary comprehension: a later target with the same key replaces the value.
unfoldable pub snapshot_onto : Snapshot → List Target → Snapshot
snapshot_onto s [] = s
snapshot_onto s (t ∷ ts) = snapshot_onto (put s (t.artifact_name, t.device) t.checksum) ts

unfoldable pub snapshot : List Target → Snapshot
unfolding snapshot_onto
snapshot ts = snapshot_onto [] ts

-- before.get(key) != after.get(key)
abbrev pub key_moved : Snapshot → Snapshot → String × String → Bool
key_moved before after k = not (get before k == get after k)

unfoldable pub moved : Snapshot → Snapshot → List String
moved before after = map (λ k. k.1) (keep_if (key_moved before after) (keys before ++ keys after))

-- `==` of two dictionaries: the same keys with the same values.
unfoldable pub same : Snapshot → Snapshot → Bool
same a b = not (any_of (key_moved a b) (keys a ++ keys b))

-- FileTrigger.request and FileTrigger.consume, over whether the file exists.
unfoldable pub request : Bool → Bool
request exists = true

unfoldable pub consume : Bool → Bool × Bool
consume exists = if exists then (true, false) else (false, false)

pub record WaitConfig : Type 0 where
  pub deadline : ℕ
  pub hard_deadline : ℕ
  pub poll_seconds : ℕ
  pub stable_polls : ℕ

pub record WaitState : Type 0 where
  pub baseline : Option Snapshot
  pub next_poll : ℕ
  -- a snapshot that moved and has not yet held still
  pub pending : Option Snapshot
  pub agreeing : ℕ

-- One turn of the loop reads the clock, then the trigger, then perhaps the checksums, which
-- are `none` where the poll raises.
pub record Reading : Type 0 where
  pub now : ℕ
  pub triggered : Bool
  pub observed : Option Snapshot

pub data Turn : Type 0 where
  woke : Wake → Turn
  waits : WaitState → Turn

-- current == pending, where `pending` may be None
abbrev pub is_pending : Option Snapshot → Snapshot → Bool
is_pending none current = false
is_pending (some p) current = same current p

-- The arms of `if baseline is None ... elif ... else` on a successful poll.
absorb_onto : Option Snapshot → Snapshot → WaitState → WaitState
absorb_onto none current s = record s { baseline = some current }
absorb_onto (some b) current s =
    if same current b
    then record s { pending = none; agreeing = 0 }
    else if is_pending s.pending current
    then record s { agreeing = s.agreeing + 1 }
    else record s { pending = some current; agreeing = 1 }

unfoldable pub absorb : Option Snapshot → WaitState → WaitState
unfolding absorb_onto
absorb none s = s
absorb (some current) s = absorb_onto s.baseline current s

-- moved(baseline, pending), where both are there
abbrev pub moved_of : Option Snapshot → Option Snapshot → List String
moved_of (some b) (some p) = moved b p
moved_of none _ = []
moved_of (some b) none = []

abbrev pub is_some : Option Snapshot → Bool
is_some none = false
is_some (some p) = true

-- The test on the deadline.
due_turn : WaitConfig → ℕ → WaitState → Turn
due_turn c now s =
    if leb c.deadline now && (not (is_some s.pending) || leb c.hard_deadline now)
    then woke (record { reason = interval; moved = moved_of s.baseline s.pending })
    else waits s

-- `if pending is not None and agreeing >= stable_polls`, which stands under a successful poll.
settle_turn : WaitConfig → ℕ → Option Snapshot → WaitState → Turn
unfolding due_turn
settle_turn c now none s = due_turn c now s
settle_turn c now (some current) s =
    if is_some s.pending && leb c.stable_polls s.agreeing
    then woke (record { reason = artifacts; moved = moved_of s.baseline s.pending })
    else due_turn c now s

poll_turn : WaitConfig → Reading → WaitState → Turn
unfolding settle_turn absorb
poll_turn c r s =
    if leb s.next_poll r.now
    then settle_turn c r.now r.observed
        (absorb r.observed (record s { next_poll = r.now + c.poll_seconds }))
    else due_turn c r.now s

unfoldable pub turn : WaitConfig → WaitState → Reading → Turn
unfolding poll_turn
turn c s r =
    if r.triggered then woke (record { reason = requested; moved = [] }) else poll_turn c r s

-- The loop. `none` means that the list of readings ended while the wait was still on.
unfoldable pub wait_loop : WaitConfig → WaitState → List Reading → Option Wake
wait_loop c s [] = none
wait_loop c s (r ∷ rs) = elim (turn c s r) [ woke w ↦ some w | waits s' ↦ wait_loop c s' rs ]

abbrev pub config_of : ℕ → ℕ → ℕ → ℕ → ℕ → WaitConfig
config_of begin delay poll_seconds stable_polls settle_limit = record {
  deadline = begin + delay;
  hard_deadline = begin + delay + settle_limit;
  poll_seconds = poll_seconds;
  stable_polls = stable_polls;
}

abbrev pub initial : Option Snapshot → ℕ → ℕ → WaitState
initial baseline begin poll_seconds = record {
  baseline = baseline;
  next_poll = begin + poll_seconds;
  pending = none;
  agreeing = 0;
}

-- `begin` is the first reading of the clock.
unfoldable pub wait_for_wake :
    Option Snapshot
    → (delay begin poll_seconds stable_polls settle_limit : ℕ) → List Reading
    → Option Wake
unfolding wait_loop
wait_for_wake baseline delay begin poll_seconds stable_polls settle_limit rs =
    wait_loop (config_of begin delay poll_seconds stable_polls settle_limit)
      (initial baseline begin poll_seconds) rs
