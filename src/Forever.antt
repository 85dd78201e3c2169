-- ===== src/Forever.antt =====
-- The service loop of reconcile.py: run_forever with _cycle_arguments, and converge. Each round of
-- run_forever is given what the cycle and the wait met in it: the loop ends with the list of
-- rounds, which stands for `max_cycles`.
pub mod Rounds
pub mod Converge
use infrahub_network_field_d.Base.{
  ℕ, zero, suc, ◌+◌, String, Bool, true, false, not, ◌&&◌, ◌||◌, Option, none, some, List, [], ◌∷◌,
  ◌++◌, if◌then◌else◌, ◌==◌, string_eq, is_empty, minus,
}
use infrahub_network_field_d.Base.Result.{Result, ok, err, ◌>>=◌}
use infrahub_network_field_d.Cycle
use infrahub_network_field_d.Cycle.{
  CycleReport, CycleResult, Options, minimum_interval, validate_interval, validate_poll, run_cycle,
}
use infrahub_network_field_d.Inventory.{World}
use infrahub_network_field_d.State.{Graph}
use infrahub_network_field_d.Wake.{
  Snapshot, Reason, start, interval, artifacts, requested, Wake, Reading, wait_for_wake,
}

abbrev pub confirm_delay : ℕ
confirm_delay = minimum_interval

abbrev pub stable_polls : ℕ
stable_polls = 2

abbrev pub settle_limit : ℕ
settle_limit = 300

-- The keyword arguments that a cycle is started with, beside its number.
pub record Arguments : Type 0 where
  pub all_due : Bool
  pub force : List String
  pub scheduled : Bool

-- reason.reason in {WAKE_START, WAKE_INTERVAL}
abbrev pub by_interval : Reason → Bool
by_interval start = true
by_interval interval = true
by_interval _ = false

abbrev pub is_requested : Reason → Bool
is_requested requested = true
is_requested _ = false

-- _cycle_arguments
unfoldable pub cycle_arguments : Wake → List String → Bool × Arguments
cycle_arguments reason follow_up =
    if is_requested reason.reason
    then (false, record { all_due = true; force = []; scheduled = true })
    else (
      by_interval reason.reason && is_empty follow_up,
      record {
        all_due = false;
        force = reason.moved ++ follow_up;
        scheduled = by_interval reason.reason && is_empty follow_up;
      },
    )

-- A call of `cycle_fn`.
pub record Call : Type 0 where
  pub cycle : ℕ
  pub arguments : Arguments

-- What one round meets: the report of its cycle, `none` where the cycle raised; the poll after a
-- cycle that raised, `none` where it raised too; the clock when the wait begins; its readings.
pub record Round : Type 0 where
  pub report : Call → Option CycleReport
  pub observed : Option Snapshot
  pub begin : ℕ
  pub readings : List Reading

pub record Loop : Type 0 where
  pub scheduled_cycles : ℕ
  pub reason : Wake
  pub follow_up : List String

abbrev pub call_of : Loop → Call
call_of l = record {
  cycle = l.scheduled_cycles;
  arguments = (cycle_arguments l.reason l.follow_up).1;
}

abbrev pub baseline_of : Option CycleReport → Option Snapshot → Option Snapshot
baseline_of none observed = observed
baseline_of (some r) observed = some r.checksums

-- frozenset(report.pushed) - follow_up, and nothing after a cycle that raised
abbrev pub follow_up_of : Option CycleReport → List String → List String
follow_up_of none follow_up = []
follow_up_of (some r) follow_up = minus r.pushed follow_up

abbrev pub delay_of : ℕ → List String → ℕ
delay_of every follow_up = if is_empty follow_up then every else confirm_delay

abbrev pub next_loop : Loop → List String → Option Wake → Option Loop
next_loop l follow_up none = none
next_loop l follow_up (some w) = some (record {
  scheduled_cycles =
      if (cycle_arguments l.reason l.follow_up).0
      then l.scheduled_cycles + 1
      else l.scheduled_cycles;
  reason = w;
  follow_up = follow_up;
})

-- One round: the cycle, then the wait. `none` where the readings end while the wait is on.
unfoldable pub round : ℕ → ℕ → Loop → Round → Option Loop
unfolding cycle_arguments
round every poll_seconds l r =
    let report = r.report (call_of l) in
    let follow_up = follow_up_of report l.follow_up in
    next_loop l follow_up (
      wait_for_wake (baseline_of report r.observed) (delay_of every follow_up) r.begin poll_seconds
        stable_polls settle_limit r.readings)

-- The calls of `cycle_fn` that the loop makes, in order.
unfoldable pub rounds : ℕ → ℕ → Loop → List Round → List Call
rounds every poll_seconds l [] = []
rounds every poll_seconds l (r ∷ rs) =
    call_of l
    ∷ elim (round every poll_seconds l r) [ none ↦ [] | some l' ↦ rounds every poll_seconds l' rs ]

abbrev pub started : Loop
started = record {
  scheduled_cycles = 0;
  reason = record { reason = start; moved = [] };
  follow_up = [];
}

-- run_forever: it refuses to start below either floor. The first trigger() only drops a request
-- left from before.
unfoldable pub run_forever : ℕ → ℕ → List Round → Result (List Call)
unfolding validate_interval validate_poll rounds
run_forever every poll_seconds rs = validate_interval every >>= λ _.
    (validate_poll poll_seconds >>= λ _. ok (rounds every poll_seconds started rs))

abbrev pub max_converge_cycles : ℕ
max_converge_cycles = 6

abbrev pub converge_options : ℕ → ℕ → Options
converge_options firewall_every cycle = record {
  firewall_every = firewall_every;
  cycle = cycle;
  dry_run = false;
  all_due = true;
  force = [];
  scheduled = true;
}

-- not report.differed and not report.failed
abbrev pub is_clean : CycleReport → Bool
is_clean r = is_empty r.differed && is_empty r.failed

module _ (graph : Graph) (worlds : ℕ → World) (firewall_every : ℕ) where
  open graph use {Store}

  abbrev pub converge_cycle : ℕ → Store → CycleResult graph
  converge_cycle cycle s = run_cycle graph (worlds cycle) (converge_options firewall_every cycle) s

  -- `for cycle in range(max_cycles)` from `cycle` on, with the last report and the store. Outside
  -- the loop the report is an empty one.
  unfoldable pub converge_from : ℕ → ℕ → CycleReport → Store → CycleReport × Store
  converge_from zero cycle report s = (report, s)
  converge_from (suc left) cycle report s =
      let r = converge_cycle cycle s in
      elim (is_clean r.report) [
        | true ↦ (r.report, r.store)
        | false ↦ converge_from left (suc cycle) r.report r.store
      ]

  -- converge
  unfoldable pub converge : ℕ → Store → CycleReport × Store
  unfolding converge_from
  converge max_cycles s = converge_from max_cycles 0 Cycle.no_report s
