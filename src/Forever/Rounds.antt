-- ===== src/Forever/Rounds.antt =====
-- What the service loop starts its cycles with.
use infrahub_network_field_d.Base.{
  ℕ, ◌+◌, ◌%◌, ◌≤◌, String, Bool, true, false, not, ◌&&◌, ◌||◌, Option, none, some, List, [], ◌∷◌,
  ◌≡◌, inl, inr, refl, sym, ◌∙◌, ap, subst, arith, if◌then◌else◌, string_eq, contains,
  contains-keep_if, contains-append, is_empty, nat_beq, Bool-cases, Option-cases, and_right,
}
use infrahub_network_field_d.Base.Result.{ok}
use mathlib.Core.Bool.{false≢true}
use infrahub_network_field_d.Cycle.{
  CycleReport, Options, due, is_junos, minimum_interval, minimum_poll,
}
use infrahub_network_field_d.Forever.{
  Call, Round, Loop, cycle_arguments, call_of, by_interval, is_requested, follow_up_of, round,
  rounds, run_forever, started, next_loop, baseline_of, delay_of, stable_polls, settle_limit,
  confirm_delay,
}
use infrahub_network_field_d.Wake.{
  Target, Wake, Reason, start, interval, artifacts, requested, wait_for_wake,
}

abbrev pub options_of : ℕ → Call → Options
options_of firewall_every c = record {
  firewall_every = firewall_every;
  cycle = c.cycle;
  dry_run = false;
  all_due = c.arguments.all_due;
  force = c.arguments.force;
  scheduled = c.arguments.scheduled;
}

-- A cycle that the loop starts compares the firewall in four cases only: a request asked for
-- every device, the firewall's own intent moved, it was pushed by the last cycle, or the interval
-- alone started the cycle and its number is a multiple of the cadence. It compares every other
-- device always.
pub firewall_due :
    (firewall_every : ℕ) (l : Loop) (t : Target)
    → ((options_of firewall_every (call_of l)).all_due
        || due (options_of firewall_every (call_of l)) t)
      ≡ (not (is_junos t)
          || is_requested l.reason.reason
          || contains l.reason.moved t.device
          || contains l.follow_up t.device
          || (by_interval l.reason.reason
              && is_empty l.follow_up
              && nat_beq (l.scheduled_cycles % firewall_every) 0))
unfolding cycle_arguments due
firewall_due firewall_every l t =
    ground (arith, contains-append l.reason.moved l.follow_up t.device)

next_loop-some :
    (l l' : Loop) (follow_up : List String) (o : Option Wake)
    → next_loop l follow_up o ≡ some l'
    → (l'.scheduled_cycles ≡ (
        if (cycle_arguments l.reason l.follow_up).0
        then l.scheduled_cycles + 1
        else l.scheduled_cycles))
      × (l'.follow_up ≡ follow_up)
      × (o ≡ some l'.reason)
next_loop-some l l' follow_up none h = cc
next_loop-some l l' follow_up (some w) h = ground arith

abbrev pub counts : Loop → Bool
counts l = by_interval l.reason.reason && is_empty l.follow_up

cycle_arguments-counts : (l : Loop) → (cycle_arguments l.reason l.follow_up).0 ≡ counts l
unfolding cycle_arguments
cycle_arguments-counts l = ground arith

module _ (every poll_seconds : ℕ) where
  -- A round that another one follows: only a cycle that the interval alone started is counted; the
  -- devices to confirm next are those that the cycle pushed, without those that it was itself
  -- confirming, and none if it raised; and the next cycle starts for the reason of the wait, which
  -- has the short delay exactly if there is a device to confirm.
  pub round-next :
      (l l' : Loop) (r : Round)
      → round every poll_seconds l r ≡ some l'
      → (l'.scheduled_cycles ≡ (if counts l then l.scheduled_cycles + 1 else l.scheduled_cycles))
        × (l'.follow_up ≡ follow_up_of (r.report (call_of l)) l.follow_up)
        × (wait_for_wake
              (baseline_of (r.report (call_of l)) r.observed)
              (if is_empty l'.follow_up then every else confirm_delay)
              r.begin
              poll_seconds
              stable_polls
              settle_limit
              r.readings
            ≡ some l'.reason)
  unfolding round
  round-next l l' r h =
      let (counted, followed, woken) =
        next_loop-some l l' (follow_up_of (r.report (call_of l)) l.follow_up) _ h in
      (
        counted
            ∙ ap (λ b. if b then l.scheduled_cycles + 1 else l.scheduled_cycles)
                (cycle_arguments-counts l),
        followed,
        ap
              (λ f.
                wait_for_wake (baseline_of (r.report (call_of l)) r.observed)
                  (if is_empty f then every else confirm_delay) r.begin poll_seconds stable_polls
                  settle_limit r.readings)
              followed
            ∙ woken,
      )

  contains-follow_up_of :
      (o : Option CycleReport) (follow_up : List String) (d : String)
      → contains (follow_up_of o follow_up) d ≡ true
      → contains follow_up d ≡ false
  contains-follow_up_of none follow_up d h = cc
  contains-follow_up_of (some r) follow_up d h = not-true _ (
      and_right (contains r.pushed d) _
        (sym (contains-keep_if (λ x. not (contains follow_up x)) r.pushed d) ∙ h))
    where
      not-true : (b : Bool) → not b ≡ true → b ≡ false
      not-true true e = cc
      not-true false e = refl

  -- Each push earns one early confirmation: no device is awaiting its confirmation after two
  -- rounds in a row, also if the confirming cycle pushed it again.
  pub follow_up_once :
      (l l' : Loop) (r : Round) (d : String)
      → round every poll_seconds l r ≡ some l'
      → contains l.follow_up d ≡ true
      → contains l'.follow_up d ≡ false
  follow_up_once l l' r d h c = elim (Bool-cases (contains l'.follow_up d)) [
    | inl t ↦
        let again = ap (λ f. contains f d) (sym (round-next l l' r h).1) ∙ t in
        absurd
          (false≢true (sym (contains-follow_up_of (r.report (call_of l)) l.follow_up d again) ∙ c))
    | inr f ↦ f
  ]

-- Whether a cycle counts towards the firewall's cadence, by the reason of the wake that it was
-- started for and the devices that await a confirmation.
abbrev pub moves_cadence : Reason → (awaited : List String) → Bool
moves_cadence start awaited = is_empty awaited
moves_cadence interval awaited = is_empty awaited
moves_cadence artifacts awaited = false
moves_cadence requested awaited = false

cycle_arguments-moves_cadence :
    (why : Reason) (moved : List (String)) (awaited : List String)
    → (cycle_arguments (record { reason = why; moved = moved }) awaited).0
      ≡ moves_cadence why awaited
unfolding cycle_arguments
cycle_arguments-moves_cadence start moved awaited = refl
cycle_arguments-moves_cadence interval moved awaited = refl
cycle_arguments-moves_cadence artifacts moved awaited = refl
cycle_arguments-moves_cadence requested moved awaited = refl

module _ (every poll_seconds : ℕ) where
  -- The wait after a cycle: what it is told of the cycle, and the delay, which is the short one just
  -- if a device is to be confirmed.
  abbrev pub wake_after : Round → Call → (confirm : List String) → Option Wake
  wake_after r c confirm =
      wait_for_wake (baseline_of (r.report c) r.observed) (delay_of every confirm) r.begin
        poll_seconds stable_polls settle_limit r.readings

  -- The calls in the rounds, from a cycle that starts for the wake `why`, with the devices `awaited`
  -- to confirm, when `n` cycles were counted: each bears the number of the counted cycles before it,
  -- and the next one starts for the wake that the wait after it returned.
  abbrev pub IsNumbered :
      ℕ → (why : Wake) → (awaited : List String) → List Round → List Call → Type 0
  IsNumbered n why awaited [] cs = cs ≡ []
  IsNumbered n why awaited (r ∷ rs) [] = false ≡ true
  IsNumbered n why awaited (r ∷ rs) (c ∷ cs) =
      let confirm = follow_up_of (r.report c) awaited in
      (c.cycle ≡ n) × elim (wake_after r c confirm) [
        | none ↦ cs ≡ []
        | some w ↦
            IsNumbered (if moves_cadence why.reason awaited then n + 1 else n) w confirm rs cs
      ]

  rounds-IsNumbered :
      (rs : List Round) (l : Loop)
      → IsNumbered l.scheduled_cycles l.reason l.follow_up rs (rounds every poll_seconds l rs)
  unfolding rounds round
  rounds-IsNumbered [] l = refl
  rounds-IsNumbered (r ∷ rs) l =
      let confirm = follow_up_of (r.report (call_of l)) l.follow_up in
      elim (Option-cases (wake_after r (call_of l) confirm)) [
        | inl e ↦
            let ended : round every poll_seconds l r ≡ none = ap (next_loop l confirm) e in
            rw (e, ended) (refl, refl)
        | inr (w, e) ↦
            let next : Loop = record {
              scheduled_cycles =
                  if (cycle_arguments l.reason l.follow_up).0
                  then l.scheduled_cycles + 1
                  else l.scheduled_cycles;
              reason = w;
              follow_up = confirm;
            } in
            let on : round every poll_seconds l r ≡ some next = ap (next_loop l confirm) e in
            rw (e, on)
              (
                refl,
                subst
                    (λ b.
                      IsNumbered (if b then l.scheduled_cycles + 1 else l.scheduled_cycles) w
                        confirm rs (rounds every poll_seconds next rs))
                    (cycle_arguments-moves_cadence l.reason.reason l.reason.moved l.follow_up)
                    (rounds-IsNumbered rs next),
              )
      ]

-- The service starts only with an interval and a poll at or above their floors, and each cycle bears
-- the number of cycles before it that were started by the start of the service or by the interval
-- while no device was to be confirmed: those started for moved artifacts, for a request or with a
-- device to confirm do not move the firewall's cadence. The reason of a cycle is what the wait before
-- it returned, and the devices to confirm are those that the cycle before it pushed and was not
-- itself confirming.
pub run_forever-IsNumbered :
    (every poll_seconds : ℕ) (rs : List Round) (cs : List Call)
    → run_forever every poll_seconds rs ≡ ok cs
    → (minimum_interval ≤ every)
      × (minimum_poll ≤ poll_seconds)
      × IsNumbered every poll_seconds 0 started.reason [] rs cs
unfolding run_forever
run_forever-IsNumbered every poll_seconds rs cs h =
    let calls : rounds every poll_seconds started rs ≡ cs = ground arith in
    (
      ground arith,
      ground arith,
      subst (IsNumbered every poll_seconds 0 started.reason [] rs) calls
          (rounds-IsNumbered every poll_seconds rs started),
    )
