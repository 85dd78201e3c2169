-- ===== src/Cycle/Outcomes.antt =====
-- What a cycle reports and records of the outcomes of its devices.
use infrahub_network_field_d.Base.{
  String, Bool, true, false, not, ◌&&◌, Option, none, List, [], ◌∷◌, ◌++◌, map, ◌≡◌, inl, inr, refl,
  sym, ◌∙◌, ap, arith, if◌then◌else◌, ◌==◌, string_eq, keep_if, any_of, any_of-append, or_false,
  Bool-cases, append_singleton, append-nil,
}
use infrahub_network_field_d.Base.Dict.{Dict}
use infrahub_network_field_d.State.{Graph, record_outcome}
use infrahub_network_field_d.State.Records.{field_of, record_outcome-times}
use infrahub_network_field_d.Inventory.{
  World, Contact, sweeps, compares, pushes, target_turn, run_over, split_firewalls, DeviceOutcome,
}
use infrahub_network_field_d.Inventory.Turns.{run_over-without}
use infrahub_network_field_d.Inventory.Quiet.{is_in_sync}
use infrahub_network_field_d.Cycle.Plan.{Options}
use infrahub_network_field_d.Cycle.Report.{
  CycleReport, to_record, report_outcome, take_outcomes, sort_outcomes,
}
use infrahub_network_field_d.Cycle.{run_devices, runnable_targets, run_cycle}
use infrahub_network_field_d.Wake.{Target}

-- The outcomes that each list of the report is about.
abbrev pub is_compared : DeviceOutcome → Bool
is_compared o = not o.failed

abbrev pub is_differing : DeviceOutcome → Bool
is_differing o = not o.failed && o.differs

abbrev pub is_pushed : Bool → DeviceOutcome → Bool
is_pushed dry_run o = not o.failed && (o.differs && (not dry_run && o.pushed))

abbrev pub devices : (DeviceOutcome → Bool) → List DeviceOutcome → List String
devices p os = map (λ o. o.device) (keep_if p os)

-- An accumulator list that grows by the device of an outcome under a test.
grows :
    (p : DeviceOutcome → Bool) (o : DeviceOutcome) (os : List DeviceOutcome)
    (xs ys zs : List String)
    → ys ≡ (if p o then xs ++ o.device ∷ [] else xs)
    → zs ≡ ys ++ devices p os
    → zs ≡ xs ++ devices p (o ∷ os)
grows p o os xs ys zs e f = elim (Bool-cases (p o)) [
  | inl t ↦
      let e' : ys ≡ xs ++ o.device ∷ [] = e ∙ rw t in
      f ∙ (ap (λ l. l ++ devices p os) e' ∙ rw t (append_singleton xs (devices p os) o.device))
  | inr n ↦ let e' : ys ≡ xs = e ∙ rw n in f ∙ (ap (λ l. l ++ devices p os) e' ∙ rw n)
]

report_lists :
    (dry_run : Bool) (o : DeviceOutcome) (r : CycleReport)
    → let r' = report_outcome dry_run o r in
      (r'.failed ≡ (if o.failed then r.failed ++ o.device ∷ [] else r.failed))
      × (r'.compared ≡ (if is_compared o then r.compared ++ o.device ∷ [] else r.compared))
      × (r'.differed ≡ (if is_differing o then r.differed ++ o.device ∷ [] else r.differed))
      × (r'.pushed ≡ (if is_pushed dry_run o then r.pushed ++ o.device ∷ [] else r.pushed))
      × (r'.suspended ≡ r.suspended)
      × (r'.not_due ≡ r.not_due)
      × (r'.checksums ≡ r.checksums)
unfolding report_outcome
report_lists dry_run o r = ground arith

-- A contact that changes something on a device.
abbrev pub changes : Contact → Bool
changes (compares d) = false
changes (sweeps d) = true
changes (pushes d) = true

target_turn-dry_run :
    (w : World) (o : Option Target) → any_of changes (target_turn w true o).1 ≡ false
unfolding target_turn
target_turn-dry_run w o = ground arith

run_devices-dry_run :
    (w : World) (targets : Dict String Target)
    → any_of changes (run_devices w true targets).1 ≡ false
unfolding run_devices
run_devices-dry_run w targets =
    let (fabric, firewalls) = split_firewalls w.hosts in
    let without = run_over-without changes w true (target_turn-dry_run w) targets in
    any_of-append changes (run_over w fabric targets true).1 _
    ∙ rw (without fabric, without firewalls)

devices-none : (os : List DeviceOutcome) → devices (is_pushed true) os ≡ []
devices-none [] = refl
devices-none (o ∷ os) = ground (arith, devices-none os)

module _ (graph : Graph) where
  open graph use {Store, find}

  -- The loop over the outcomes appends to each list of the report exactly the devices that the
  -- list is about, in the order of the outcomes, and leaves the other lists alone.
  pub take_outcomes-report :
      (w : World) (dry_run : Bool) (os : List DeviceOutcome) (r : CycleReport) (s : Store)
      → let r' = (take_outcomes graph w dry_run os r s).0 in
        (r'.failed ≡ r.failed ++ devices (λ o. o.failed) os)
        × (r'.compared ≡ r.compared ++ devices is_compared os)
        × (r'.differed ≡ r.differed ++ devices is_differing os)
        × (r'.pushed ≡ r.pushed ++ devices (is_pushed dry_run) os)
        × (r'.suspended ≡ r.suspended)
        × (r'.not_due ≡ r.not_due)
        × (r'.checksums ≡ r.checksums)
  unfolding take_outcomes
  take_outcomes-report w dry_run [] r s = (
    sym (append-nil r.failed),
    sym (append-nil r.compared),
    sym (append-nil r.differed),
    sym (append-nil r.pushed),
    refl,
    refl,
    refl,
  )
  take_outcomes-report w dry_run (o ∷ os) r s =
      let r1 = report_outcome dry_run o r in
      let (failed, compared, differed, pushed, suspended, not_due, checksums) =
        take_outcomes-report w dry_run os r1 (
          if dry_run
          then s
          else record_outcome graph (w.stamps o.device) (to_record graph o s) s) in
      (
        grows (λ o. o.failed) o os r.failed r1.failed _ (report_lists dry_run o r).0 failed,
        grows is_compared o os r.compared r1.compared _ (report_lists dry_run o r).1 compared,
        grows is_differing o os r.differed r1.differed _ (report_lists dry_run o r).2 differed,
        grows (is_pushed dry_run) o os r.pushed r1.pushed _ (report_lists dry_run o r).3 pushed,
        suspended ∙ (report_lists dry_run o r).4,
        not_due ∙ (report_lists dry_run o r).5,
        checksums ∙ (report_lists dry_run o r).6,
      )

  pub to_record-confirmed :
      (o : DeviceOutcome) (s : Store) (k : String)
      → ((to_record graph o s).device == k && (to_record graph o s).confirmed)
        ≡ (o.device == k && is_in_sync o)
  unfolding to_record
  to_record-confirmed o s k = ground arith

  -- The time of a device's last confirmation does not move in a cycle that has no outcome of it
  -- in which the device itself reported no difference: not for a push, nor for a failure.
  pub take_outcomes-confirmed :
      (w : World) (dry_run : Bool) (k : String) (os : List DeviceOutcome) (r : CycleReport)
      (s : Store)
      → any_of (λ o. o.device == k && is_in_sync o) os ≡ false
      → field_of none (λ r. r.last_confirmed_at) (find (take_outcomes graph w dry_run os r s).1 k)
        ≡ field_of none (λ r. r.last_confirmed_at) (find s k)
  unfolding take_outcomes
  take_outcomes-confirmed w dry_run k [] r s h = refl
  take_outcomes-confirmed w true k (o ∷ os) r s h =
      take_outcomes-confirmed w true k os _ s (or_false (o.device == k && is_in_sync o) _ h).1
  take_outcomes-confirmed w false k (o ∷ os) r s h =
      let (here, there) = or_false (o.device == k && is_in_sync o) _ h in
      take_outcomes-confirmed w false k os _ _ there
      ∙ ((record_outcome-times graph (w.stamps o.device) (to_record graph o s) s k).1
          ∙ rw (to_record-confirmed o s k, here))

  take_outcomes-dry_run :
      (w : World) (os : List DeviceOutcome) (r : CycleReport) (s : Store)
      → (take_outcomes graph w true os r s).1 ≡ s
  unfolding take_outcomes
  take_outcomes-dry_run w [] r s = refl
  take_outcomes-dry_run w (o ∷ os) r s = take_outcomes-dry_run w os (report_outcome true o r) s

  -- A dry run writes nothing to Infrahub, and neither sweeps nor pushes to any device; and its
  -- report names no device as pushed.
  pub run_cycle-dry_run :
      (w : World) (o : Options) (s : Store)
      → o.dry_run ≡ true
      → ((run_cycle graph w o s).store ≡ s)
        × (any_of changes (run_cycle graph w o s).contacts ≡ false)
        × ((run_cycle graph w o s).report.pushed ≡ [])
  unfolding run_cycle
  run_cycle-dry_run w o s dry =
      let runnable = runnable_targets graph w o s in
      let outcomes = sort_outcomes (run_devices w true runnable).0 in
      (
        simp dry (take_outcomes-dry_run w outcomes _ s),
        simp dry (run_devices-dry_run w runnable),
        simp dry ((take_outcomes-report w true outcomes _ s).3 ∙ devices-none outcomes),
      )
