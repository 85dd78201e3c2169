-- ===== src/Cycle/Suspended.antt =====
-- A suspended device in a cycle.
use infrahub_network_field_d.Base.{
  String, Bool, true, false, not, none, List, [], ◌∷◌, map, ◌≡◌, inl, inr, refl, ◌∙◌, ap, arith,
  ◌==◌, string_eq, contains, contains-keep_if, any_of, any_of-append, any_of-sort, or_false,
  Bool-cases,
}
use infrahub_network_field_d.Base.Dict.{
  Dict, get, put, get-absent, get-keep_if_missing, keys, Keyed, put-Keyed, keep_if-Keyed,
  get-keep_if-none,
}
use infrahub_network_field_d.State.{Graph, is_suspended}
use infrahub_network_field_d.State.Records.{find-record_outcome, find-sweep_orphans}
use infrahub_network_field_d.Inventory.{World, DeviceOutcome, run_over, split_firewalls}
use infrahub_network_field_d.Inventory.Turns.{reaches, run_over-elsewhere}
use infrahub_network_field_d.Cycle.Plan.{Options, order, by_name, by_name_onto, sweep}
use infrahub_network_field_d.Cycle.Report.{CycleReport, to_record, take_outcomes, sort_outcomes}
use infrahub_network_field_d.Cycle.{
  due_targets, run_devices, suspended_of, runnable_targets, run_cycle,
}
use infrahub_network_field_d.Wake.{Target}

abbrev pub device_of : Target → String
device_of t = t.device

by_name-Keyed :
    (ts : List Target) (d : Dict String Target)
    → Keyed device_of d
    → Keyed device_of (by_name_onto d ts)
unfolding by_name_onto
by_name-Keyed [] d h = h
by_name-Keyed (t ∷ ts) d h =
    by_name-Keyed ts (put d t.device t) (put-Keyed device_of d t.device t h refl)

pub any_of-sort_outcomes :
    (p : DeviceOutcome → Bool) (os : List DeviceOutcome) → any_of p (sort_outcomes os) ≡ any_of p os
unfolding sort_outcomes
any_of-sort_outcomes p os = any_of-sort p _ os

module _ (graph : Graph) where
  open graph use {Store, find}

  pub runnable-Keyed :
      (w : World) (o : Options) (s : Store) → Keyed device_of (runnable_targets graph w o s)
  unfolding runnable_targets
  runnable-Keyed w o s =
      keep_if-Keyed device_of _ _
        (keep_if-Keyed device_of _ _ (by_name-Keyed (order w.targets) [] tt))

  -- A device that the operator has suspended is not among the runnable ones.
  runnable-suspended :
      (w : World) (o : Options) (s : Store) (k : String)
      → o.dry_run ≡ false
      → is_suspended graph k s ≡ true
      → get (runnable_targets graph w o s) k ≡ none
  unfolding runnable_targets
  runnable-suspended w o s k live h =
      let due_now = due_targets o (by_name (order w.targets)) in
      let stays_out = contains (suspended_of graph o.dry_run due_now s) k in
      elim (Bool-cases (contains (keys due_now) k)) [
        | inl t ↦
            let out : stays_out ≡ true =
              rw (live, suspended_of)
                (contains-keep_if (λ name. is_suspended graph name s) (keys due_now) k
                  ∙ rw (t, h)) in
            get-keep_if-none _ due_now k (λ _. ap not out)
        | inr f ↦ get-keep_if_missing _ due_now k (get-absent due_now k f)
      ]

  to_record-device : (o : DeviceOutcome) (s : Store) → (to_record graph o s).device ≡ o.device
  unfolding to_record
  to_record-device o s = ground arith

  pub take_outcomes-elsewhere :
      (w : World) (dry_run : Bool) (k : String) (os : List DeviceOutcome) (r : CycleReport)
      (s : Store)
      → any_of (λ o. o.device == k) os ≡ false
      → find (take_outcomes graph w dry_run os r s).1 k ≡ find s k
  unfolding take_outcomes
  take_outcomes-elsewhere w dry_run k [] r s h = refl
  take_outcomes-elsewhere w true k (o ∷ os) r s h =
      take_outcomes-elsewhere w true k os _ s (or_false (o.device == k) _ h).1
  take_outcomes-elsewhere w false k (o ∷ os) r s h =
      let (here, there) = or_false (o.device == k) _ h in
      take_outcomes-elsewhere w false k os _ _ there
      ∙ (find-record_outcome graph (w.stamps o.device) (to_record graph o s) s k
          ∙ rw (to_record-device o s, here))

  -- A run over runnable devices leaves a device out that is not among them.
  run_devices-elsewhere :
      (w : World) (dry_run : Bool) (targets : Dict String Target) (k : String)
      → Keyed device_of targets
      → get targets k ≡ none
      → w.task_error k ≡ none
      → (any_of (λ o. o.device == k) (run_devices w dry_run targets).0 ≡ false)
        × (any_of (reaches k) (run_devices w dry_run targets).1 ≡ false)
  unfolding run_devices
  run_devices-elsewhere w dry_run targets k keyed absent ok =
      let over = run_over-elsewhere w dry_run k targets keyed absent ok in
      let (fabric, firewalls) = split_firewalls w.hosts in
      (
        any_of-append _ (run_over w fabric targets dry_run).0 _
            ∙ rw ((over fabric).0, (over firewalls).0),
        any_of-append _ (run_over w fabric targets dry_run).1 _
            ∙ rw ((over fabric).1, (over firewalls).1),
      )

  sweep-reaches :
      (w : World) (ts : List Target) (k : String) → any_of (reaches k) (sweep w ts).1 ≡ false
  unfolding sweep
  sweep-reaches w [] k = refl
  sweep-reaches w (t ∷ ts) k = ground (arith, sweep-reaches w ts k)

  -- A device that the operator has suspended, and that still has an artifact, keeps its record
  -- exactly as it was through a cycle that is no dry run and raises no task on it; the cycle neither
  -- compares the device nor pushes to it, whatever the other devices answer and whatever is forced
  -- or due.
  pub run_cycle-suspended :
      (w : World) (o : Options) (s : Store) (k : String)
      → o.dry_run ≡ false
      → is_suspended graph k s ≡ true
      → contains (map device_of (order w.targets)) k ≡ true
      → w.task_error k ≡ none
      → (find (run_cycle graph w o s).store k ≡ find s k)
        × (any_of (reaches k) (run_cycle graph w o s).contacts ≡ false)
  unfolding run_cycle
  run_cycle-suspended w o s k live h listed ok =
      let runnable = runnable_targets graph w o s in
      let outcomes = (run_devices w false runnable).0 in
      let (no_outcome, no_contact) =
        run_devices-elsewhere w false runnable k (runnable-Keyed w o s)
          (runnable-suspended w o s k live h) ok in
      let sorted = any_of-sort_outcomes (λ o. o.device == k) outcomes ∙ no_outcome in
      (
        simp live (
            find-sweep_orphans graph (map device_of (order w.targets)) _ k
            ∙ rw listed (take_outcomes-elsewhere w false k (sort_outcomes outcomes) _ s sorted)),
        simp live (
            any_of-append (reaches k) (sweep w (order w.targets)).1 _
            ∙ rw (sweep-reaches w (order w.targets) k, no_contact)),
      )
