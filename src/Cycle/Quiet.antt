-- ===== src/Cycle/Quiet.antt =====
-- A cycle over devices that all report no difference.
use infrahub_network_field_d.Base.{
  String, Bool, true, false, not, ◌||◌, none, some, List, [], ◌∷◌, map, ◌≡◌, inl, inr, refl, ◌∙◌,
  ap, arith, ◌==◌, string_eq, contains, keep_if, any_of, any_of-append, any_of-keep_if,
  any_of-split, or_false, Bool-cases,
}
use infrahub_network_field_d.Base.Dict.{Dict, get, put, any_of-put}
use infrahub_network_field_d.State.{Graph, record_outcome, sweep_orphans}
use infrahub_network_field_d.State.Records.{field_of, record_outcome-times, find-sweep_orphans}
use infrahub_network_field_d.Inventory.{
  World, run_over, split_firewalls, is_firewall, DeviceOutcome,
}
use infrahub_network_field_d.Inventory.Turns.{is_push}
use infrahub_network_field_d.Inventory.Quiet.{
  is_in_sync, is_troubled, run_over-quiet, run_over-present,
}
use infrahub_network_field_d.Cycle.Plan.{Options, order, by_name, by_name_onto, sweep}
use infrahub_network_field_d.Cycle.Report.{CycleReport, to_record, take_outcomes, sort_outcomes}
use infrahub_network_field_d.Cycle.Outcomes.{
  devices, is_differing, is_pushed, to_record-confirmed, take_outcomes-report,
}
use infrahub_network_field_d.Cycle.Suspended.{
  device_of, runnable-Keyed, take_outcomes-elsewhere, any_of-sort_outcomes,
}
use infrahub_network_field_d.Cycle.Sweeping.{any_of-order}
use infrahub_network_field_d.Cycle.{
  run_devices, runnable_targets, due_targets, runnable_of, run_cycle,
}
use infrahub_network_field_d.Wake.{Target}

by_name-quiet :
    (p : Target → Bool) (ts : List Target) (d : Dict String Target)
    → any_of p ts ≡ false
    → any_of (λ e. p e.1) d ≡ false
    → any_of (λ e. p e.1) (by_name_onto d ts) ≡ false
unfolding by_name_onto
by_name-quiet p [] d h q = q
by_name-quiet p (t ∷ ts) d h q =
    let (here, there) = or_false (p t) (any_of p ts) h in
    by_name-quiet p ts (put d t.device t) there (any_of-put p d t.device t q here)

sweep-push : (w : World) (ts : List Target) → any_of is_push (sweep w ts).1 ≡ false
unfolding sweep
sweep-push w [] = refl
sweep-push w (t ∷ ts) = ground (arith, sweep-push w ts)

devices-quiet :
    (dry_run : Bool) (os : List DeviceOutcome)
    → any_of (λ o. not (is_in_sync o)) os ≡ false
    → (devices (λ o. o.failed) os ≡ [])
      × (devices is_differing os ≡ [])
      × (devices (is_pushed dry_run) os ≡ [])
devices-quiet dry_run [] h = (refl, refl, refl)
devices-quiet dry_run (o ∷ os) h = ground (arith, devices-quiet dry_run os)

module _ (graph : Graph) (w : World) where
  open graph use {Store, find}

  confirmed_once :
      (k : String) (o : DeviceOutcome) (s : Store)
      → o.device ≡ k
      → not (is_in_sync o) ≡ false
      → field_of none
          (λ r. r.last_confirmed_at)
          (find (record_outcome graph (w.stamps o.device) (to_record graph o s) s) k)
        ≡ some (w.stamps k).confirmed
  confirmed_once k o s e q =
      (record_outcome-times graph (w.stamps o.device) (to_record graph o s) s k).1
      ∙ ground (
        arith,
        to_record-confirmed graph o s k,
        string_eq.beq_iff o.device k,
        ap (λ d. some (w.stamps d).confirmed) e,
      )

  take_outcomes-confirms :
      (k : String) (os : List DeviceOutcome) (r : CycleReport) (s : Store)
      → any_of (λ o. not (is_in_sync o)) os ≡ false
      → any_of (λ o. o.device == k) os ≡ true
      → field_of none (λ r. r.last_confirmed_at) (find (take_outcomes graph w false os r s).1 k)
        ≡ some (w.stamps k).confirmed
  unfolding take_outcomes
  take_outcomes-confirms k [] r s q h = cc
  take_outcomes-confirms k (o ∷ os) r s q h =
      let (here, there) = or_false (not (is_in_sync o)) _ q in
      elim (Bool-cases (any_of (λ o. o.device == k) os)) [
        | inl again ↦ take_outcomes-confirms k os _ _ there again
        | inr last ↦
            ap (field_of none (λ r. r.last_confirmed_at))
              (take_outcomes-elsewhere graph w false k os _ _ last)
            ∙ confirmed_once k o s ((string_eq.beq_iff o.device k).0 (ground arith)) here
      ]

module _ (graph : Graph) (w : World) (o : Options) (s : graph.Store) where
  open graph use {Store, find}

  sweep_orphans-listed :
      (live : List String) (s' : Store) (k : String)
      → contains live k ≡ true
      → find (sweep_orphans graph live s').0 k ≡ find s' k
  sweep_orphans-listed live s' k listed = find-sweep_orphans graph live s' k ∙ rw listed

  runnable-quiet :
      (p : Target → Bool)
      → any_of p w.targets ≡ false
      → any_of (λ e. p e.1) (runnable_targets graph w o s) ≡ false
  unfolding runnable_targets due_targets runnable_of by_name
  runnable-quiet p h =
      any_of-keep_if (λ e. p e.1) _ _
        (any_of-keep_if (λ e. p e.1) _ _
          (by_name-quiet p (order w.targets) [] (any_of-order p w.targets ∙ h) refl))

  module _ (quiet : any_of (is_troubled w) w.targets ≡ false)
      (no_error : (host : String) → w.task_error host ≡ none) where
    run_devices-quiet :
        (dry_run : Bool)
        → (any_of (λ o. not (is_in_sync o)) (run_devices w dry_run (runnable_targets graph w o s)).0
            ≡ false)
          × (any_of is_push (run_devices w dry_run (runnable_targets graph w o s)).1 ≡ false)
    unfolding run_devices
    run_devices-quiet dry_run =
        let runnable = runnable_targets graph w o s in
        let over =
          run_over-quiet w dry_run runnable (runnable-quiet (is_troubled w) quiet) no_error in
        let (fabric, firewalls) = split_firewalls w.hosts in
        (
          any_of-append _ (run_over w fabric runnable dry_run).0 _
              ∙ rw ((over fabric).0, (over firewalls).0),
          any_of-append _ (run_over w fabric runnable dry_run).1 _
              ∙ rw ((over fabric).1, (over firewalls).1),
        )

    -- A cycle that is no dry run, in which every artifact can be read, every comparison reports no
    -- line and no task raises, pushes to no device, and its report names no device as differing,
    -- failed or pushed.
    pub run_cycle-quiet :
        o.dry_run ≡ false
        → ((run_cycle graph w o s).report.differed ≡ [])
          × ((run_cycle graph w o s).report.failed ≡ [])
          × ((run_cycle graph w o s).report.pushed ≡ [])
          × (any_of is_push (run_cycle graph w o s).contacts ≡ false)
    unfolding run_cycle
    run_cycle-quiet live =
        let runnable = runnable_targets graph w o s in
        let outcomes = sort_outcomes (run_devices w false runnable).0 in
        let sorted =
          any_of-sort_outcomes (λ o. not (is_in_sync o)) (run_devices w false runnable).0
          ∙ (run_devices-quiet false).0 in
        let (failed, differed, pushed) = devices-quiet false outcomes sorted in
        let reported = take_outcomes-report graph w false outcomes _ s in
        (
          simp live (reported.2 ∙ differed),
          simp live (reported.0 ∙ failed),
          simp live (reported.3 ∙ pushed),
          simp live (
              any_of-append is_push (sweep w (order w.targets)).1 _
              ∙ rw (sweep-push w (order w.targets), (run_devices-quiet false).1)),
        )

    run_devices-present :
        (dry_run : Bool) (k : String) (t : Target)
        → get (runnable_targets graph w o s) k ≡ some t
        → any_of (λ h. h.name == k) w.hosts ≡ true
        → any_of (λ o. o.device == k) (run_devices w dry_run (runnable_targets graph w o s)).0
          ≡ true
    unfolding run_devices split_firewalls
    run_devices-present dry_run k t found host =
        let runnable = runnable_targets graph w o s in
        let present =
          run_over-present w dry_run runnable (runnable-quiet (is_troubled w) quiet) no_error k t
            (runnable-Keyed graph w o s) found in
        let fabric = keep_if (λ h. not (is_firewall h)) w.hosts in
        let firewalls = keep_if is_firewall w.hosts in
        any_of-append (λ o. o.device == k) (run_over w fabric runnable dry_run).0 _
        ∙ either _ _ _ _ (present fabric) (present firewalls)
            (any_of-split (λ h. h.name == k) is_firewall w.hosts ∙ host)
      where
        either :
            (a b c d : Bool)
            → (a ≡ true → c ≡ true)
            → (b ≡ true → d ≡ true)
            → (a || b) ≡ true
            → (c || d) ≡ true
        either true b c d f g h = rw (f refl)
        either false b true d f g h = refl
        either false b false d f g h = g h

    -- In a cycle that is no dry run, in which every artifact can be read, every comparison reports
    -- no line and no task raises, a runnable device that is a host of the inventory and is listed
    -- with an artifact is confirmed: its record's last confirmation is the time of this one.
    pub run_cycle-confirms :
        (k : String) (t : Target)
        → o.dry_run ≡ false
        → get (runnable_targets graph w o s) k ≡ some t
        → any_of (λ h. h.name == k) w.hosts ≡ true
        → contains (map device_of (order w.targets)) k ≡ true
        → field_of none (λ r. r.last_confirmed_at) (find (run_cycle graph w o s).store k)
          ≡ some (w.stamps k).confirmed
    unfolding run_cycle
    run_cycle-confirms k t live found host listed =
        let outcomes = (run_devices w false (runnable_targets graph w o s)).0 in
        let sorted = sort_outcomes outcomes in
        let all_in_sync =
          any_of-sort_outcomes (λ o. not (is_in_sync o)) outcomes ∙ (run_devices-quiet false).0 in
        let present =
          any_of-sort_outcomes (λ o. o.device == k) outcomes
          ∙ run_devices-present false k t found host in
        simp live (
          ap (field_of none (λ r. r.last_confirmed_at))
            (sweep_orphans-listed (map device_of (order w.targets)) _ k listed)
          ∙ take_outcomes-confirms graph w k sorted _ s all_in_sync present)
