-- ===== src/Inventory/Quiet.antt =====
-- A device that reports no difference, in its turn and in a run.
use infrahub_network_field_d.Base.{
  String, Bool, true, false, not, ◌&&◌, Option, none, some, List, [], ◌∷◌, ◌≡◌, refl, ◌∙◌, ap,
  subst, arith, ◌==◌, string_eq, is_empty, any_of, any_of-append, Bool-cases, Option-cases, inl,
  inr,
}
use infrahub_network_field_d.Base.Dict.{Dict, get, Keyed, get-Keyed, any_of-get}
use infrahub_network_field_d.Base.Text.{Text}
use infrahub_network_field_d.Base.Result.{Result, ok, err}
use infrahub_network_field_d.Inventory.{
  World, Host, Contact, Turn, target_turn, intent_turn, compare_turn, add_outcome, collect,
  run_over, reconcile_host, DeviceOutcome, read_intent, compare,
}
use infrahub_network_field_d.Inventory.Turns.{is_push}
use infrahub_network_field_d.Wake.{Target}

abbrev pub is_in_sync : DeviceOutcome → Bool
is_in_sync o = not o.failed && not o.differs

abbrev pub has_lines : Result (List Text) → Bool
has_lines (ok lines) = not (is_empty lines)
has_lines (err e) = true

abbrev troubled_intent : World → Target → Result Text → Bool
troubled_intent w t (ok config) = has_lines (compare w t config)
troubled_intent w t (err e) = true

-- The target's artifact cannot be read, or its comparison fails or reports a line.
abbrev pub is_troubled : World → Target → Bool
is_troubled w t = troubled_intent w t (read_intent w t)

-- There is an outcome, of the device and in sync, and no push.
abbrev quiet_turn : String → Turn → Bool
quiet_turn k (none, cs) = false
quiet_turn k (some o, cs) = (is_in_sync o && o.device == k) && not (any_of is_push cs)

compare_turn-quiet :
    (w : World) (dry_run : Bool) (t : Target) (config : Text) (r : Result (List Text))
    → has_lines r ≡ false
    → quiet_turn t.device (compare_turn w dry_run t config r) ≡ true
unfolding compare_turn
compare_turn-quiet w dry_run t config (err e) h = cc
compare_turn-quiet w dry_run t config (ok lines) h =
    ground (arith, string_eq.beq_iff t.device t.device)

intent_turn-quiet :
    (w : World) (dry_run : Bool) (t : Target) (r : Result Text)
    → troubled_intent w t r ≡ false
    → quiet_turn t.device (intent_turn w dry_run t r) ≡ true
unfolding intent_turn
intent_turn-quiet w dry_run t (err e) h = cc
intent_turn-quiet w dry_run t (ok config) h =
    compare_turn-quiet w dry_run t config (compare w t config) h

add_outcome-quiet :
    (host k : String) (turn : Turn) (rest : List DeviceOutcome × List Contact)
    → quiet_turn k turn ≡ true
    → (any_of (λ o. not (is_in_sync o)) (add_outcome (collect none host turn) rest).0
        ≡ any_of (λ o. not (is_in_sync o)) rest.0)
      × (any_of is_push (add_outcome (collect none host turn) rest).1 ≡ any_of is_push rest.1)
      × (any_of (λ o. o.device == k) (add_outcome (collect none host turn) rest).0 ≡ true)
add_outcome-quiet host k (none, cs) rest h = cc
add_outcome-quiet host k (some o, cs) rest h = ground (arith, any_of-append is_push cs rest.1)

add_outcome-keeps :
    (p : DeviceOutcome → Bool) (error : Option String) (host : String) (turn : Turn)
    (rest : List DeviceOutcome × List Contact)
    → any_of p rest.0 ≡ true
    → any_of p (add_outcome (collect error host turn) rest).0 ≡ true
add_outcome-keeps p none host (none, cs) rest h = h
add_outcome-keeps p none host (some o, cs) rest h = ground arith
add_outcome-keeps p (some e) host (o, cs) rest h = ground arith

module _ (w : World) (dry_run : Bool) (targets : Dict String Target)
    (quiet : any_of (λ e. is_troubled w e.1) targets ≡ false)
    (no_error : (host : String) → w.task_error host ≡ none) where
  target_turn-quiet :
      (host : String) (t : Target)
      → get targets host ≡ some t
      → quiet_turn t.device (target_turn w dry_run (some t)) ≡ true
  unfolding target_turn
  target_turn-quiet host t e =
      intent_turn-quiet w dry_run t (read_intent w t)
        (any_of-get (is_troubled w) targets host t quiet e)

  -- A run whose targets are quiet has only outcomes in sync, and pushes nothing.
  pub run_over-quiet :
      (hs : List Host)
      → (any_of (λ o. not (is_in_sync o)) (run_over w hs targets dry_run).0 ≡ false)
        × (any_of is_push (run_over w hs targets dry_run).1 ≡ false)
  unfolding run_over reconcile_host
  run_over-quiet [] = (refl, refl)
  run_over-quiet (h ∷ hs) = elim (Option-cases (get targets h.name)) [
    | inl e ↦ rw (e, no_error h.name, target_turn) (run_over-quiet hs)
    | inr (t, e) ↦
        let (a, b, c) =
          add_outcome-quiet h.name t.device (target_turn w dry_run (some t))
            (run_over w hs targets dry_run) (target_turn-quiet h.name t e) in
        rw (e, no_error h.name) (a ∙ (run_over-quiet hs).0, b ∙ (run_over-quiet hs).1)
  ]

  -- A host that has a target has its outcome in the run.
  pub run_over-present :
      (k : String) (t : Target)
      → Keyed (λ (t : Target). t.device) targets
      → get targets k ≡ some t
      → (hs : List Host) → any_of (λ h. h.name == k) hs ≡ true
      → any_of (λ o. o.device == k) (run_over w hs targets dry_run).0 ≡ true
  unfolding run_over reconcile_host
  run_over-present k t keyed found [] h = cc
  run_over-present k t keyed found (x ∷ hs) h = elim (Bool-cases (x.name == k)) [
    | inl here ↦
        let named : x.name ≡ k = (string_eq.beq_iff x.name k).0 here in
        let device : t.device ≡ k = get-Keyed (λ (t : Target). t.device) targets k t keyed found in
        let (a, b, c) =
          add_outcome-quiet x.name t.device (target_turn w dry_run (some t))
            (run_over w hs targets dry_run) (target_turn-quiet k t found) in
        let listed =
          subst
            (λ d.
              any_of (λ o. o.device == d)
                (add_outcome (collect none x.name (target_turn w dry_run (some t)))
                  (run_over w hs targets dry_run)).0
              ≡ true)
            device c in
        rw (ap (get targets) named ∙ found, no_error x.name) listed
    | inr there ↦
        add_outcome-keeps (λ o. o.device == k) (w.task_error x.name) x.name
          (target_turn w dry_run (get targets x.name)) (run_over w hs targets dry_run)
          (run_over-present k t keyed found hs (ground arith))
  ]
