-- ===== src/Inventory/Turns.antt =====
-- What one device's turn says about the device, and which devices a run reaches.
use infrahub_network_field_d.Base.{
  String, Bool, true, false, not, ◌&&◌, Option, none, some, List, [], ◌∷◌, ◌++◌, ◌≡◌, inl, inr,
  refl, sym, ◌∙◌, ap, arith, if◌then◌else◌, ◌==◌, string_eq, is_empty, any_of, any_of-append,
  ne→beq, Bool-cases, Option-cases,
}
use infrahub_network_field_d.Base.Dict.{Dict, get, Keyed, get-Keyed}
use infrahub_network_field_d.Base.Text.{Text, strip}
use infrahub_network_field_d.Base.Result.{Result, ok, err, ◌>>=◌}
use mathlib.Core.Bool.{false≢true}
use infrahub_network_field_d.Inventory.{
  Host, World, Contact, sweeps, compares, pushes, DeviceOutcome, Turn, read_intent, compare,
  reconcile_host, run_over, add_outcome, collect, compare_turn, intent_turn, target_turn,
}
use infrahub_network_field_d.Wake.{Target}

-- A comparison or a push that reaches device `k`.
abbrev pub reaches : String → Contact → Bool
reaches k (sweeps d) = false
reaches k (compares d) = d == k
reaches k (pushes d) = d == k

abbrev pub is_push : Contact → Bool
is_push (pushes d) = true
is_push _ = false

-- The outcome of a turn, if there is one, satisfies a test.
abbrev pub outcome_holds : (DeviceOutcome → Bool) → Option DeviceOutcome → Bool
outcome_holds p none = true
outcome_holds p (some o) = p o

-- A failed outcome has no push; any other has one exactly if the device differed and the run was
-- no dry run.
abbrev pub push_is_due : Bool → DeviceOutcome → Bool
push_is_due dry_run o =
    if o.failed then not o.pushed else (if o.differs && not dry_run then o.pushed else not o.pushed)

pushes_of_compare :
    (w : World) (dry_run : Bool) (t : Target) (config : Text) (r : Result (List Text))
    → any_of is_push (compare_turn w dry_run t config r).1 ≡ true
    → (lines : List Text) × (r ≡ ok lines) × (is_empty lines ≡ false) × (dry_run ≡ false)
unfolding compare_turn
pushes_of_compare w dry_run t config (err e) h = cc
pushes_of_compare w dry_run t config (ok lines) h = (lines, refl, ground arith, ground arith)

pushes_of_intent :
    (w : World) (dry_run : Bool) (t : Target) (r : Result Text)
    → any_of is_push (intent_turn w dry_run t r).1 ≡ true
    → (config : Text) × (lines : List Text) × (r ≡ ok config)
      × (compare w t config ≡ ok lines)
      × (is_empty lines ≡ false)
      × (dry_run ≡ false)
unfolding intent_turn
pushes_of_intent w dry_run t (err e) h = cc
pushes_of_intent w dry_run t (ok config) h =
    let (lines, c, n, d) = pushes_of_compare w dry_run t config (compare w t config) h in
    (config, lines, refl, c, n, d)

filled_of :
    (r : Result Text) (config : Text)
    → (r >>= λ config.
        if is_empty (strip config) then err "the rendered artifact is empty" else ok config)
      ≡ ok config
    → (r ≡ ok config) × (is_empty (strip config) ≡ false)
filled_of (err e) config h = cc
filled_of (ok c) config h = elim (Bool-cases (is_empty (strip c))) [
  | inl t ↦ cc (rw t at h)
  | inr f ↦
      let same : c ≡ config = cc (rw f at h) in
      (ap ok same, sym (ap (λ x. is_empty (strip x)) same) ∙ f)
]

read_intent-ok :
    (w : World) (t : Target) (config : Text)
    → read_intent w t ≡ ok config
    → (w.download t ≡ ok config) × (is_empty (strip config) ≡ false)
unfolding read_intent
read_intent-ok w t config h = filled_of (w.download t) config h

module _ (w : World) (targets : Dict String Target) (dry_run : Bool) (host : String) where
  -- A turn that does not fail pushes exactly when the device differs and the run is no dry run; a
  -- failed turn reports no push.
  pub reconcile_host-push_is_due :
      outcome_holds (push_is_due dry_run) (reconcile_host w targets dry_run host).0 ≡ true
  unfolding reconcile_host
  reconcile_host-push_is_due = ground arith

  -- A device is pushed to only in a run that is no dry run, for an artifact with more than white
  -- space in it, and after the device's own comparison normalised to at least one line.
  pub reconcile_host-pushes :
      any_of is_push (reconcile_host w targets dry_run host).1 ≡ true
      → (t : Target) × (config : Text) × (lines : List Text) × (get targets host ≡ some t)
        × (w.download t ≡ ok config)
        × (is_empty (strip config) ≡ false)
        × (compare w t config ≡ ok lines)
        × (is_empty lines ≡ false)
        × (dry_run ≡ false)
  unfolding reconcile_host
  reconcile_host-pushes h = elim (Option-cases (get targets host)) [
    | inl e ↦ absurd (false≢true (sym (ap (λ o. any_of is_push (target_turn w dry_run o).1) e) ∙ h))
    | inr (t, e) ↦
        let h' = sym (ap (λ o. any_of is_push (target_turn w dry_run o).1) e) ∙ h in
        let (config, lines, q, c, n, d) = pushes_of_intent w dry_run t (read_intent w t) h' in
        let (downloaded, filled) = read_intent-ok w t config q in
        (t, config, lines, e, downloaded, filled, c, n, d)
  ]

module _ (w : World) (dry_run : Bool) (k : String) where
  abbrev is_of : DeviceOutcome → Bool
  is_of o = o.device == k

  target_turn_elsewhere :
      (t : Target)
      → (t.device == k) ≡ false
      → (outcome_holds (λ o. not (is_of o)) (target_turn w dry_run (some t)).0 ≡ true)
        × (any_of (reaches k) (target_turn w dry_run (some t)).1 ≡ false)
  unfolding target_turn
  target_turn_elsewhere t h = ground arith

  add_outcome_elsewhere :
      (error : Option String) (host : String) (turn : Turn)
      (rest : List DeviceOutcome × List Contact)
      → (error ≡ none → outcome_holds (λ o. not (is_of o)) turn.0 ≡ true)
      → ((e : String) → error ≡ some e → (host == k) ≡ false)
      → any_of (reaches k) turn.1 ≡ false
      → (any_of is_of rest.0 ≡ false) × (any_of (reaches k) rest.1 ≡ false)
      → (any_of is_of (add_outcome (collect error host turn) rest).0 ≡ false)
        × (any_of (reaches k) (add_outcome (collect error host turn) rest).1 ≡ false)
  add_outcome_elsewhere none host (none, cs) rest a b c d =
      (d.0, any_of-append (reaches k) cs rest.1 ∙ rw (c, d.1))
  add_outcome_elsewhere none host (some o, cs) rest a b c d =
      (ground (arith, a refl), any_of-append (reaches k) cs rest.1 ∙ rw (c, d.1))
  add_outcome_elsewhere (some e) host (o, cs) rest a b c d =
      (ground (arith, b e refl), any_of-append (reaches k) cs rest.1 ∙ rw (c, d.1))

  module _ (targets : Dict String Target) (keyed : Keyed (λ (t : Target). t.device) targets)
      (absent : get targets k ≡ none) (no_error : w.task_error k ≡ none) where
    turn_elsewhere :
        (host : String) (o : Option Target)
        → get targets host ≡ o
        → (outcome_holds (λ o. not (is_of o)) (target_turn w dry_run o).0 ≡ true)
          × (any_of (reaches k) (target_turn w dry_run o).1 ≡ false)
    turn_elsewhere host none e = unfold target_turn in (refl, refl)
    turn_elsewhere host (some t) e = target_turn_elsewhere t (
        ne→beq t.device k
          λ same. cc (e, absent, same, get-Keyed (λ (t : Target). t.device) targets host t keyed e))

    -- A run leaves out a device that is not among the targets it was given: it reaches the device
    -- with nothing, and has no outcome of it.
    pub run_over-elsewhere :
        (hosts : List Host)
        → (any_of is_of (run_over w hosts targets dry_run).0 ≡ false)
          × (any_of (reaches k) (run_over w hosts targets dry_run).1 ≡ false)
    unfolding run_over reconcile_host
    run_over-elsewhere [] = (refl, refl)
    run_over-elsewhere (h ∷ hs) =
        let (a, b) = turn_elsewhere h.name (get targets h.name) refl in
        add_outcome_elsewhere (w.task_error h.name) h.name
          (target_turn w dry_run (get targets h.name)) (run_over w hs targets dry_run) (λ _. a)
          (λ e q. ne→beq h.name k λ same. cc (q, no_error, same)) b (run_over-elsewhere hs)

collect-contacts :
    (error : Option String) (host : String) (t : Turn) (rest : List DeviceOutcome × List Contact)
    → (add_outcome (collect error host t) rest).1 ≡ t.1 ++ rest.1
collect-contacts none host (none, cs) rest = refl
collect-contacts none host (some o, cs) rest = refl
collect-contacts (some e) host t rest = refl

module _ (q : Contact → Bool) (w : World) (dry_run : Bool)
    (turns : (o : Option Target) → any_of q (target_turn w dry_run o).1 ≡ false) where
  -- A run makes no contact of a kind that no turn makes.
  pub run_over-without :
      (targets : Dict String Target) (hs : List Host)
      → any_of q (run_over w hs targets dry_run).1 ≡ false
  unfolding run_over reconcile_host
  run_over-without targets [] = refl
  run_over-without targets (h ∷ hs) =
      let turn = target_turn w dry_run (get targets h.name) in
      ap (any_of q)
        (collect-contacts (w.task_error h.name) h.name turn (run_over w hs targets dry_run))
      ∙ (any_of-append q turn.1 _ ∙ rw (turns (get targets h.name), run_over-without targets hs))
