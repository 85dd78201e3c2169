-- ===== src/Firewall/Pass.antt =====
-- A pass of lab/k8s/access/fw-controller/controller.py over the FirewallAccess objects, and its loop.
-- The log is not modelled.
use infrahub_network_field_d.Base.{
  ℕ, zero, suc, Bool, true, false, not, ◌&&◌, Option, none, some, List, [], ◌∷◌, ◌++◌, map,
  if◌then◌else◌, ◌==◌, is_empty, drop, take, contains, keep_if, list_eq, nat_eq, option_eq,
}
use infrahub_network_field_d.Base.Dict.{Dict}
use infrahub_network_field_d.Base.Text.{Text, codes}
use infrahub_network_field_d.Firewall.Schema.{
  Condition, Status, Spec, Item, Written, list_access, close_session, sleep, patch_finalizers,
  patch_status, History, Outcome, returned, http_error, raised, Env, Run, ◌>>=◌, pure, ask,
}
use infrahub_network_field_d.Firewall.Commands.{finalizer, obj_name, decimal, join, or_else}
use infrahub_network_field_d.Firewall.Driver.{apply, remove, connect, list_managed}

-- What set_ready is given of an object.
pub record Report : Type 0 where
  pub name : Text
  pub good : Bool
  pub reason : Text
  pub message : Text
  pub generation : ℕ
  pub policy_ref : Option Text
  pub ports : List ℕ
  pub current : Option Status

abbrev pub no_condition : Condition
no_condition = record { kind = none; status = none; reason = none; message = none }

abbrev pub first_condition : Option Status → Condition
first_condition none = no_condition
first_condition (some s) = elim s.conditions [ [] ↦ no_condition | c ∷ cs ↦ c ]

abbrev pub current_ref : Option Status → Option Text
current_ref none = none
current_ref (some s) = s.policy_ref

abbrev pub current_generation : Option Status → Option ℕ
current_generation none = none
current_generation (some s) = s.observed_generation

abbrev pub truth : Bool → Text
truth b = if b then codes "True" else codes "False"

-- The status says already what the report would write.
unfoldable pub is_current : Report → Bool
is_current r =
    let existing = first_condition r.current in
    (existing.kind == some (codes "Ready"))
    && (existing.status == some (truth r.good))
    && (existing.reason == some r.reason)
    && (existing.message == some (take 1024 r.message))
    && (current_ref r.current == r.policy_ref)
    && (current_generation r.current == some r.generation)

abbrev pub comma_ports : List ℕ → Text
comma_ports ports = join (codes ",") (map decimal ports)

abbrev pub nonempty : Option Text → Option Text
nonempty none = none
nonempty (some t) = if is_empty t then none else some t

unfoldable pub status_of : Text → Report → Written
unfolding decimal join
status_of now r = record {
  status = truth r.good;
  reason = r.reason;
  message = take 1024 r.message;
  last_transition_time = now;
  observed_generation = r.generation;
  port_summary = comma_ports r.ports;
  policy_ref = nonempty r.policy_ref;
}

-- try: … except HTTPError: log
abbrev pub tolerate : History × Outcome (Unit {0}) → History × Outcome (Unit {0})
tolerate (h, returned a) = (h, returned a)
tolerate (h, http_error t) = (h, returned tt)
tolerate (h, raised t) = (h, raised t)

abbrev pub finalizers_of : Option (List Text) → List Text
finalizers_of none = []
finalizers_of (some fs) = fs

abbrev pub has_finalizer : Item → Bool
has_finalizer item = contains (finalizers_of item.finalizers) finalizer

abbrev pub spec_ports : Option Spec → List ℕ
spec_ports none = []
spec_ports (some s) = elim s.ports [ none ↦ [] | some ports ↦ ports ]

abbrev pub spec_source : Option Spec → Option Text
spec_source none = none
spec_source (some s) = s.source_address

abbrev pub spec_destination : Option Spec → Option Text
spec_destination none = none
spec_destination (some s) = s.destination

abbrev pub or_zero : Option ℕ → ℕ
or_zero none = 0
or_zero (some n) = n

unfoldable pub applied_message : Text → Option Spec → Text
unfolding decimal join
applied_message ref s =
    ref
    ++ (codes " permits "
        ++ (or_else (spec_source s) (codes "None")
            ++ (codes " -> "
                ++ (or_else (spec_destination s) (codes "None")
                    ++ (codes " on " ++ comma_ports (spec_ports s))))))

-- What is reported of an object that was applied.
unfoldable pub report_of : Item → Text → List Text → Report
unfolding applied_message join
report_of item ref failures = record {
  name = item.name;
  good = is_empty failures;
  reason = if is_empty failures then codes "Applied" else codes "JunosRejected";
  message = if is_empty failures then applied_message ref item.spec else join (codes "; ") failures;
  generation = or_zero item.generation;
  policy_ref = some ref;
  ports = spec_ports item.spec;
  current = item.status;
}

module _ (e : Env) where
  unfoldable pub set_ready : Report → Run (Unit {0})
  unfolding is_current status_of
  set_ready r h =
      if is_current r
      then (h, returned tt)
      else tolerate (ask (patch_status r.name (status_of (e.now h) r)) e.patched h)

  abbrev pub unregister : Item → Run (Unit {0})
  unregister item =
      ask
        (patch_finalizers item.name
          (keep_if (λ f. not (f == finalizer)) (finalizers_of item.finalizers)))
        e.patched

  -- An object that is being deleted.
  unfoldable pub revoke : Item → Run (Unit {0})
  unfolding remove
  revoke item = remove e item.name (current_ref item.status) >>= λ a. unregister item

  abbrev pub register : Item → Run (Unit {0})
  register item =
      if has_finalizer item
      then pure tt
      else ask (patch_finalizers item.name (finalizers_of item.finalizers ++ (finalizer ∷ [])))
          e.patched

  abbrev pub report : Item → Text × List Text → Run (Unit {0})
  report item (ref, failures) = set_ready (report_of item ref failures)

  unfoldable pub grant : Item → Run (Unit {0})
  unfolding apply set_ready report_of
  grant item = register item >>= λ a. apply e item.name item.spec >>= λ applied. report item applied

  -- The objects in turn; the names of those that are granted.
  unfoldable pub take_items : List Text → List Item → Run (List Text)
  unfolding revoke grant
  take_items wanted [] = pure wanted
  take_items wanted (item ∷ items) = elim item.deletion_timestamp [
    | true ↦ revoke item >>= λ a. take_items wanted items
    | false ↦ grant item >>= λ a. take_items (obj_name item.name ∷ wanted) items
  ]

  -- The policies that no object stands behind.
  unfoldable pub prune : List Text → Dict Text Text → Run (Unit {0})
  unfolding remove
  prune wanted [] = pure tt
  prune wanted ((tag, ref) ∷ managed) = elim (contains wanted tag) [
    | true ↦ prune wanted managed
    | false ↦ remove e (drop 3 tag) (some ref) >>= λ a. prune wanted managed
  ]

  -- try: … finally: session.close()
  abbrev pub closing : {A : Type 0} → History × Outcome A → History × Outcome A
  closing (h, o) = (close_session ∷ h, o)

  unfoldable pub sweep : List Item → Run (Unit {0})
  unfolding list_managed take_items prune
  sweep items = list_managed e >>= λ managed. take_items [] items >>= λ wanted. prune wanted managed

  -- A pass over the objects that were listed.
  abbrev pub session : List Item → Run (Unit {0})
  session items = connect e >>= λ a. λ h. closing (sweep items h)

  unfoldable pub reconcile : Run (Unit {0})
  unfolding connect sweep
  reconcile = ask list_access e.listed >>= λ items. session items

  -- The loop's first rounds: whatever a pass raises is logged.
  unfoldable pub rounds : ℕ → History → History
  unfolding reconcile
  rounds zero h = h
  rounds (suc n) h = rounds n (sleep ∷ (reconcile h).0)
