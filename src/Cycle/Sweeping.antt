-- ===== src/Cycle/Sweeping.antt =====
-- What the sweep at the start of a cycle reaches.
use infrahub_network_field_d.Base.{
  String, Bool, true, false, not, ◌&&◌, ◌||◌, Option, List, [], ◌∷◌, ◌≡◌, refl, ◌∙◌, arith, ◌==◌,
  string_eq, keep_if, any_of, any_of-append, any_of-split,
}
use infrahub_network_field_d.State.{Graph}
use infrahub_network_field_d.Base.Dict.{Dict}
use infrahub_network_field_d.Inventory.{
  World, Contact, sweeps, compares, pushes, target_turn, run_over, split_firewalls, known_family,
}
use infrahub_network_field_d.Inventory.Turns.{run_over-without}
use infrahub_network_field_d.Cycle.Plan.{Options, is_junos, order, sweep}
use infrahub_network_field_d.Cycle.{run_devices, runnable_targets, run_cycle}
use infrahub_network_field_d.Wake.{Target}

abbrev pub sweep_of : String → Contact → Bool
sweep_of k (sweeps d) = d == k
sweep_of k (compares d) = false
sweep_of k (pushes d) = false

abbrev pub swept_target : String → Target → Bool
swept_target k t = known_family t.artifact_name && t.device == k

pub any_of-order : (p : Target → Bool) (ts : List Target) → any_of p (order ts) ≡ any_of p ts
unfolding order
any_of-order p ts =
    any_of-append p (keep_if (λ t. not (is_junos t)) ts) _ ∙ any_of-split p is_junos ts

sweep-contacts :
    (w : World) (k : String) (ts : List Target)
    → any_of (sweep_of k) (sweep w ts).1 ≡ any_of (swept_target k) ts
unfolding sweep
sweep-contacts w k [] = refl
sweep-contacts w k (t ∷ ts) = ground (arith, sweep-contacts w k ts)

target_turn-sweep :
    (w : World) (k : String) (dry_run : Bool) (o : Option Target)
    → any_of (sweep_of k) (target_turn w dry_run o).1 ≡ false
unfolding target_turn
target_turn-sweep w k dry_run o = ground arith

run_devices-sweep :
    (w : World) (k : String) (dry_run : Bool) (targets : Dict String Target)
    → any_of (sweep_of k) (run_devices w dry_run targets).1 ≡ false
unfolding run_devices
run_devices-sweep w k dry_run targets =
    let (fabric, firewalls) = split_firewalls w.hosts in
    let without = run_over-without (sweep_of k) w dry_run (target_turn-sweep w k dry_run) targets in
    any_of-append (sweep_of k) (run_over w fabric targets dry_run).1 _
    ∙ rw (without fabric, without firewalls)

-- A cycle that is no dry run sweeps every device with an artifact of the three families: whatever
-- the device's record says of suspension, and whether or not the device is due.
pub run_cycle-sweeps :
    (graph : Graph) (w : World) (o : Options) (s : graph.Store) (k : String)
    → o.dry_run ≡ false
    → any_of (sweep_of k) (run_cycle graph w o s).contacts ≡ any_of (swept_target k) w.targets
unfolding run_cycle
run_cycle-sweeps graph w o s k live =
    let runnable = runnable_targets graph w o s in
    simp live (
      any_of-append (sweep_of k) (sweep w (order w.targets)).1 _
      ∙ rw (sweep-contacts w k (order w.targets), run_devices-sweep w k false runnable)
          (or_false_right (any_of (swept_target k) (order w.targets))
            ∙ any_of-order (swept_target k) w.targets))
  where
    or_false_right : (b : Bool) → (b || false) ≡ b
    or_false_right true = refl
    or_false_right false = refl
