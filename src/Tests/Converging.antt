-- ===== src/Tests/Converging.antt =====
-- A fabric that settles after one push.
use infrahub_network_field_d.Base.{
  ℕ, zero, suc, true, false, none, some, [], ◌≡◌, refl, arith, string_eq,
}
use infrahub_network_field_d.Base.Result.{ok}
use infrahub_network_field_d.Cycle.{run_cycle}
use infrahub_network_field_d.Cycle.Quiet.{run_cycle-confirms}
use infrahub_network_field_d.Forever.{is_clean, converge, converge_cycle, max_converge_cycles}
use infrahub_network_field_d.Forever.Converge.{store_before, converge-clean, converge-gives_up}
use infrahub_network_field_d.Inventory.{World, compare, read_intent}
use infrahub_network_field_d.State.Records.{field_of}
use infrahub_network_field_d.Tests.Cycles.{program, world, store, leaf, everything}
use infrahub_network_field_d.Tests.Memory.{memory}

-- Every device reports no difference.
abbrev calm : World
calm = record world { comparator = λ t config. ok [] }

-- The first cycle pushes; the later ones find nothing.
abbrev settling : ℕ → World
settling zero = world
settling (suc n) = calm

run_cycle-confirms_example :
    field_of none
      (λ r. r.last_confirmed_at)
      (memory.find (run_cycle memory calm everything store).store "leaf1")
    ≡ some 8
unfolding program read_intent compare
run_cycle-confirms_example =
    run_cycle-confirms memory calm everything store refl (λ host. refl) "leaf1" leaf refl refl refl
      refl

converge-clean_example : is_clean (converge memory settling 4 max_converge_cycles store).0 ≡ true
unfolding program read_intent compare
converge-clean_example =
    converge-clean memory settling 4 max_converge_cycles 1 store (omega arith) refl (λ host. refl)

unclean : is_clean (converge memory (λ n. world) 4 1 store).0 ≡ false
unfolding program converge
unclean = refl

converge-gives_up_example :
    ((converge memory (λ n. world) 4 1 store).1 ≡ store_before memory (λ n. world) 4 1 store)
    × (is_clean (converge_cycle memory (λ n. world) 4 0 store).report ≡ false)
converge-gives_up_example = converge-gives_up memory (λ n. world) 4 1 0 store (omega arith) unclean
