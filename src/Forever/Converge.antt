-- ===== src/Forever/Converge.antt =====
-- When converge reports a clean cycle.
use infrahub_network_field_d.Base.{
  ℕ, zero, suc, ◌+◌, ◌≤◌, ◌<◌, String, true, false, none, ◌≡◌, inl, inr, refl, sym, false≢true, ◌≢◌,
  ◌∙◌, ap, arith, any_of, Bool-cases,
}
use infrahub_network_field_d.Cycle.{CycleReport, CycleResult, run_cycle}
use infrahub_network_field_d.Cycle
use infrahub_network_field_d.Cycle.Quiet.{run_cycle-quiet}
use infrahub_network_field_d.Forever.{
  converge_options, is_clean, converge_cycle, converge_from, converge,
}
use infrahub_network_field_d.Inventory.{World}
use infrahub_network_field_d.Inventory.Quiet.{is_troubled}
use infrahub_network_field_d.State.{Graph}
use native.Mathlib.Nat.{eq-or-lt_of_le}

module _ (graph : Graph) (worlds : ℕ → World) (firewall_every : ℕ) where
  open graph use {Store}

  abbrev pub cycle_at : ℕ → Store → CycleResult graph
  cycle_at = converge_cycle graph worlds firewall_every

  -- The stores that the cycles from the first one on leave behind.
  abbrev pub store_before : ℕ → Store → Store
  store_before zero s = s
  store_before (suc n) s = (cycle_at n (store_before n s)).store

  converge_from-clean :
      (left cycle n : ℕ) (report : CycleReport) (s : Store)
      → cycle ≤ n
      → n < cycle + left
      → ((s : Store) → is_clean (cycle_at n s).report ≡ true)
      → is_clean (converge_from graph worlds firewall_every left cycle report s).0 ≡ true
  unfolding converge_from
  converge_from-clean zero cycle n report s low high h = absurd (omega (arith, low, high))
  converge_from-clean (suc left) cycle n report s low high h =
      elim (Bool-cases (is_clean (cycle_at cycle s).report)) [
        | inl clean ↦ rw (clean, converge_from) clean
        | inr dirty ↦
            let later : cycle ≢ n = λ same.
              false≢true (sym dirty ∙ (ap (λ m. is_clean (cycle_at m s).report) same ∙ h s)) in
            rw (dirty, converge_from)
              (converge_from-clean left (suc cycle) n _ _ (omega (arith, low, later))
                (omega (arith, high)) h)
      ]

  -- converge ends with a clean report, if all artifacts can be read and all comparisons are
  -- without a difference in one of the cycles it may make, and no task raises in that cycle.
  pub converge-clean :
      (max_cycles n : ℕ) (s : Store)
      → n < max_cycles
      → any_of (is_troubled (worlds n)) (worlds n).targets ≡ false
      → ((host : String) → (worlds n).task_error host ≡ none)
      → is_clean (converge graph worlds firewall_every max_cycles s).0 ≡ true
  unfolding converge
  converge-clean max_cycles n s high quiet no_error =
      converge_from-clean max_cycles 0 n Cycle.no_report s (omega arith) (omega (arith, high)) λ s'.
        let (differed, failed, _, _) =
          run_cycle-quiet graph (worlds n) (converge_options firewall_every n) s' quiet no_error
            refl in
        rw (differed, failed)

  converge_from-gives_up :
      (left cycle stop : ℕ) (report : CycleReport) (s : Store)
      → cycle + left ≡ stop
      → is_clean
          (converge_from graph worlds firewall_every left cycle report (store_before cycle s)).0
        ≡ false
      → ((converge_from graph worlds firewall_every left cycle report (store_before cycle s)).1
          ≡ store_before stop s)
        × ((n : ℕ) → cycle ≤ n → n < stop → is_clean (cycle_at n (store_before n s)).report ≡ false)
  unfolding converge_from
  converge_from-gives_up zero cycle stop report s e h = (
    ap (λ n. store_before n s) (omega (arith, e)),
    λ n low high. absurd (omega (arith, low, high, e)),
  )
  converge_from-gives_up (suc left) cycle stop report s e h =
      elim (Bool-cases (is_clean (cycle_at cycle (store_before cycle s)).report)) [
        | inl clean ↦ absurd (false≢true (sym h ∙ rw (clean, converge_from) clean))
        | inr dirty ↦
            let (stored, unclean) =
              converge_from-gives_up left (suc cycle) stop _ s (omega (arith, e))
                (rw (dirty, converge_from) at h) in
            (
              rw (dirty, converge_from) stored,
              λ n low high. elim (eq-or-lt_of_le low) [
                | inl same ↦
                    ap (λ m. is_clean (cycle_at m (store_before m s)).report) (sym same) ∙ dirty
                | inr later ↦ unclean n (omega (arith, later)) high
              ],
            )
      ]

  -- Where converge ends with a report that is not clean, it has made all of its cycles, each on
  -- the store that the one before left behind; the report of each of them was not clean, and the
  -- store is the one that the last of them left.
  pub converge-gives_up :
      (max_cycles n : ℕ) (s : Store)
      → n < max_cycles
      → is_clean (converge graph worlds firewall_every max_cycles s).0 ≡ false
      → ((converge graph worlds firewall_every max_cycles s).1 ≡ store_before max_cycles s)
        × (is_clean (cycle_at n (store_before n s)).report ≡ false)
  unfolding converge
  converge-gives_up max_cycles n s high h =
      let (stored, unclean) =
        converge_from-gives_up max_cycles 0 max_cycles Cycle.no_report s (omega arith) h in
      (stored, unclean n (omega arith) high)
