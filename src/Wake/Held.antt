-- ===== src/Wake/Held.antt =====
-- What the wait keeps of the snapshots that its polls saw.
use infrahub_network_field_d.Base.{
  ℕ, ◌+◌, ◌≤◌, true, false, Option, none, some, List, [], ◌∷◌, ◌≡◌, inl, inr, refl, arith,
  and_intro, Bool-cases, leb, if◌then◌else◌, length, take, all_of,
}
use native.Mathlib.Numerals.{add-one}
use infrahub_network_field_d.Wake.{Snapshot, same, Reading, WaitState, absorb}
use infrahub_network_field_d.Wake.Moved.{eq→same}

abbrev pub observe_onto : Option Snapshot → List Snapshot → List Snapshot
observe_onto none h = h
observe_onto (some x) h = x ∷ h

-- The snapshots that the polls of a run of readings saw, the latest first, in front of `h`.
abbrev pub polls : (next_poll poll_seconds : ℕ) → List Snapshot → List Reading → List Snapshot
polls next every h [] = h
polls next every h (r ∷ rs) =
    polls (if leb next r.now then r.now + every else next) every
      (if leb next r.now then observe_onto r.observed h else h) rs

-- Every one of the first `n` snapshots is the same as `p`, and there are as many.
abbrev pub AllSame : Snapshot → ℕ → List Snapshot → Type 0
AllSame p n h = (n ≤ length h) × (all_of (λ x. same x p) (take n h) ≡ true)

-- What the wait keeps: a pending snapshot differs from the baseline, and the latest `agreeing`
-- polls saw it.
abbrev pub IsHeld : Option Snapshot → Option Snapshot → ℕ → List Snapshot → Type 0
IsHeld baseline none n h = Unit
IsHeld none (some p) n h = ⊥
IsHeld (some b) (some p) n h = (same p b ≡ false) × AllSame p n h × (1 ≤ n)

abbrev pub Held : WaitState → List Snapshot → Type 0
Held s h = IsHeld s.baseline s.pending s.agreeing h

pub same_refl : (x : Snapshot) → same x x ≡ true
same_refl x = eq→same x x (λ k. refl)

AllSame-cons :
    (p x : Snapshot) (n : ℕ) (h : List Snapshot)
    → same x p ≡ true
    → AllSame p n h
    → AllSame p (n + 1) (x ∷ h)
AllSame-cons p x n h e k = rw add-one (omega (arith, k.0), and_intro e k.1)

AllSame-one : (x : Snapshot) (h : List Snapshot) → AllSame x 1 (x ∷ h)
AllSame-one x h = (omega arith, and_intro (same_refl x) refl)

module _ (next : ℕ) (x : Snapshot) (h : List Snapshot) where
  abbrev state : Option Snapshot → Option Snapshot → ℕ → WaitState
  state ba pe n = record { baseline = ba; next_poll = next; pending = pe; agreeing = n }

  absorb-Held-baseline :
      (b : Snapshot) (pe : Option Snapshot) (n : ℕ)
      → IsHeld (some b) pe n h
      → Held (absorb (some x) (state (some b) pe n)) (x ∷ h)
  unfolding absorb
  absorb-Held-baseline b none n k = elim (Bool-cases (same x b)) [
    | inl t ↦ rw t tt
    | inr f ↦ rw f (f, AllSame-one x h, omega arith)
  ]
  absorb-Held-baseline b (some p) n k = elim (Bool-cases (same x b)) [
    | inl t ↦ rw t tt
    | inr f ↦ rw f (elim (Bool-cases (same x p)) [
      | inl t ↦ rw t (k.0, AllSame-cons p x n h t k.1, omega arith)
      | inr g ↦ rw g (f, AllSame-one x h, omega arith)
    ])
  ]

  absorb-Held-some :
      (ba pe : Option Snapshot) (n : ℕ)
      → IsHeld ba pe n h
      → Held (absorb (some x) (state ba pe n)) (x ∷ h)
  absorb-Held-some none none n k = unfold absorb in tt
  absorb-Held-some none (some p) n k = absurd k
  absorb-Held-some (some b) pe n k = absorb-Held-baseline b pe n k

pub absorb-Held :
    (o : Option Snapshot) (s : WaitState) (h : List Snapshot)
    → Held s h
    → Held (absorb o s) (observe_onto o h)
absorb-Held none s h k = unfold absorb in k
absorb-Held (some x) s h k = absorb-Held-some s.next_poll x h s.baseline s.pending s.agreeing k
