-- ===== src/Wake/Returns.antt =====
-- When the wait ends: by the hard deadline at the latest, at once on a request, and not before
-- the deadline where no checksum moves.
use infrahub_network_field_d.Base.{
  ℕ, ◌+◌, ◌≤◌, Bool, true, false, not, ◌&&◌, ◌||◌, Option, none, some, List, [], ◌∷◌, ◌≡◌, ◌⊎◌, inl,
  inr, refl, ◌∙◌, arith, and_left, and_right, Bool-cases, leb, if◌then◌else◌, any_of, all_of,
}
use infrahub_network_field_d.Wake.{
  Snapshot, same, Reading, Turn, woke, waits, WaitConfig, WaitState, Wake, interval, absorb, turn,
  wait_loop, wait_for_wake, config_of, initial,
}

abbrev is_woke : Turn → Bool
is_woke (woke w) = true
is_woke (waits s) = false

pub Turn-cases : (t : Turn) → ((w : Wake) × (t ≡ woke w)) ⊎ ((s : WaitState) × (t ≡ waits s))
Turn-cases (woke w) = inl (w, refl)
Turn-cases (waits s) = inr (s, refl)

module _ (c : WaitConfig) where
  pub wait_loop-woke :
      (s : WaitState) (r : Reading) (rs : List Reading) (w : Wake)
      → turn c s r ≡ woke w
      → wait_loop c s (r ∷ rs) ≡ some w
  unfolding wait_loop
  wait_loop-woke s r rs w e = rw (e, wait_loop)

  pub wait_loop-waits :
      (s s' : WaitState) (r : Reading) (rs : List Reading)
      → turn c s r ≡ waits s'
      → wait_loop c s (r ∷ rs) ≡ wait_loop c s' rs
  unfolding wait_loop
  wait_loop-waits s s' r rs e = rw (e, wait_loop)

  -- A reading that ends the wait whatever was observed.
  abbrev pub ends : Reading → Bool
  ends r = r.triggered || leb c.hard_deadline r.now

  not_waits :
      (s s' : WaitState) (r : Reading)
      → c.deadline ≤ c.hard_deadline
      → turn c s r ≡ waits s'
      → ends r ≡ false
  unfolding turn
  not_waits s s' r order h = ground arith

  wait_loop-returns :
      (rs : List Reading) (s : WaitState)
      → c.deadline ≤ c.hard_deadline
      → any_of ends rs ≡ true
      → (w : Wake) × (wait_loop c s rs ≡ some w)
  wait_loop-returns [] s order h = cc
  wait_loop-returns (r ∷ rs) s order h = elim (Turn-cases (turn c s r)) [
    | inl (w, e) ↦ (w, wait_loop-woke s r rs w e)
    | inr (s', e) ↦
        let (w, q) = wait_loop-returns rs s' order (ground (arith, not_waits s s' r order e)) in
        (w, wait_loop-waits s s' r rs e ∙ q)
  ]

-- The wait returns at the latest at the first reading at which the trigger file exists or the
-- clock has reached the hard deadline, whatever the checksum polls answer.
pub wait_for_wake-returns :
    (baseline : Option Snapshot) (delay begin poll_seconds stable_polls settle_limit : ℕ)
    (rs : List Reading)
    → any_of (ends (config_of begin delay poll_seconds stable_polls settle_limit)) rs ≡ true
    → (w : Wake) × (wait_for_wake baseline delay begin poll_seconds stable_polls settle_limit rs
        ≡ some w)
unfolding wait_for_wake
wait_for_wake-returns baseline delay begin poll_seconds stable_polls settle_limit rs h =
    wait_loop-returns (config_of begin delay poll_seconds stable_polls settle_limit) rs
      (initial baseline begin poll_seconds) (omega arith) h

abbrev pub sees : Snapshot → Option Snapshot → Bool
sees b none = true
sees b (some x) = same x b

-- A reading in which nothing asks for a cycle: no request, and a poll that fails or sees `b`.
abbrev pub is_quiet : Snapshot → Reading → Bool
is_quiet b r = not r.triggered && sees b r.observed

-- The state that a reading leaves behind, if it does not end the wait.
abbrev pub stepped : WaitConfig → WaitState → Reading → WaitState
stepped c s r =
    if leb s.next_poll r.now
    then absorb r.observed (record s { next_poll = r.now + c.poll_seconds })
    else s

module _ (b : Snapshot) where
  abbrev IsIdle : WaitState → Type 0
  IsIdle s = (s.baseline ≡ some b) × (s.pending ≡ none)

  absorb-IsIdle :
      (o : Option Snapshot) (s : WaitState) → IsIdle s → sees b o ≡ true → IsIdle (absorb o s)
  unfolding absorb
  absorb-IsIdle none s i q = i
  absorb-IsIdle (some x) s i q = ground arith

  stepped-IsIdle :
      (c : WaitConfig) (s : WaitState) (r : Reading)
      → IsIdle s
      → is_quiet b r ≡ true
      → IsIdle (stepped c s r)
  stepped-IsIdle c s r i q = elim (Bool-cases (leb s.next_poll r.now)) [
    | inl t ↦ rw t (
        absorb-IsIdle r.observed (record s { next_poll = r.now + c.poll_seconds }) i
          (and_right (not r.triggered) (sees b r.observed) q))
    | inr f ↦ rw f i
  ]

  quiet_turn :
      (c : WaitConfig) (s : WaitState) (r : Reading)
      → c.deadline ≤ c.hard_deadline
      → IsIdle s
      → is_quiet b r ≡ true
      → turn c s r ≡ (
          if leb c.deadline r.now
          then woke (record { reason = interval; moved = [] })
          else waits (stepped c s r))
  unfolding turn
  quiet_turn c s r order i q = ground (arith, stepped-IsIdle c s r i q)

  wait_loop-quiet :
      (c : WaitConfig) (rs : List Reading) (s : WaitState)
      → c.deadline ≤ c.hard_deadline
      → IsIdle s
      → all_of (is_quiet b) rs ≡ true
      → wait_loop c s rs ≡ (
          if any_of (λ (r : Reading). leb c.deadline r.now) rs
          then some (record { reason = interval; moved = [] })
          else none)
  wait_loop-quiet c [] s order i q = unfold wait_loop in refl
  wait_loop-quiet c (r ∷ rs) s order i qs' =
      let q = and_left (is_quiet b r) (all_of (is_quiet b) rs) qs' in
      let qs = and_right (is_quiet b r) (all_of (is_quiet b) rs) qs' in
      elim (Bool-cases (leb c.deadline r.now)) [
        | inl t ↦ rw t (wait_loop-woke c s r rs _ (quiet_turn c s r order i q ∙ rw t))
        | inr f ↦ rw f (
            wait_loop-waits c s (stepped c s r) r rs (quiet_turn c s r order i q ∙ rw f)
            ∙ wait_loop-quiet c rs (stepped c s r) order (stepped-IsIdle c s r i q) qs)
      ]

-- While there is no request and every poll that answers sees the baseline, the wait ends exactly
-- when the clock first reaches the deadline, for the interval's sake and with no moved device.
pub wait_for_wake-quiet :
    (b : Snapshot) (delay begin poll_seconds stable_polls settle_limit : ℕ) (rs : List Reading)
    → all_of (is_quiet b) rs ≡ true
    → wait_for_wake (some b) delay begin poll_seconds stable_polls settle_limit rs ≡ (
        if any_of (λ (r : Reading). leb (begin + delay) r.now) rs
        then some (record { reason = interval; moved = [] })
        else none)
unfolding wait_for_wake
wait_for_wake-quiet b delay begin poll_seconds stable_polls settle_limit rs q =
    wait_loop-quiet b (config_of begin delay poll_seconds stable_polls settle_limit) rs
      (initial (some b) begin poll_seconds) (omega arith) (refl, refl) q
