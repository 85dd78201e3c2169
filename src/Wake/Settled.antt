-- ===== src/Wake/Settled.antt =====
-- A wake for moved artifacts: the moved checksums have held still, and every reason is justified.
use infrahub_network_field_d.Base.{
  ℕ, suc, ◌+◌, ◌≤◌, String, Bool, true, false, Option, none, some, List, [], ◌∷◌, ◌≡◌, inl, inr,
  refl, sym, ap, ◌∙◌, arith, and_intro, and_left, and_right, get_elem?, subst, zero, Bool-cases,
  leb, if◌then◌else◌, take, all_of,
}
use infrahub_network_field_d.Wake.{
  Reason, Snapshot, moved, same, Reading, woke, waits, WaitConfig, WaitState, Wake, start, interval,
  artifacts, requested, absorb, turn, wait_loop, wait_for_wake, config_of, initial, moved_of,
  is_some,
}
use infrahub_network_field_d.Wake.Returns.{Turn-cases, wait_loop-woke, wait_loop-waits, stepped}
use infrahub_network_field_d.Wake.Held.{observe_onto, polls, AllSame, IsHeld, Held, absorb-Held}

-- Why a turn of the loop ended the wait, in terms of the state that the turn had reached.
data Cause (c : WaitConfig) (s : WaitState) (r : Reading) : Wake → Type 0 where
  by_request : (w : Wake) → w.reason ≡ requested → r.triggered ≡ true → Cause c s r w
  by_deadline :
      (w : Wake)
      → w.reason ≡ interval
      → c.deadline ≤ r.now
      → w.moved ≡ moved_of s.baseline s.pending
      → Cause c s r w
  by_artifacts :
      (w : Wake)
      → w.reason ≡ artifacts
      → is_some s.pending ≡ true
      → c.stable_polls ≤ s.agreeing
      → w.moved ≡ moved_of s.baseline s.pending
      → Cause c s r w

turn-Cause :
    (c : WaitConfig) (s : WaitState) (r : Reading) (w : Wake)
    → turn c s r ≡ woke w
    → Cause c (stepped c s r) r w
unfolding turn
turn-Cause c s r w h = grind (arith, by_request, by_deadline, by_artifacts)

-- What a wake claims, for a wait from baseline `b` that ends at reading `r`, where the polls
-- saw `h`, the latest first.
abbrev pub Justifies :
    WaitConfig → Snapshot → Reading → List Snapshot → List String → Reason → Type 0
Justifies c b r h m start = ⊥
Justifies c b r h m requested = r.triggered ≡ true
Justifies c b r h m interval = c.deadline ≤ r.now
Justifies c b r h m artifacts =
    (p : Snapshot) × (same p b ≡ false) × AllSame p c.stable_polls h × (m ≡ moved b p)

all_of-take-le :
    (q : Snapshot → Bool) (m n : ℕ) (h : List Snapshot)
    → m ≤ n
    → all_of q (take n h) ≡ true
    → all_of q (take m h) ≡ true
all_of-take-le q zero n h l e = refl
all_of-take-le q (suc m) zero h l e = absurd (omega arith)
all_of-take-le q (suc m) (suc n) [] l e = refl
all_of-take-le q (suc m) (suc n) (x ∷ h) l e =
    and_intro (and_left (q x) _ e)
      (all_of-take-le q m n h (omega arith) (and_right (q x) (all_of q (take n h)) e))

module _ (c : WaitConfig) (b : Snapshot) (r : Reading) (h : List Snapshot) where
  pending-Justifies :
      (pe : Option Snapshot) (n : ℕ) (m : List String)
      → IsHeld (some b) pe n h
      → is_some pe ≡ true
      → c.stable_polls ≤ n
      → m ≡ moved_of (some b) pe
      → Justifies c b r h m artifacts
  pending-Justifies none n m k e l q = cc
  pending-Justifies (some p) n m k e l q =
      (p, k.0, (omega arith, all_of-take-le (λ x. same x p) c.stable_polls n h l k.1.1), q)

  Cause-Justifies :
      (s : WaitState) (w : Wake)
      → s.baseline ≡ some b
      → Held s h
      → Cause c s r w
      → Justifies c b r h w.moved w.reason
  Cause-Justifies s w e k (by_request _ q t) = rw q t
  Cause-Justifies s w e k (by_deadline _ q l m) = rw q l
  Cause-Justifies s w e k (by_artifacts _ q some_pending l m) = rw q (
      pending-Justifies s.pending s.agreeing w.moved
        (subst (λ ba. IsHeld ba s.pending s.agreeing h) e k) some_pending l
        (m ∙ ap (λ ba. moved_of ba s.pending) e))

stepped-baseline :
    (c : WaitConfig) (b : Snapshot) (s : WaitState) (r : Reading)
    → s.baseline ≡ some b
    → (stepped c s r).baseline ≡ some b
unfolding absorb
stepped-baseline c b s r e = ground arith

-- The polls seen before a reading, and after it.
abbrev seen : WaitState → Reading → List Snapshot → List Snapshot
seen s r h = if leb s.next_poll r.now then observe_onto r.observed h else h

stepped-Held :
    (c : WaitConfig) (s : WaitState) (r : Reading) (h : List Snapshot)
    → Held s h
    → Held (stepped c s r) (seen s r h)
stepped-Held c s r h k = elim (Bool-cases (leb s.next_poll r.now)) [
  | inl t ↦ rw t (absorb-Held r.observed (record s { next_poll = r.now + c.poll_seconds }) h k)
  | inr f ↦ rw f k
]

stepped-next_poll :
    (c : WaitConfig) (s : WaitState) (r : Reading)
    → (stepped c s r).next_poll
      ≡ (if leb s.next_poll r.now then r.now + c.poll_seconds else s.next_poll)
unfolding absorb
stepped-next_poll c s r = ground arith

stepped-turn :
    (c : WaitConfig) (s s' : WaitState) (r : Reading) → turn c s r ≡ waits s' → s' ≡ stepped c s r
unfolding turn
stepped-turn c s s' r h = ground arith

-- A wake at reading number `k` of `rs`, with what it claims.
abbrev pub JustifiedIn : WaitConfig → Snapshot → ℕ → List Snapshot → List Reading → Wake → Type 0
JustifiedIn c b next h rs w =
    (k : ℕ) × (r : Reading) × (get_elem? rs k ≡ some r)
    × Justifies c b r (polls next c.poll_seconds h (take (suc k) rs)) w.moved w.reason

wait_loop-justified :
    (c : WaitConfig) (b : Snapshot) (rs : List Reading) (s : WaitState) (h : List Snapshot)
    (w : Wake)
    → s.baseline ≡ some b
    → Held s h
    → wait_loop c s rs ≡ some w
    → JustifiedIn c b s.next_poll h rs w
wait_loop-justified c b [] s h w e k p = unfold wait_loop in cc
wait_loop-justified c b (r ∷ rs) s h w e k p = elim (Turn-cases (turn c s r)) [
  | inl (w', q) ↦
      let same_wake : w' ≡ w = cc (wait_loop-woke c s r rs w' q) in
      (
        0,
        r,
        refl,
        Cause-Justifies c b r (seen s r h) (stepped c s r) w (stepped-baseline c b s r e)
            (stepped-Held c s r h k) (turn-Cause c s r w (q ∙ ap woke same_wake)),
      )
  | inr (s', q) ↦
      let q' : turn c s r ≡ waits (stepped c s r) = q ∙ ap waits (stepped-turn c s s' r q) in
      let (n, r', found, j) =
        subst (λ next. JustifiedIn c b next (seen s r h) rs w) (stepped-next_poll c s r)
          (wait_loop-justified c b rs (stepped c s r) (seen s r h) w (stepped-baseline c b s r e)
            (stepped-Held c s r h k) (sym (wait_loop-waits c s (stepped c s r) r rs q') ∙ p)) in
      (suc n, r', found, j)
]

-- Every wake from a wait with a baseline is justified at one of the readings: a request by the trigger file, the interval by
-- the deadline, and moved artifacts by a snapshot that differs from the baseline, that each of
-- the last `stable_polls` successful polls up to that reading saw, and whose moved devices the
-- wake names. No wait ends for any other reason.
pub wait_for_wake-justified :
    (b : Snapshot) (delay begin poll_seconds stable_polls settle_limit : ℕ) (rs : List Reading)
    (w : Wake)
    → wait_for_wake (some b) delay begin poll_seconds stable_polls settle_limit rs ≡ some w
    → JustifiedIn
        (config_of begin delay poll_seconds stable_polls settle_limit)
        b
        (begin + poll_seconds)
        []
        rs
        w
unfolding wait_for_wake
wait_for_wake-justified b delay begin poll_seconds stable_polls settle_limit rs w p =
    wait_loop-justified (config_of begin delay poll_seconds stable_polls settle_limit) b rs
      (initial (some b) begin poll_seconds) [] w refl tt p
