-- ===== src/Lifecycle/Outage.antt =====
-- What an outage of Infrahub leaves of the exporter of src/solution_arista_avd/service_lifecycle.py.
use infrahub_network_field_d.Base.{
  ℕ, suc, ◌+◌, Bool, true, false, ◌&&◌, List, [], ◌∷◌, ◌≡◌, refl, ◌∙◌, length, arith, and_left,
  and_right,
}
use infrahub_network_field_d.Lifecycle.Schema.{State}
use infrahub_network_field_d.Lifecycle.Events.{absorb_events}
use infrahub_network_field_d.Lifecycle.Events.Since.{IsSince, absorb_events-IsSince}
use infrahub_network_field_d.Lifecycle.Exporter.{
  Reply, answer, runtime_error, other_error, Infrahub, NamedChange, Reading, read, conclude, poll,
  poll_reading, ask_names, kinds_seen, Polled, Exporter, after, poll_safely, polls,
}

-- A query, or a poll, that raised.
abbrev pub is_down : {A : Type 0} → Reply A → Bool
is_down (answer a) = false
is_down (runtime_error e) = true
is_down (other_error e) = true

conclude-IsSince :
    (r : Reading) (now : ℕ) (s z : State) (named : Reply (List NamedChange))
    → IsSince s z
    → is_down (conclude r now z named).1 ≡ true
    → IsSince s (conclude r now z named).0
unfolding conclude
conclude-IsSince r now s z (runtime_error e) p h = p
conclude-IsSince r now s z (other_error e) p h = p
conclude-IsSince r now s z (answer named) p h = cc

-- A poll that raised, at whatever query, leaves a state of the same last good poll.
poll-IsSince :
    (w : Infrahub) (now : ℕ) (s : State)
    → is_down (poll w now s).1 ≡ true
    → IsSince s (poll w now s).0
unfolding poll poll_reading
poll-IsSince w now s h = go (read w s.events_since now) h
  where
    go :
        (r : Reply Reading)
        → is_down (poll_reading w s now r).1 ≡ true
        → IsSince s (poll_reading w s now r).0
    go (runtime_error e) k = (refl, refl, refl)
    go (other_error e) k = (refl, refl, refl)
    go (answer r) k =
        let absorbed = absorb_events s r.collected (kinds_seen s r) in
        conclude-IsSince r now s absorbed.0 (ask_names w absorbed.1)
          (absorb_events-IsSince s r.collected (kinds_seen s r)) k

-- The second exporter reports what the first does, remembers the same last good poll, and counted
-- some errors more.
abbrev pub Keeps : Exporter → ℕ → Exporter → Type 0
Keeps e n f =
    IsSince e.state f.state
    × (f.samples ≡ e.samples)
    × (f.polled_at ≡ e.polled_at)
    × (f.errors ≡ e.errors + n)

Keeps-after :
    (e f : Exporter) (now n : ℕ) (p : Polled)
    → is_down p.1 ≡ true
    → IsSince e.state p.0
    → Keeps (after e now p) n f
    → Keeps e (suc n) f
Keeps-after e f now n (z, answer a) h s k = cc
Keeps-after e f now n (z, runtime_error m) h (a, b, c) ((x, y, t), u, v, w) =
    ((x ∙ a, y ∙ b, t ∙ c), u, v, omega (arith, w))
Keeps-after e f now n (z, other_error m) h (a, b, c) ((x, y, t), u, v, w) =
    ((x ∙ a, y ∙ b, t ∙ c), u, v, omega (arith, w))

-- Each of the polls raises, at some query, in the state that those before it left.
unfoldable pub all_raise : List (ℕ × Infrahub) → Exporter → Bool
unfolding poll_safely
all_raise [] e = true
all_raise ((now, w) ∷ rounds) e =
    is_down (poll w now e.state).1 && all_raise rounds (poll_safely w now e)

-- Polls that raise, however many and at whatever query, also after the events were absorbed, change
-- neither the samples that the exporter reports nor when the last good poll was; the next poll asks
-- for the events since the same time, and when each service was first seen and the names of the
-- proposed changes are as they were; and each of the polls is counted as an error.
pub polls-Keeps :
    (rounds : List (ℕ × Infrahub)) (e : Exporter)
    → all_raise rounds e ≡ true
    → Keeps e (length rounds) (polls rounds e)
unfolding polls all_raise poll_safely
polls-Keeps [] e h = ((refl, refl, refl), refl, refl, omega arith)
polls-Keeps ((now, w) ∷ rounds) e h =
    let down = and_left (is_down (poll w now e.state).1) _ h in
    Keeps-after e (polls rounds (poll_safely w now e)) now (length rounds) (poll w now e.state) down
      (poll-IsSince w now e.state down)
      (polls-Keeps rounds (poll_safely w now e) (and_right (is_down (poll w now e.state).1) _ h))
