-- ===== src/Lifecycle/Deployed.antt =====
-- What the stage `deployed` of src/solution_arista_avd/service_lifecycle.py says.
use infrahub_network_field_d.Base.{
  ℕ, ◌≤◌, String, true, false, Option, none, some, List, [], ◌∷◌, ◌++◌, ◌≡◌, refl, sym, subst, inl,
  inr, map, ◌==◌, string_eq, option_eq, Bool-cases, arith, keep_if, length, ltb, sort,
}
use infrahub_network_field_d.Base.Dict.{Dict, get, values}
use mathlib.Core.List.{Memᴰ}
use mathlib.Core.List.Memᴰ.{head, tail, not-nil}
use infrahub_network_field_d.Base.Members.{member-keep_if, member-sort}
use infrahub_network_field_d.Lifecycle.Schema.{Service, Sample, Deployment, State, or_zero}
use infrahub_network_field_d.Lifecycle.Stages.{
  Out, on_main, stage, is_withdrawn, is_pending, is_stale, pending_sample, live_stage, live_stages,
  service_leb, remember,
}
use infrahub_network_field_d.Lifecycle.Build.{Snapshot, build, dated_main, tracked}
use infrahub_network_field_d.Lifecycle.Others.{
  is_deployed, Deployed, append-Deployed, one-Deployed, stage-Deployed, departures-Deployed,
  open_changes_onto-Deployed,
}

-- A service that is held to be deployed on the devices.
abbrev Held : List Deployment → Service → Type 0
Held devices s = (is_withdrawn s ≡ false) × (keep_if (is_pending s) devices ≡ [])

empty-length : {A : Type 0} (xs : List A) → ltb 0 (length xs) ≡ false → xs ≡ []
empty-length [] h = refl
empty-length (x ∷ xs) h = absurd (ground arith)

-- The sample bears the service's name and kind.
abbrev pub Names : Service → Sample → Type 0
Names s x = (get x.labels "service" ≡ some s.name) × (get x.labels "service_kind" ≡ some s.kind)

module _ (Q : Sample → Type 0) (now : ℕ) (devices : List Deployment) where
  last_stage-Deployed :
      (s : Service) (out : Out)
      → ((x : Sample) → Names s x → Q x)
      → Deployed Q out.1
      → Deployed Q (stage now s "deployed" none on_main out).1
  unfolding stage
  last_stage-Deployed s (state, samples) q h = append-Deployed Q samples _ h λ x m t. named x m
    where
      named : (x : Sample) → Memᴰ x (stage now s "deployed" none on_main (state, [])).1 → Q x
      named x (head e) = q x (subst (Names s) (sym e) (refl, refl))
      named x (tail (head e)) = q x (subst (Names s) (sym e) (refl, refl))
      named x (tail (tail m)) = absurd (not-nil m)

  live_stage-Deployed :
      (s : Service) (out : Out)
      → (Held devices s → (x : Sample) → Names s x → Q x)
      → Deployed Q out.1
      → Deployed Q (live_stage now devices s out).1
  unfolding live_stage
  live_stage-Deployed s (state, samples) q h =
      let pending = length (keep_if (is_pending s) devices) in
      let counted : Out = (state, samples ++ pending_sample s pending ∷ []) in
      let one =
        append-Deployed Q samples (pending_sample s pending ∷ []) h
          (one-Deployed Q (pending_sample s pending) refl) in
      elim (Bool-cases (is_withdrawn s)) [
        | inl t ↦
            rw t (
              stage-Deployed Q now s "decommissioning" s.changed_at on_main (state, samples) refl h)
        | inr n ↦ rw n (elim (Bool-cases (ltb 0 pending)) [
          | inl t ↦ rw t (stage-Deployed Q now s "merged" s.changed_at on_main counted refl one)
          | inr f ↦ rw f (last_stage-Deployed s counted (q (n, empty-length _ f)) one)
        ])
      ]

  live_stages-Deployed :
      (ss : List Service) (out : Out)
      → ((s : Service) → Memᴰ s ss → Held devices s → (x : Sample) → Names s x → Q x)
      → Deployed Q out.1
      → Deployed Q (live_stages now devices ss out).1
  unfolding live_stages
  live_stages-Deployed [] out q h = h
  live_stages-Deployed (s ∷ ss) out q h =
      live_stages-Deployed ss (live_stage now devices s out) (λ t m. q t (tail m))
        (live_stage-Deployed s out (q s (head refl)) h)

-- What a sample of the stage says of the service that it names.
abbrev IsConfirmed : Snapshot → Dict String Service → Sample → Type 0
IsConfirmed snapshot main x =
    (s : Service) × Memᴰ s (values main) × Names s x × Held (tracked snapshot.deployment) s

build-Deployed :
    (snapshot : Snapshot) (state : State) (now : ℕ)
    → Deployed (IsConfirmed snapshot (dated_main state snapshot.main)) (build snapshot state now).1
unfolding build dated_main
build-Deployed snapshot state now =
    let main = dated_main state snapshot.main in
    let Q = IsConfirmed snapshot main in
    let named : Out = (record state { names = remember state.names (values snapshot.main) }, []) in
    let services = sort service_leb (values main) in
    let live =
      live_stages-Deployed Q now (tracked snapshot.deployment) services named
        (λ s m held x names. (s, member-sort service_leb (values main) m, names, held))
        (λ x m t. absurd (not-nil m)) in
    departures-Deployed Q now (map (λ (x : Service). (x.kind, x.name)) (values main)) _ (
      open_changes_onto-Deployed Q now main snapshot.branches snapshot.branch_created
        snapshot.open_changes (live_stages now (tracked snapshot.deployment) services named) live)

stale-le :
    (confirmed changed : Option ℕ)
    → is_stale confirmed changed ≡ false
    → (t : ℕ) × (confirmed ≡ some t) × (or_zero changed ≤ t)
stale-le none changed h = cc
stale-le (some t) none h = (t, refl, omega arith)
stale-le (some t) (some c) h = (t, refl, ground arith)

confirmed_of :
    (s : Service) (r : Deployment) (devices : List Deployment)
    → keep_if (is_pending s) devices ≡ []
    → Memᴰ r devices
    → (r.status ≡ some "in_sync") × (is_stale r.last_confirmed_at s.changed_at ≡ false)
unfolding is_pending
confirmed_of s r devices none_left m = elim (Bool-cases (is_pending s r)) [
  | inl t ↦ absurd (not-nil (subst (λ xs. Memᴰ r xs) none_left (member-keep_if (is_pending s) m t)))
  | inr n ↦
      let in_sync : (r.status == some "in_sync") ≡ true = ground arith in
      ((option_eq.beq_iff r.status (some "in_sync")).0 in_sync, ground arith)
]

-- A service that a snapshot reports as deployed is a service on main that is not withdrawn, and each
-- device that the reconciler tracks is in sync and was confirmed no earlier than the service's last
-- change.
pub build-confirmed :
    (snapshot : Snapshot) (state : State) (now : ℕ) (x : Sample) (r : Deployment)
    → Memᴰ x (build snapshot state now).1
    → is_deployed x ≡ true
    → Memᴰ r snapshot.deployment
    → r.suspend ≡ false
    → (s : Service) × Memᴰ s (values (dated_main state snapshot.main))
      × Names s x
      × (is_withdrawn s ≡ false)
      × (r.status ≡ some "in_sync")
      × (t : ℕ) × (r.last_confirmed_at ≡ some t)
      × (or_zero s.changed_at ≤ t)
build-confirmed snapshot state now x r m t on watched =
    let (s, ms, names, held) = build-Deployed snapshot state now x m t in
    let among : Memᴰ r (tracked snapshot.deployment) = member-keep_if _ on (rw watched refl) in
    let (in_sync, fresh) = confirmed_of s r (tracked snapshot.deployment) held.1 among in
    let (at, e, le) = stale-le r.last_confirmed_at s.changed_at fresh in
    (s, ms, names, held.0, in_sync, at, e, le)
