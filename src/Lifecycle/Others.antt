-- ===== src/Lifecycle/Others.antt =====
-- The parts of build in src/solution_arista_avd/service_lifecycle.py that report no service as
-- deployed.
use infrahub_network_field_d.Base.{
  ℕ, String, Bool, true, false, ◌&&◌, not, Option, none, some, List, [], ◌∷◌, ◌++◌, ◌≡◌, refl, sym,
  ap, ◌∙◌, inl, inr, map, ◌==◌, string_eq, option_eq, Bool-cases, sort, contains, false≢true,
}
use infrahub_network_field_d.Base.Dict.{Dict, get, keys}
use mathlib.Core.List.{Memᴰ}
use mathlib.Core.List.Memᴰ.{head, tail, append_cases, not-nil}
use infrahub_network_field_d.Lifecycle.Schema.{Service, Sample, Change}
use infrahub_network_field_d.Lifecycle.Stages.{Out, Extra, on_main, stage, stage_sample}
use infrahub_network_field_d.Lifecycle.Requests.{
  Opening, pair_leb, name_change, opening_of, request_change, change_of, predates, request_changes,
  request_deletions, open_change, open_changes_onto,
}
use infrahub_network_field_d.Lifecycle.Departures.{
  departures, gone, report_events, report_merges, removed_services, event_sample, merge_sample,
  merge_samples, removed_stages, event_samples, recent_merges,
}

-- The sample is of the stage `deployed`.
abbrev pub is_deployed : Sample → Bool
is_deployed x = get x.labels "stage" == some "deployed"

-- Each sample of the stage has a property.
abbrev pub Deployed : (Sample → Type 0) → List Sample → Type 0
Deployed Q xs = (x : Sample) → Memᴰ x xs → is_deployed x ≡ true → Q x

module _ (Q : Sample → Type 0) where
  pub append-Deployed :
      (xs ys : List Sample) → Deployed Q xs → Deployed Q ys → Deployed Q (xs ++ ys)
  append-Deployed xs ys h k x m t = elim (append_cases xs m) [ inl p ↦ h x p t | inr q ↦ k x q t ]

  pub one-Deployed : (x : Sample) → is_deployed x ≡ false → Deployed Q (x ∷ [])
  one-Deployed x n y (head e) t = absurd (false≢true (sym n ∙ ap is_deployed (sym e) ∙ t))
  one-Deployed x n y (tail m) t = absurd (not-nil m)

  -- Another stage adds no such sample.
  pub stage-Deployed :
      (now : ℕ) (s : Service) (name : String) (since : Option ℕ) (extra : Extra) (out : Out)
      → (name == "deployed") ≡ false
      → Deployed Q out.1
      → Deployed Q (stage now s name since extra out).1
  unfolding stage
  stage-Deployed now s name since extra (state, samples) n h = append-Deployed samples _ h (
      append-Deployed (stage_sample s name extra ∷ []) _
        (one-Deployed (stage_sample s name extra) n) (one-Deployed _ n))

  removed_stages-Deployed :
      (now : ℕ) (rs : List ((String × String) × ℕ)) (out : Out)
      → Deployed Q out.1
      → Deployed Q (removed_stages now rs out).1
  unfolding removed_stages
  removed_stages-Deployed now [] out h = h
  removed_stages-Deployed now (((kind, name), at) ∷ rs) out h =
      removed_stages-Deployed now rs _
        (stage-Deployed now (gone kind name at) "removed" (some at) on_main out refl h)

  map-Deployed :
      {A : Type 0} (f : A → Sample) (as' : List A)
      → ((a : A) → is_deployed (f a) ≡ false)
      → Deployed Q (map f as')
  map-Deployed f [] h = λ x m t. absurd (not-nil m)
  map-Deployed f (a ∷ as') h =
      append-Deployed (f a ∷ []) (map f as') (one-Deployed (f a) (h a)) (map-Deployed f as' h)

  report_events-Deployed :
      (now : ℕ) (out : Out) → Deployed Q out.1 → Deployed Q (report_events now out).1
  unfolding report_events event_samples
  report_events-Deployed now (state, samples) h =
      append-Deployed samples (event_samples now state.events) h
        (map-Deployed event_sample _ (λ e. refl))

  report_merges-Deployed :
      (now : ℕ) (out : Out) → Deployed Q out.1 → Deployed Q (report_merges now out).1
  unfolding report_merges merge_samples merge_sample
  report_merges-Deployed now (state, samples) h =
      append-Deployed samples (merge_samples state.pc_names (recent_merges now state.merged)) h
        (map-Deployed (merge_sample state.pc_names) _ (λ m. refl))

  pub departures-Deployed :
      (now : ℕ) (live : List (String × String)) (out : Out)
      → Deployed Q out.1
      → Deployed Q (departures now live out).1
  unfolding departures
  departures-Deployed now live out h =
      let kept = report_events now out in
      let removed = removed_services live kept.0 in
      report_merges-Deployed now (removed_stages now removed kept)
        (removed_stages-Deployed now removed kept (report_events-Deployed now out h))

  request_change-Deployed :
      (now : ℕ) (o : Opening) (s : Service) (change : Option String) (out : Out)
      → Deployed Q out.1
      → Deployed Q (request_change now o s change out).1
  unfolding request_change
  request_change-Deployed now o s none out h = h
  request_change-Deployed now o s (some change) out h =
      stage-Deployed now s "requested" o.opened _ out refl h

  request_changes-Deployed :
      (now : ℕ) (o : Opening) (main : Dict String Service) (ss : List (String × Service))
      (out : Out)
      → Deployed Q out.1
      → Deployed Q (request_changes now o main ss out).1
  unfolding request_changes
  request_changes-Deployed now o main [] out h = h
  request_changes-Deployed now o main ((id, s) ∷ ss) out h =
      request_changes-Deployed now o main ss _
        (request_change-Deployed now o s (change_of s (get main id) o.cut) out h)

  request_deletions-Deployed :
      (now : ℕ) (o : Opening) (ours : Dict String Service) (ss : List (String × Service))
      (out : Out)
      → Deployed Q out.1
      → Deployed Q (request_deletions now o ours ss out).1
  unfolding request_deletions
  request_deletions-Deployed now o ours [] out h = h
  request_deletions-Deployed now o ours ((id, s) ∷ ss) out h =
      request_deletions-Deployed now o ours ss _
        (elim (Bool-cases (not (contains (keys ours) id) && predates s o.cut)) [
          | inl t ↦ rw t (stage-Deployed now s "requested" o.opened _ out refl h)
          | inr n ↦ rw n h
        ])

  open_change-Deployed :
      (now : ℕ) (main : Dict String Service) (o : Opening) (pc : Change)
      (ours : Option (Dict String Service)) (out : Out)
      → Deployed Q out.1
      → Deployed Q (open_change now main o pc ours out).1
  unfolding open_change
  open_change-Deployed now main o pc none out h = h
  open_change-Deployed now main o pc (some ours) (state, samples) h =
      request_deletions-Deployed now o ours main
        (request_changes now o main (sort pair_leb ours) (name_change pc (state, samples)))
        (request_changes-Deployed now o main (sort pair_leb ours) (name_change pc (state, samples))
          h)

  pub open_changes_onto-Deployed :
      (now : ℕ) (main : Dict String Service) (branches : Dict String (Dict String Service))
      (created : Dict String ℕ) (pcs : List Change) (out : Out)
      → Deployed Q out.1
      → Deployed Q (open_changes_onto now main branches created pcs out).1
  unfolding open_changes_onto
  open_changes_onto-Deployed now main branches created [] out h = h
  open_changes_onto-Deployed now main branches created (pc ∷ pcs) out h =
      open_changes_onto-Deployed now main branches created pcs _
        (open_change-Deployed now main (opening_of created pc) pc _ out h)
