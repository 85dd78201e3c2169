-- ===== src/Lifecycle/Departures.antt =====
-- What left main or merged into it, of build in src/solution_arista_avd/service_lifecycle.py.
use infrahub_network_field_d.Base.{
  ℕ, ◌+◌, String, Bool, ◌&&◌, not, Option, none, some, List, [], ◌∷◌, ◌++◌, map, if◌then◌else◌,
  ◌==◌, string_eq, pair_eq, leb, ltb, str_leb, contains, keep_if, sort,
}
use infrahub_network_field_d.Base.Dict.{Dict, get, put, values}
use Prim.Native.String.{◌++◌ as append}
use infrahub_network_field_d.Lifecycle.Schema.{
  Service, Sample, Seen, Merge, State, removed_window, or_zero, shorten,
}
use infrahub_network_field_d.Lifecycle.Stages.{Out, stage, on_main, max}

-- now - when > REMOVED_WINDOW
abbrev pub is_old : ℕ → ℕ → Bool
is_old now at = ltb (at + removed_window) now

-- The events that stay.
unfoldable pub recent_events : ℕ → Dict String Seen → Dict String Seen
recent_events now = keep_if (λ e. not (is_old now e.1.at))

unfoldable pub recent_merges : ℕ → Dict String Merge → Dict String Merge
recent_merges now = keep_if (λ e. not (is_old now e.1.at))

abbrev pub event_sample : Seen → Sample
event_sample e = record {
  metric = "otternet_service_event_timestamp_seconds";
  labels =
      ("service_kind", e.kind)
      ∷ ("service", e.name)
      ∷ ("event", e.verb)
      ∷ ("status", e.status)
      ∷ [];
  value = e.at;
}

unfoldable pub event_samples : ℕ → Dict String Seen → List Sample
unfolding sort recent_events
event_samples now events =
    map event_sample (sort (λ (a b : Seen). leb a.at b.at) (values (recent_events now events)))

-- The deleted services that no live one has the kind and name of, with the latest deletion.
unfoldable pub removed_onto :
    List (String × String) → Dict (String × String) ℕ → List Seen → Dict (String × String) ℕ
removed_onto live d [] = d
removed_onto live d (e ∷ es) =
    if e.verb == "deleted" && not (contains live (e.kind, e.name))
    then removed_onto live (put d (e.kind, e.name) (max (or_zero (get d (e.kind, e.name))) e.at)) es
    else removed_onto live d es

abbrev removed_leb : (String × String) × ℕ → (String × String) × ℕ → Bool
removed_leb a b =
    if a.0.0 == b.0.0
    then (if a.0.1 == b.0.1 then leb a.1 b.1 else str_leb a.0.1 b.0.1)
    else str_leb a.0.0 b.0.0

abbrev pub gone : String → String → ℕ → Service
gone kind name at = record {
  id = append "removed:" (append kind (append ":" name));
  kind = kind;
  name = name;
  status = "";
  owner = "";
  requester = "";
  changed_at = some at;
  created_at = none;
}

unfoldable pub removed_stages : ℕ → List ((String × String) × ℕ) → Out → Out
unfolding stage
removed_stages now [] out = out
removed_stages now (((kind, name), at) ∷ rs) out =
    removed_stages now rs (stage now (gone kind name at) "removed" (some at) on_main out)

abbrev known_as : Option (String × String) → String → String → String × String
known_as none pc_id branch = (append "id:" (shorten 8 pc_id), branch)
known_as (some c) pc_id branch = c

unfoldable pub merge_sample : Dict String (String × String) → Merge → Sample
unfolding shorten
merge_sample pc_names m =
    let known = known_as (get pc_names m.pc_id) m.pc_id m.branch in
    record {
      metric = "otternet_proposed_change_merged_timestamp_seconds";
      labels =
          ("proposed_change", known.0)
          ∷ ("branch", if known.1 == "" then m.branch else known.1)
          ∷ [];
      value = m.at;
    }

-- The events: those that are old are forgotten.
unfoldable pub report_events : ℕ → Out → Out
unfolding recent_events event_samples
report_events now (state, samples) = (
  record state { events = recent_events now state.events },
  samples ++ event_samples now state.events,
)

-- sorted(removed.items())
unfoldable pub removed_services : List (String × String) → State → List ((String × String) × ℕ)
unfolding removed_onto sort
removed_services live state = sort removed_leb (removed_onto live [] (values state.events))

unfoldable pub merge_samples : Dict String (String × String) → Dict String Merge → List Sample
unfolding merge_sample
merge_samples pc_names merged = map (merge_sample pc_names) (values merged)

-- The merged changes: those that are old are forgotten.
unfoldable pub report_merges : ℕ → Out → Out
unfolding recent_merges merge_samples
report_merges now (state, samples) = (
  record state { merged = recent_merges now state.merged },
  samples ++ merge_samples state.pc_names (recent_merges now state.merged),
)

-- The end of build: the events, the removed services and the merged changes.
unfoldable pub departures : ℕ → List (String × String) → Out → Out
unfolding report_events removed_services removed_stages report_merges
departures now live out =
    let kept = report_events now out in
    report_merges now (removed_stages now (removed_services live kept.0) kept)
