-- ===== src/Lifecycle/Stages.antt =====
-- The stages of the services on main, of build in src/solution_arista_avd/service_lifecycle.py. The
-- state and the samples are passed from part to part.
use infrahub_network_field_d.Base.{
  ℕ, String, Bool, true, false, ◌||◌, not, Option, none, some, List, [], ◌∷◌, ◌++◌, if◌then◌else◌,
  ◌==◌, string_eq, option_eq, pair_eq, leb, ltb, str_leb, keep_if, length,
}
use infrahub_network_field_d.Base.Dict.{Dict, get, put}
use infrahub_network_field_d.Lifecycle.Schema.{
  Service, Labels, Sample, Deployment, Seen, State, or_zero, nonzero,
}

abbrev pub Out : Type 0
Out = State × List Sample

-- The keyword arguments of `stage` beside the service's own.
pub record Extra : Type 0 where
  pub branch : String
  pub proposed_change : String
  pub change : String
  pub validation : String

abbrev pub on_main : Extra
on_main = record { branch = "main"; proposed_change = ""; change = ""; validation = "" }

abbrev pub stage_labels : Service → String → Extra → Labels
stage_labels s stage_name extra =
    ("service_kind", s.kind)
    ∷ ("service", s.name)
    ∷ ("owner", s.owner)
    ∷ ("requester", s.requester)
    ∷ ("stage", stage_name)
    ∷ ("status", s.status)
    ∷ ("branch", extra.branch)
    ∷ ("proposed_change", extra.proposed_change)
    ∷ ("change", extra.change)
    ∷ ("validation", extra.validation)
    ∷ []

-- since if since is not None else first_seen.setdefault(key, now)
abbrev or_first : Option ℕ → Option ℕ → ℕ → ℕ
or_first (some at) first now = at
or_first none (some at) now = at
or_first none none now = now

abbrev setdefault :
    Dict ((String × String) × String) ℕ
    → (String × String) × String
    → ℕ
    → Option ℕ
    → Dict ((String × String) × String) ℕ
setdefault d key now none = put d key now
setdefault d key now (some at) = d

abbrev pub stage_sample : Service → String → Extra → Sample
stage_sample s stage_name extra = record {
  metric = "otternet_service_stage";
  labels = stage_labels s stage_name extra;
  value = 1;
}

unfoldable pub stage : ℕ → Service → String → Option ℕ → Extra → Out → Out
stage now s stage_name since extra (state, samples) =
    let key : (String × String) × String = ((s.id, stage_name), extra.branch) in
    let first = get state.first_seen key in
    (
      record state { first_seen = setdefault state.first_seen key now first },
      samples
          ++ stage_sample s stage_name extra
            ∷ record {
              metric = "otternet_service_stage_since_timestamp_seconds";
              labels =
                  ("service_kind", s.kind)
                  ∷ ("service", s.name)
                  ∷ ("stage", stage_name)
                  ∷ ("branch", extra.branch)
                  ∷ [];
              value = or_first since first now;
            }
            ∷ [],
    )

-- state.names[service.id] = (service.kind, service.name)
abbrev pub remember : Dict String (String × String) → List Service → Dict String (String × String)
remember names [] = names
remember names (s ∷ ss) = remember (put names s.id (s.kind, s.name)) ss

abbrev pub max : ℕ → ℕ → ℕ
max a b = if leb a b then b else a

-- The latest event about each service.
unfoldable pub last_event : Dict String ℕ → List Seen → Dict String ℕ
last_event d [] = d
last_event d (e ∷ es) = last_event (put d e.node_id (max (or_zero (get d e.node_id)) e.at)) es

-- A service with the time of its last change on main, by its metadata or its events.
abbrev pub dated : Dict String ℕ → String × Service → String × Service
dated latest (id, s) =
    (id, record s { changed_at = nonzero (max (or_zero s.changed_at) (or_zero (get latest id))) })

-- service.status in WITHDRAWN
abbrev pub is_withdrawn : Service → Bool
is_withdrawn s = s.status == "decommissioning" || s.status == "decommissioned"

abbrev pub precedes : ℕ → Option ℕ → Bool
precedes confirmed none = false
precedes confirmed (some changed) = ltb confirmed changed

abbrev pub is_stale : Option ℕ → Option ℕ → Bool
is_stale none changed = true
is_stale (some confirmed) changed = precedes confirmed changed

-- A device that is not confirmed in sync since the service changed.
unfoldable pub is_pending : Service → Deployment → Bool
is_pending s r = not (r.status == some "in_sync") || is_stale r.last_confirmed_at s.changed_at

abbrev pub pending_sample : Service → ℕ → Sample
pending_sample s n = record {
  metric = "otternet_service_deploy_pending_devices";
  labels = ("service_kind", s.kind) ∷ ("service", s.name) ∷ [];
  value = n;
}

unfoldable pub live_stage : ℕ → List Deployment → Service → Out → Out
unfolding is_pending stage
live_stage now tracked s out =
    if is_withdrawn s
    then stage now s "decommissioning" s.changed_at on_main out
    else let pending = length (keep_if (is_pending s) tracked) in
      let counted : Out = (out.0, out.1 ++ pending_sample s pending ∷ []) in
      if ltb 0 pending
      then stage now s "merged" s.changed_at on_main counted
      else stage now s "deployed" none on_main counted

unfoldable pub live_stages : ℕ → List Deployment → List Service → Out → Out
unfolding live_stage
live_stages now tracked [] out = out
live_stages now tracked (s ∷ ss) out = live_stages now tracked ss (live_stage now tracked s out)

abbrev pub service_leb : Service → Service → Bool
service_leb a b = if a.kind == b.kind then str_leb a.name b.name else str_leb a.kind b.kind
