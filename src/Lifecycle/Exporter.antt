-- ===== src/Lifecycle/Exporter.antt =====
-- Exporter of src/solution_arista_avd/service_lifecycle.py: a poll of Infrahub, and what it leaves
-- when it fails. A poll may change the state before it fails.
use infrahub_network_field_d.Base.{
  distinct, ℕ, zero, suc, ◌+◌, ◌-◌, String, Bool, true, false, ◌&&◌, not, Option, none, some, List,
  [], ◌∷◌, ◌++◌, map, if◌then◌else◌, ◌==◌, string_eq, ltb, str_leb, contains, length, is_empty,
  sort,
}
use infrahub_network_field_d.Base.Dict.{Dict, put, keys, values}
use infrahub_network_field_d.Base.Members.{each}
use infrahub_network_field_d.Lifecycle.Schema.{
  ServiceEdge, Service, Sample, Change, Deployment, Event, State, removed_window, text_or_empty,
  services_from,
}
use infrahub_network_field_d.Lifecycle.Events.{absorb_events}
use infrahub_network_field_d.Lifecycle.Requests.{text_of}
use infrahub_network_field_d.Lifecycle.Build.{Snapshot, build}
use infrahub_network_field_d.Lifecycle.Stages.{Out}

-- What a query gives: its answer, or an exception with its text.
pub data Reply (A : Type 0) : Type 0 where
  answer : A → Reply A
  runtime_error : String → Reply A
  other_error : String → Reply A

infixl 10 ◌andthen◌
abbrev pub ◌andthen◌ : {A B : Type 0} → Reply A → (A → Reply B) → Reply B
answer a andthen f = f a
runtime_error e andthen f = runtime_error e
other_error e andthen f = other_error e

pub record MainAnswer : Type 0 where
  pub open_changes : List Change
  pub deployment : List Deployment
  pub branches : List (Option String × Option ℕ)

pub record NamedChange : Type 0 where
  pub id : Option String
  pub name : Option String
  pub source_branch : Option String

-- The queries, as Infrahub answers them during one poll.
pub record Infrahub : Type 0 where
  pub services : (branch : String) → Reply (List ServiceEdge)
  pub main : Reply MainAnswer
  pub events : (since offset : ℕ) → Reply (List Event)
  pub proposed_changes : (ids : List String) → Reply (List NamedChange)

abbrev Branches : Type 0
Branches = Dict String (Dict String Service)

abbrev is_new_branch : Branches → String → Bool
is_new_branch branches b = not (b == "") && (not (b == "main") && not (contains (keys branches) b))

-- A branch that is gone is left out; any other failure is the poll's.
abbrev pub add_branch : Branches → String → Reply (List ServiceEdge) → Reply Branches
add_branch branches b (answer edges) = answer (put branches b (services_from edges))
add_branch branches b (runtime_error e) = answer branches
add_branch branches b (other_error e) = other_error e

unfoldable pub gather_branches : Infrahub → List Change → Branches → Reply Branches
gather_branches w [] branches = answer branches
gather_branches w (pc ∷ pcs) branches =
    let b = text_or_empty pc.source_branch in
    (if is_new_branch branches b then add_branch branches b (w.services b) else answer branches)
    andthen gather_branches w pcs

abbrev kinds_of : Dict String Service → List String
kinds_of d = map (λ (s : Service). s.kind) (values d)

-- The pages of events from an offset on; at most as many as are left.
unfoldable pub collect_pages : Infrahub → (since left offset : ℕ) → List Event → Reply (List Event)
collect_pages w since zero offset collected = answer collected
collect_pages w since (suc left) offset collected = w.events since offset andthen λ edges.
    elim (ltb (length edges) 50) [
      | true ↦ answer (collected ++ edges)
      | false ↦ collect_pages w since left (offset + 50) (collected ++ edges)
    ]

abbrev since_of : Option ℕ → ℕ → ℕ
since_of none now = now - removed_window
since_of (some at) now = at

abbrev name_changes :
    Dict String (String × String) → List NamedChange → Dict String (String × String)
name_changes names [] = names
name_changes names (c ∷ cs) =
    name_changes (put names (text_of c.id) (text_or_empty c.name, text_or_empty c.source_branch)) cs

abbrev created_onto : Dict String ℕ → List (Option String × Option ℕ) → Dict String ℕ
created_onto d [] = d
created_onto d ((name, none) ∷ bs) = created_onto d bs
created_onto d ((name, some at) ∷ bs) = created_onto (put d (text_of name) at) bs

-- The names of the proposed changes that are not known: asked for once, sorted.
unfoldable pub ask_names : Infrahub → List String → Reply (List NamedChange)
unfolding sort distinct
ask_names w unknown =
    if is_empty unknown then answer [] else w.proposed_changes (sort str_leb (distinct unknown))

-- What a poll read before it turned to the events.
pub record Reading : Type 0 where
  pub main : Dict String Service
  pub rest : MainAnswer
  pub branches : Branches
  pub collected : List Event

unfoldable pub read : Infrahub → Option ℕ → ℕ → Reply Reading
unfolding gather_branches collect_pages services_from
read w events_since now = w.services "main" andthen λ edges.
    (w.main andthen λ rest.
    (gather_branches w rest.open_changes [] andthen λ branches.
    (collect_pages w (since_of events_since now - 5) 200 0 [] andthen λ collected. answer (record {
      main = services_from edges;
      rest = rest;
      branches = branches;
      collected = collected;
    }))))

-- {s.kind ...} | {kind for kind, _ in state.names.values()}
abbrev pub kinds_seen : State → Reading → List String
kinds_seen state r =
    kinds_of r.main
    ++ (each (λ (b : String × Dict String Service). kinds_of b.1) r.branches
        ++ map (λ (n : String × String). n.0) (values state.names))

abbrev pub Polled : Type 0
Polled = State × Reply (List Sample)

abbrev snapshot_of : Reading → Snapshot
snapshot_of r = record {
  main = r.main;
  branches = r.branches;
  open_changes = r.rest.open_changes;
  deployment = r.rest.deployment;
  branch_created = created_onto [] r.rest.branches;
}

abbrev built : Out → Polled
built (state, samples) = (state, answer samples)

unfoldable pub conclude : Reading → ℕ → State → Reply (List NamedChange) → Polled
unfolding build
conclude r now state (runtime_error e) = (state, runtime_error e)
conclude r now state (other_error e) = (state, other_error e)
conclude r now state (answer named) =
    let known = record state {
      pc_names = name_changes state.pc_names named;
      events_since = some now;
    } in
    built (build (snapshot_of r) known now)

unfoldable pub poll_reading : Infrahub → State → ℕ → Reply Reading → Polled
unfolding conclude ask_names absorb_events
poll_reading w state now (runtime_error e) = (state, runtime_error e)
poll_reading w state now (other_error e) = (state, other_error e)
poll_reading w state now (answer r) =
    let absorbed = absorb_events state r.collected (kinds_seen state r) in
    conclude r now absorbed.0 (ask_names w absorbed.1)

unfoldable pub poll : Infrahub → ℕ → State → Polled
unfolding poll_reading read
poll w now state = poll_reading w state now (read w state.events_since now)

pub record Exporter : Type 0 where
  pub state : State
  pub samples : List Sample
  pub up : Bool
  pub polled_at : ℕ
  pub errors : ℕ
  pub last_error : String

abbrev pub failed : Exporter → State → String → Exporter
failed e state message = record e {
  state = state;
  up = false;
  errors = e.errors + 1;
  last_error = message;
}

abbrev pub after : Exporter → ℕ → Polled → Exporter
after e now (state, answer samples) = record e {
  state = state;
  samples = samples;
  up = true;
  polled_at = now;
}
after e now (state, runtime_error m) = failed e state m
after e now (state, other_error m) = failed e state m

unfoldable pub poll_safely : Infrahub → ℕ → Exporter → Exporter
unfolding poll
poll_safely w now e = after e now (poll w now e.state)

-- The timer's polls, each with the time and what Infrahub answers.
unfoldable pub polls : List (ℕ × Infrahub) → Exporter → Exporter
unfolding poll_safely
polls [] e = e
polls ((now, w) ∷ rounds) e = polls rounds (poll_safely w now e)
