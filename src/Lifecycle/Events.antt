-- ===== src/Lifecycle/Events.antt =====
-- validation_of and absorb_events of src/solution_arista_avd/service_lifecycle.py.
pub mod Since
use infrahub_network_field_d.Base.{
  ℕ, String, Bool, ◌&&◌, not, Option, none, some, List, [], ◌∷◌, ◌++◌, if◌then◌else◌, ◌==◌,
  string_eq, option_eq, pair_eq, leb, any_of, contains, is_empty, sort,
}
use infrahub_network_field_d.Base.Dict.{Dict, get, put}
use infrahub_network_field_d.Base.Text.{codes, starts_with}
use Prim.Native.String.{◌++◌ as append}
use infrahub_network_field_d.Lifecycle.Schema.{
  Validator, Event, State, text_or_empty, or_zero, shorten,
}

-- validation_of, of the validators' nodes
unfoldable pub validation_of : List Validator → String
validation_of validators =
    if is_empty validators
    then "pending"
    else if any_of (λ v. v.conclusion == some "failure") validators
    then "failed"
    else if any_of (λ v. not (v.state == some "completed")) validators
    then "running"
    else "passed"

abbrev present : List (String × Option String) → List String
present [] = []
present ((name, none) ∷ as') = present as'
present ((name, some v) ∷ as') = name ∷ present as'

-- {a.get("name"): a.get("value")}: the last one of a name counts
abbrev attrs_onto :
    Dict String (Option String) → List (String × Option String) → Dict String (Option String)
attrs_onto d [] = d
attrs_onto d ((name, v) ∷ as') = attrs_onto (put d name v) as'

abbrev joined : Option (Option String) → String
joined none = ""
joined (some o) = text_or_empty o

abbrev attribute : Event → String → String
attribute e name = joined (get (attrs_onto [] e.attributes) name)

-- A creation that shows its kind to be a service's.
unfoldable pub shows_kind : Event → Bool
unfolding starts_with
shows_kind e =
    e.event == "infrahub.node.created"
    && (starts_with (codes "Service") (codes (text_or_empty e.primary_kind))
        && (contains (present e.attributes) "name" && contains (present e.attributes) "status"))

-- state.kinds, after the first loop
unfoldable pub kinds_onto : List String → List Event → List String
unfolding shows_kind
kinds_onto kinds [] = kinds
kinds_onto kinds (e ∷ es) =
    if shows_kind e
    then kinds_onto (text_or_empty e.primary_kind ∷ kinds) es
    else kinds_onto kinds es

abbrev verb_of : String → String
verb_of event =
    if event == "infrahub.node.created"
    then "created"
    else if event == "infrahub.node.deleted"
    then "deleted"
    else "status"

abbrev known_change : Option (String × String) → String × String
known_change none = ("", "")
known_change (some c) = c

-- The state, and the proposed changes whose names are not known.
abbrev pub Absorbed : Type 0
Absorbed = State × List String

abbrev absorb_merge : Absorbed → (id : String) → Event → ℕ → Absorbed
absorb_merge (state, unknown) id e at =
    let pc_id = text_or_empty e.primary_id in
    let change = known_change (get state.pc_names pc_id) in
    (
      record state {
        merged = put state.merged id (record { at = at; pc_id = pc_id; branch = change.1 });
      },
      if change.0 == "" then unknown ++ pc_id ∷ [] else unknown,
    )

abbrev name_known : State → Event → State
name_known state e = if attribute e "name" == "" then state else record state {
  names =
      put state.names (text_or_empty e.primary_id)
        (text_or_empty e.primary_kind, attribute e "name");
}

abbrev name_of : Option (String × String) → String → String
name_of none node_id = append "id:" (shorten 8 node_id)
name_of (some n) node_id = n.1

abbrev absorb_mutation : Absorbed → (id : String) → Event → ℕ → Absorbed
unfolding shorten
absorb_mutation (state, unknown) id e at =
    let named = name_known state e in
    let node_id = text_or_empty e.primary_id in
    let verb = verb_of e.event in
    let status = attribute e "status" in
    if verb == "status" && status == "" then (named, unknown) else (
      record named {
        events = put named.events id (record {
          at = at;
          kind = text_or_empty e.primary_kind;
          name = name_of (get named.names node_id) node_id;
          verb = verb;
          status = status;
          node_id = node_id;
        });
      },
      unknown,
    )

-- The second loop's turn, for an event with an id and a time.
unfoldable pub absorb_event : List String → Absorbed → Event → (id : String) → ℕ → Absorbed
unfolding shorten
absorb_event kinds a e id at =
    if e.event == "infrahub.proposed_change.merged"
    then absorb_merge a id e at
    else if contains kinds (text_or_empty e.primary_kind)
    then absorb_mutation a id e at
    else a

abbrev absorb_dated : List String → Absorbed → Event → Option String → Option ℕ → Absorbed
unfolding absorb_event
absorb_dated kinds a e none at = a
absorb_dated kinds a e (some id) none = a
absorb_dated kinds a e (some id) (some at) = if id == "" then a else absorb_event kinds a e id at

unfoldable pub absorb_onto : List String → Absorbed → List Event → Absorbed
unfolding absorb_event
absorb_onto kinds a [] = a
absorb_onto kinds a (e ∷ es) = absorb_onto kinds (absorb_dated kinds a e e.id e.occurred_at) es

-- absorb_events: oldest first
unfoldable pub absorb_events : State → List Event → List String → Absorbed
unfolding sort kinds_onto absorb_onto
absorb_events state edges kinds =
    let ordered =
      sort (λ (a b : Event). leb (or_zero a.occurred_at) (or_zero b.occurred_at)) edges in
    let known = record state { kinds = kinds_onto state.kinds ordered } in
    absorb_onto (kinds ++ known.kinds) (known, []) ordered
