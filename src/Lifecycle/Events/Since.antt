-- ===== src/Lifecycle/Events/Since.antt =====
-- What absorb_events of src/solution_arista_avd/service_lifecycle.py leaves of the state.
use infrahub_network_field_d.Base.{
  ℕ, String, Bool, true, false, ◌&&◌, Option, none, some, List, [], ◌∷◌, ◌≡◌, refl, if◌then◌else◌,
  ◌==◌, string_eq, ◌++◌, sort, leb, contains,
}
use infrahub_network_field_d.Lifecycle.Schema.{State, Event, or_zero, text_or_empty}
use infrahub_network_field_d.Lifecycle.Events.{
  Absorbed, absorb_event, absorb_dated, absorb_mutation, attribute, verb_of, kinds_onto,
  absorb_onto, absorb_events,
}

-- The two states are of the same last good poll: the time that events are asked from, when each
-- service was first seen, and the names of the proposed changes.
abbrev pub IsSince : State → State → Type 0
IsSince s z =
    (z.events_since ≡ s.events_since) × (z.first_seen ≡ s.first_seen) × (z.pc_names ≡ s.pc_names)

if-IsSince :
    (s : State) (b : Bool) (x y : Absorbed)
    → IsSince s x.0
    → IsSince s y.0
    → IsSince s (if b then x else y).0
if-IsSince s true x y p q = p
if-IsSince s false x y p q = q

state-IsSince :
    (s : State) (b : Bool) (x y : State)
    → IsSince s x
    → IsSince s y
    → IsSince s (if b then x else y)
state-IsSince s true x y p q = p
state-IsSince s false x y p q = q

absorb_mutation-IsSince :
    (s : State) (a : Absorbed) (id : String) (e : Event) (at : ℕ)
    → IsSince s a.0
    → IsSince s (absorb_mutation a id e at).0
unfolding absorb_mutation
absorb_mutation-IsSince s (z, unknown) id e at p =
    let named = state-IsSince s (attribute e "name" == "") z _ p p in
    if-IsSince s (verb_of e.event == "status" && attribute e "status" == "") _ _ named named

absorb_event-IsSince :
    (s : State) (kinds : List String) (a : Absorbed) (e : Event) (id : String) (at : ℕ)
    → IsSince s a.0
    → IsSince s (absorb_event kinds a e id at).0
unfolding absorb_event
absorb_event-IsSince s kinds a e id at p =
    if-IsSince s (e.event == "infrahub.proposed_change.merged") _ _ p (
      if-IsSince s (contains kinds (text_or_empty e.primary_kind)) _ a
        (absorb_mutation-IsSince s a id e at p) p)

absorb_dated-IsSince :
    (s : State) (kinds : List String) (a : Absorbed) (e : Event) (id : Option String)
    (at : Option ℕ)
    → IsSince s a.0
    → IsSince s (absorb_dated kinds a e id at).0
unfolding absorb_dated
absorb_dated-IsSince s kinds a e none at p = p
absorb_dated-IsSince s kinds a e (some id) none p = p
absorb_dated-IsSince s kinds a e (some id) (some at) p =
    if-IsSince s (id == "") a _ p (absorb_event-IsSince s kinds a e id at p)

absorb_onto-IsSince :
    (s : State) (kinds : List String) (a : Absorbed) (es : List Event)
    → IsSince s a.0
    → IsSince s (absorb_onto kinds a es).0
unfolding absorb_onto
absorb_onto-IsSince s kinds a [] p = p
absorb_onto-IsSince s kinds a (e ∷ es) p =
    absorb_onto-IsSince s kinds (absorb_dated kinds a e e.id e.occurred_at) es
      (absorb_dated-IsSince s kinds a e e.id e.occurred_at p)

-- Events that are absorbed change none of the three.
pub absorb_events-IsSince :
    (s : State) (es : List Event) (kinds : List String) → IsSince s (absorb_events s es kinds).0
unfolding absorb_events
absorb_events-IsSince s es kinds =
    let ordered = sort (λ (a b : Event). leb (or_zero a.occurred_at) (or_zero b.occurred_at)) es in
    let known = record s { kinds = kinds_onto s.kinds ordered } in
    absorb_onto-IsSince s (kinds ++ known.kinds) (known, []) ordered (refl, refl, refl)
