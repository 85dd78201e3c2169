-- ===== src/Lifecycle/Schema.antt =====
-- What src/solution_arista_avd/service_lifecycle.py reads, keeps and reports. A timestamp is read by
-- `parse_time` already: a number of seconds, or nothing. A dictionary of a GraphQL answer is a
-- record of the fields that the exporter reads, nothing where one is missing or null.
use infrahub_network_field_d.Base.{
  ℕ, zero, suc, ◌*◌, String, Bool, Option, none, some, List, [], ◌∷◌, if◌then◌else◌, ◌==◌,
  string_eq, pair_eq, option_eq,
}
use infrahub_network_field_d.Base.Dict.{Dict, put}
use Prim.Native.String as Str

pub record ServiceEdge : Type 0 where
  pub id : Option String
  pub typename : Option String
  pub name : Option String
  pub status : Option String
  pub owner : Option String
  pub requester : Option String
  pub created_by : Option String
  pub updated_at : Option ℕ
  pub created_at : Option ℕ

pub record Service : Type 0 where
  pub id : String
  pub kind : String
  pub name : String
  pub status : String
  pub owner : String
  pub requester : String
  pub changed_at : Option ℕ
  pub created_at : Option ℕ

abbrev pub Labels : Type 0
Labels = Dict String String

pub record Sample : Type 0 where
  pub metric : String
  pub labels : Labels
  pub value : ℕ

pub record Validator : Type 0 where
  pub state : Option String
  pub conclusion : Option String

pub record Change : Type 0 where
  pub id : Option String
  pub name : Option String
  pub source_branch : Option String
  pub destination_branch : Option String
  pub validations : List Validator
  pub created_at : Option ℕ

pub record Deployment : Type 0 where
  pub status : Option String
  pub suspend : Bool
  pub last_confirmed_at : Option ℕ

pub record Event : Type 0 where
  pub id : Option String
  pub event : String
  pub occurred_at : Option ℕ
  pub primary_id : Option String
  pub primary_kind : Option String
  pub attributes : List (String × Option String)

-- An event about a service that is remembered.
pub record Seen : Type 0 where
  pub at : ℕ
  pub kind : String
  pub name : String
  pub verb : String
  pub status : String
  pub node_id : String

pub record Merge : Type 0 where
  pub at : ℕ
  pub pc_id : String
  pub branch : String

pub record State : Type 0 where
  pub names : Dict String (String × String)
  pub events : Dict String Seen
  pub merged : Dict String Merge
  pub first_seen : Dict ((String × String) × String) ℕ
  pub pc_names : Dict String (String × String)
  pub kinds : List String
  pub events_since : Option ℕ

abbrev pub removed_window : ℕ
removed_window = 24 * 3600

-- str(value or "")
abbrev pub text_or_empty : Option String → String
text_or_empty none = ""
text_or_empty (some t) = t

abbrev pub or_zero : Option ℕ → ℕ
or_zero none = 0
or_zero (some n) = n

-- n or None
abbrev pub nonzero : ℕ → Option ℕ
nonzero zero = none
nonzero (suc n) = some (suc n)

-- a or b, for texts
abbrev pub or_else : Option String → Option String → Option String
or_else none other = other
or_else (some t) other = if t == "" then other else some t

-- text[:n]
unfoldable pub shorten : ℕ → String → String
shorten zero t = ""
shorten (suc n) Str.[] = ""
shorten (suc n) (Str.◌∷◌ c t) = Str.◌∷◌ c (shorten n t)

-- services_from
abbrev service_at : String → ServiceEdge → Service
service_at id e = record {
  id = id;
  kind = text_or_empty e.typename;
  name = text_or_empty e.name;
  status = text_or_empty e.status;
  owner = text_or_empty e.owner;
  requester = text_or_empty (or_else e.requester e.created_by);
  changed_at = e.updated_at;
  created_at = e.created_at;
}

abbrev add_edge : Dict String Service → ServiceEdge → Option String → Dict String Service
add_edge found e none = found
add_edge found e (some id) = if id == "" then found else put found id (service_at id e)

unfoldable pub services_onto : Dict String Service → List ServiceEdge → Dict String Service
services_onto found [] = found
services_onto found (e ∷ es) = services_onto (add_edge found e e.id) es

unfoldable pub services_from : List ServiceEdge → Dict String Service
unfolding services_onto
services_from edges = services_onto [] edges
