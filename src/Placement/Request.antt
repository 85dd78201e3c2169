-- ===== src/Placement/Request.antt =====
-- The requests of generators/generate_server_placement.py, and what makes one valid.

use infrahub_network_field_d.Base.{
  String, Bool, false, ◌||◌, Option, none, some, List, [], ◌∷◌, map, if◌then◌else◌, ◌==◌, string_eq,
  option_eq, keep_if, contains,
}
use infrahub_network_field_d.Base.Result.{Result, ok, err, ◌>>=◌}

pub record Rack : Type 0 where
  pub id : String
  pub name : Option String

pub record Machine : Type 0 where
  pub id : String
  pub name : Option String

pub record Placement : Type 0 where
  pub id : String
  pub name : Option String
  pub hostname : Option String
  pub status : Option String
  pub server_role : Option String
  pub description : Option String
  pub rack : Option Rack
  pub template : Option String
  pub server : Option Machine

-- The query's answer: the nodes of the edges of the target, and the machines that exist.
pub record Query : Type 0 where
  pub target : List (Option Placement)
  pub compute_physical_server : List Machine

pub record PlacementContext : Type 0 where
  pub placement : Placement
  pub name : Option String
  pub hostname : String
  pub role : String
  pub rack_id : String
  pub rack_name : Option String
  pub template_id : String
  pub description : Option String
  pub adopted : Option String

-- a value that Python takes for false gives way to another
abbrev pub or_text : Option String → String → String
or_text none other = other
or_text (some t) other = if t == "" then other else t

abbrev pub text_of : Option String → String
text_of none = "None"
text_of (some t) = t

abbrev pub matching : List Machine → String → List Machine
matching existing hostname = keep_if (λ m. m.name == some hostname) existing

abbrev pub recorded_in : Option String → List String → Bool
recorded_in none ids = false
recorded_in (some id) ids = contains ids id

abbrev pub collision : String
collision = "a machine of this name already exists and this service does not record it"

abbrev pub adopt : List Machine → Option String → Result (Option String)
adopt [] recorded_id = ok none
adopt (m ∷ ms) recorded_id =
    if recorded_in recorded_id (map (λ (x : Machine). x.id) (m ∷ ms))
    then ok recorded_id
    else err collision

unfoldable pub adopted_id : List Machine → String → Option String → Result (Option String)
adopted_id existing hostname recorded_id = adopt (matching existing hostname) recorded_id

-- parsed.target.edges[0].node if parsed.target.edges else None
abbrev pub first_target : List (Option Placement) → Option Placement
first_target [] = none
first_target (p ∷ ps) = p

abbrev pub given : {A : Type 0} → Option A → String → Result A
given none message = err message
given (some a) message = ok a

abbrev pub given_text : Option String → String → Result String
given_text none message = err message
given_text (some t) message = if t == "" then err message else ok t

abbrev pub machine_id : Option Machine → Option String
machine_id none = none
machine_id (some m) = some m.id

abbrev pub no_target : String
no_target = "no ServiceServerPlacement matched the requested name"

abbrev pub context_of : Placement → String → Rack → String → Option String → PlacementContext
context_of placement hostname rack template adopted = record {
  placement = placement;
  name = placement.name;
  hostname = hostname;
  role = or_text placement.server_role "compute";
  rack_id = rack.id;
  rack_name = rack.name;
  template_id = template;
  description = placement.description;
  adopted = adopted;
}

-- Everything that validate_model checks of a placement.
unfoldable pub validate_placement : List Machine → Placement → Result PlacementContext
unfolding adopted_id
validate_placement machines p =
    given_text p.hostname "the placement states no hostname" >>= λ hostname.
    (given p.rack "the placement names no rack" >>= λ rack.
    (given p.template "the placement names no object template" >>= λ template.
    (adopted_id machines hostname (machine_id p.server) >>= λ adopted.
    ok (context_of p hostname rack template adopted))))

unfoldable pub validate_model : Query → Result PlacementContext
unfolding validate_placement
validate_model parsed =
    given (first_target parsed.target) no_target
    >>= validate_placement parsed.compute_physical_server

-- WITHDRAWN_STATUSES
abbrev pub is_withdrawn : Placement → Bool
is_withdrawn p = p.status == some "decommissioning" || p.status == some "decommissioned"
