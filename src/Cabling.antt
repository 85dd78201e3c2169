-- ===== src/Cabling.antt =====
-- src/solution_arista_avd/cabling.py: the plans for pods and servers, with the one for racks in
-- Cabling/Racks, and the connectors that a plan populates. A device's interfaces are a list of
-- their ids; an interface map is a list of such lists, in the order of the dictionary, whose keys
-- these plans only count.
pub mod Planned
pub mod Racks
pub mod Connected
use infrahub_network_field_d.Base.{
  ℕ, zero, suc, ◌+◌, ◌-◌, ◌*◌, ◌/◌, ◌%◌, String, Bool, true, false, not, Option, none, some, List,
  [], ◌∷◌, ◌++◌, if◌then◌else◌, ◌==◌, string_eq, leb, length, get_elem?, take, map,
}
use infrahub_network_field_d.Base.Dict.{Dict, get, put}
use infrahub_network_field_d.Base.Result.{Result, ok, err, ◌>>=◌}

abbrev pub Plan : Type 0
Plan = List (String × String)

abbrev pub at_least : Option String → Result String
at_least none = err "list index out of range"
at_least (some i) = ok i

-- xs[plus - minus]: Python counts a negative index from the end.
unfoldable pub item : List String → (plus minus : ℕ) → Result String
item xs plus minus =
    if leb minus plus
    then at_least (get_elem? xs (plus - minus))
    else if leb (minus - plus) (length xs)
    then at_least (get_elem? xs (length xs - (minus - plus)))
    else err "list index out of range"

-- The inner loop of build_pod_cabling_plan: one interface to each destination device, all at one
-- index.
unfoldable pub pod_row : (plus minus : ℕ) → List String → List (List String) → Result Plan
unfolding item
pod_row plus minus [] devices = ok []
pod_row plus minus (s ∷ ss) [] = ok []
pod_row plus minus (s ∷ ss) (d ∷ ds) =
    item d plus minus >>= λ t. (pod_row plus minus ss ds >>= λ rest. ok ((s, t) ∷ rest))

-- The outer loop, from a source index on: the index is (pod_index - 2) * count + src_index.
unfoldable pub pod_rows :
    (pod_index src_index : ℕ) → List (List String) → List (List String) → Result Plan
unfolding pod_row
pod_rows pod_index src_index [] devices = ok []
pod_rows pod_index src_index (ss ∷ rows) devices =
    pod_row (pod_index * length devices + src_index) (2 * length devices) ss devices >>= λ row.
    (pod_rows pod_index (suc src_index) rows devices >>= λ rest. ok (row ++ rest))

-- build_pod_cabling_plan
unfoldable pub build_pod_cabling_plan : ℕ → List (List String) → List (List String) → Result Plan
unfolding pod_rows
build_pod_cabling_plan pod_index sources devices = pod_rows pod_index 0 sources devices

abbrev device_at : Option (List String) → ℕ → Result String
device_at none n = err "list index out of range"
device_at (some d) n = at_least (get_elem? d n)

-- The destination of the source interface at index `i`.
unfoldable pub server_port : ℕ → ℕ → List (List String) → Result String
server_port server_index i [] = err "integer modulo by zero"
server_port server_index i (d ∷ ds) =
    device_at (get_elem? (d ∷ ds) (i % length (d ∷ ds))) (server_index + i / length (d ∷ ds))

unfoldable pub server_row : (server_index i : ℕ) → List String → List (List String) → Result Plan
unfolding server_port
server_row server_index i [] devices = ok []
server_row server_index i (s ∷ ss) devices = server_port server_index i devices >>= λ t.
    (server_row server_index (suc i) ss devices >>= λ rest. ok ((s, t) ∷ rest))

-- build_server_cabling_plan
unfoldable pub build_server_cabling_plan : ℕ → List (List String) → List (List String) → Result Plan
unfolding server_row
build_server_cabling_plan server_index [] devices = ok []
build_server_cabling_plan server_index (ss ∷ rows) devices =
    server_row server_index 0 ss devices >>= λ row.
    (build_server_cabling_plan server_index rows devices >>= λ rest. ok (row ++ rest))

-- An interface of Infrahub: the id of its connector, and its status.
pub record Interface : Type 0 where
  pub connector : Option String
  pub status : String

-- `if connector_id`
abbrev pub is_connected : Interface → Bool
is_connected i = elim i.connector [ none ↦ false | some c ↦ not (c == "") ]

abbrev connect_found :
    Dict String Interface → String → String → Option Interface → Result (Dict String Interface)
connect_found d link id none = err "interface not found"
connect_found d link id (some i) =
    if is_connected i
    then ok d
    else ok (put d id (record { connector = some link; status = "active" }))

-- _connect_interface_if_missing, without the Boolean that is only logged
unfoldable pub connect_interface_if_missing :
    Dict String Interface → String → String → Result (Dict String Interface)
connect_interface_if_missing d link id = connect_found d link id (get d id)

-- connect_interface_maps: the upsert of the link by its name gives its id, a function of the ends.
unfoldable pub connect_interface_maps :
    (String → String → String) → Dict String Interface → Plan → Result (Dict String Interface)
unfolding connect_interface_if_missing
connect_interface_maps link_of d [] = ok d
connect_interface_maps link_of d ((s, t) ∷ plan) =
    connect_interface_if_missing d (link_of s t) s >>= λ e.
    (connect_interface_if_missing e (link_of s t) t >>= λ f. connect_interface_maps link_of f plan)
