-- ===== src/Tests/Placements.antt =====
-- Requests for a machine: a new one, one that is placed, one whose hostname is taken, and one that is
-- withdrawn.
use infrahub_network_field_d.Base.{
  String, true, Option, none, some, List, [], ◌∷◌, ◌≡◌, ◌⊎◌, refl, string_eq,
}
use infrahub_network_field_d.Base.Result.{ok, err}
use mathlib.Core.List.{Memᴰ}
use mathlib.Core.List.Memᴰ.{head, tail}
use infrahub_network_field_d.Placement.{
  World, Call, MachineData, upsert_machine, get_service, save_server, save_status, delete_machine,
  generate,
}
use infrahub_network_field_d.Placement.Request.{
  Rack, Machine, Placement, Query, validate_model, first_target, is_withdrawn, machine_id,
  context_of,
}
use infrahub_network_field_d.Placement.Kept.{generate-deletes, generate-IsOwn, IsOwn}
use infrahub_network_field_d.Placement.Refused.{generate-refuses_collision}

abbrev rack : Rack
rack = record { id = "r1"; name = some "rack1" }

abbrev machine : Machine
machine = record { id = "m1"; name = some "node1" }

abbrev requested : String → Option Machine → Placement
requested status server = record {
  id = "p1";
  name = some "request1";
  hostname = some "node1";
  status = some status;
  server_role = none;
  description = none;
  rack = some rack;
  template = some "t1";
  server = server;
}

abbrev query_of : Placement → List Machine → Query
query_of p machines = record { target = some p ∷ []; compute_physical_server = machines }

-- Infrahub, where the service's status is the given one and every call succeeds.
abbrev world : String → World
world status = record {
  saved = λ data'. ok "m1";
  status = λ id. ok (some status);
  written = λ c. ok tt;
}

abbrev saved_data : Option String → MachineData
saved_data id = record {
  name = "node1";
  description = "node1, placed by request1";
  status = "provisioning";
  role = "compute";
  rack = "r1";
  object_template = "t1";
  member_of_groups = "servers" ∷ [];
  id = id;
}

first_run : generate (world "draft") (query_of (requested "draft" none) []) ≡ (
  upsert_machine (saved_data none)
      ∷ get_service "p1"
      ∷ save_server "p1" (some "m1")
      ∷ get_service "p1"
      ∷ save_status "p1" "active"
      ∷ [],
  ok tt,
)
unfolding generate
first_run = refl

withdrawal :
    generate
      (world "decommissioning")
      (query_of (requested "decommissioning" (some machine)) (machine ∷ []))
    ≡ (
      get_service "p1"
          ∷ save_server "p1" none
          ∷ delete_machine "m1"
          ∷ get_service "p1"
          ∷ save_status "p1" "decommissioned"
          ∷ [],
      ok tt,
    )
unfolding generate
withdrawal = refl

deletion :
    Memᴰ
      (delete_machine "m1")
      (generate
        (world "decommissioning")
        (query_of (requested "decommissioning" (some machine)) (machine ∷ []))).0
unfolding generate
deletion = tail (tail (head refl))

generate-deletes_example :
    (p : Placement) × (first_target (some (requested "decommissioning" (some machine)) ∷ [])
      ≡ some p)
    × (is_withdrawn p ≡ true)
    × (machine_id p.server ≡ some "m1")
generate-deletes_example =
    generate-deletes (world "decommissioning")
      (query_of (requested "decommissioning" (some machine)) (machine ∷ [])) "m1" deletion

upsert :
    Memᴰ
      (upsert_machine (saved_data none))
      (generate (world "draft") (query_of (requested "draft" none) [])).0
unfolding generate
upsert = head refl

generate-IsOwn_example :
    (p : Placement) × (first_target (some (requested "draft" none) ∷ []) ≡ some p)
    × IsOwn [] p (saved_data none)
generate-IsOwn_example =
    generate-IsOwn (world "draft") (query_of (requested "draft" none) []) (saved_data none) upsert

generate-refuses_collision_example :
    ((c : Call)
      → Memᴰ c (generate (world "draft") (query_of (requested "draft" none) (machine ∷ []))).0
      → (c ≡ get_service "p1") ⊎ (c ≡ save_status "p1" "error"))
    × ((e : String) × ((generate
            (world "draft")
            (query_of (requested "draft" none) (machine ∷ []))).1
          ≡ err e))
generate-refuses_collision_example =
    generate-refuses_collision (world "draft") (query_of (requested "draft" none) (machine ∷ []))
      (requested "draft" none) machine "node1" "t1" rack refl refl refl refl refl refl (head refl)
      refl refl

placed :
    validate_model (query_of (requested "active" (some machine)) (machine ∷ []))
    ≡ ok (context_of (requested "active" (some machine)) "node1" rack "t1" (some "m1"))
unfolding validate_model
placed = refl
