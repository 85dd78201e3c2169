-- ===== src/Placement.antt =====
-- generators/generate_server_placement.py. A run of the generator is the calls of the client
-- that it makes, in order, with what it returns or raises.

pub mod Request
pub mod Calls
pub mod Kept
pub mod Refused
use Prim.Native.String.{◌++◌ as append}
use infrahub_network_field_d.Base.{
  String, Bool, true, false, ◌||◌, not, Option, none, some, List, [], ◌∷◌, ◌++◌, map, if◌then◌else◌,
  ◌==◌, string_eq, option_eq, keep_if, contains, is_empty,
}
use infrahub_network_field_d.Base.Result.{Result, ok, err, ◌>>=◌}
use infrahub_network_field_d.Placement.Request.{
  Machine, Placement, Query, PlacementContext, or_text, text_of, first_target, given, machine_id,
  no_target, validate_model, is_withdrawn,
}

-- What is saved of a machine.
pub record MachineData : Type 0 where
  pub name : String
  pub description : String
  pub status : String
  pub role : String
  pub rack : String
  pub object_template : String
  pub member_of_groups : List String
  pub id : Option String

-- A call of the client, with what it is given.
pub data Call : Type 0 where
  upsert_machine : MachineData → Call
  get_service : (id : String) → Call
  save_server : (id : String) (server : Option String) → Call
  save_status : (id status : String) → Call
  delete_machine : (id : String) → Call

-- What Infrahub answers: the id of a machine that is saved, the status of a service that is read,
-- and whether a write succeeds; or the exception that is raised.
pub record World : Type 0 where
  pub saved : MachineData → Result String
  pub status : String → Result (Option String)
  pub written : Call → Result {0} Unit

abbrev pub Run : Type 0 → Type 0
Run A = List Call × Result A

infixl 10 ◌then◌
abbrev pub ◌then◌ : {A B : Type 0} → Run A → (A → Run B) → Run B
(calls, err e) then f = (calls, err e)
(calls, ok a) then f = let r = f a in (calls ++ r.0, r.1)

abbrev pub call : {A : Type 0} → Call → Result A → Run A
call c answer = (c ∷ [], answer)

abbrev pub done : Run Unit
done = ([], ok tt)

abbrev pub write : World → Call → Run Unit
write w c = call c (w.written c)

-- _set_status
unfoldable pub set_status : World → String → String → Run Unit
set_status w id status = call (get_service id) (w.status id) then λ now.
    (if now == some status then done else write w (save_status id status))

unfoldable pub machine_data : PlacementContext → MachineData
machine_data c = record {
  name = c.hostname;
  description = or_text c.description (append (append c.hostname ", placed by ") (text_of c.name));
  status = "provisioning";
  role = c.role;
  rack = c.rack_id;
  object_template = c.template_id;
  member_of_groups = "servers" ∷ [];
  id = c.adopted;
}

-- _upsert_server
unfoldable pub upsert_server : World → PlacementContext → Run String
unfolding machine_data
upsert_server w c = call (upsert_machine (machine_data c)) (w.saved (machine_data c))

-- service = await client.get(...); service.server = ...; await service.save(...)
unfoldable pub point_service : World → String → Option String → Run Unit
point_service w id server =
    call (get_service id) (w.status id) then λ s. write w (save_server id server)

-- _record
unfoldable pub record_server : World → PlacementContext → String → Run Unit
unfolding point_service
record_server w c server_id =
    if machine_id c.placement.server == some server_id
    then done
    else point_service w c.placement.id (some server_id)

unfoldable pub withdraw_server : World → Placement → Option Machine → Run Unit
unfolding set_status point_service
withdraw_server w p none = set_status w p.id "decommissioned"
withdraw_server w p (some server) = point_service w p.id none then λ a.
    (write w (delete_machine server.id) then λ b. set_status w p.id "decommissioned")

-- _withdraw
unfoldable pub withdraw : World → Placement → Run Unit
unfolding withdraw_server
withdraw w p = withdraw_server w p p.server

-- The machine is saved, recorded, and the service active.
unfoldable pub place : World → PlacementContext → Run Unit
unfolding upsert_server record_server set_status
place w c = upsert_server w c then λ server_id.
    (record_server w c server_id then λ a. set_status w c.placement.id "active")

-- A request that is not valid: the status is set, and the error raised again.
unfoldable pub refuse : World → Placement → String → Run Unit
unfolding set_status
refuse w p message = set_status w p.id "error" then λ a. ([], err message)

unfoldable pub build : World → Placement → Result PlacementContext → Run Unit
unfolding place refuse
build w p (err message) = refuse w p message
build w p (ok c) = place w c

-- For the placement that the query found.
unfoldable pub run_on : World → Query → Placement → Run Unit
unfolding withdraw build validate_model
run_on w parsed p = if is_withdrawn p then withdraw w p else build w p (validate_model parsed)

unfoldable pub run_first : World → Query → Option Placement → Run Unit
unfolding run_on
run_first w parsed none = ([], err no_target)
run_first w parsed (some p) = run_on w parsed p

unfoldable pub generate : World → Query → Run Unit
unfolding run_first
generate w parsed = run_first w parsed (first_target parsed.target)
