-- ===== src/Lifecycle/Requests.antt =====
-- The stage `requested` of build in src/solution_arista_avd/service_lifecycle.py: what the branches of
-- open proposed changes do to the services.
use infrahub_network_field_d.Base.{
  ℕ, ◌+◌, String, Bool, true, false, ◌&&◌, ◌||◌, not, Option, none, some, List, [], ◌∷◌,
  if◌then◌else◌, ◌==◌, string_eq, option_eq, pair_eq, ltb, contains, sort,
}
use infrahub_network_field_d.Base.Dict.{Dict, get, put, keys}
use infrahub_network_field_d.Lifecycle.Schema.{Service, Change, text_or_empty, or_zero}
use infrahub_network_field_d.Lifecycle.Events.{validation_of}
use infrahub_network_field_d.Lifecycle.Stages.{Out, stage, service_leb}

-- _changed_on_branch
abbrev changed_after : Option ℕ → ℕ → ℕ → Bool
changed_after none cut main_changed = false
changed_after (some at) cut main_changed = ltb cut at && ltb (main_changed + 1) at

unfoldable pub changed_on_branch : Service → Service → Option ℕ → Bool
changed_on_branch ours main none = false
changed_on_branch ours main (some cut) = changed_after ours.changed_at cut (or_zero main.changed_at)

-- What a branch does to a service: nothing, or the kind of the change.
unfoldable pub change_of : Service → Option Service → Option ℕ → Option String
unfolding changed_on_branch
change_of ours none cut = some "create"
change_of ours (some before) cut =
    if not (before.status == ours.status) || changed_on_branch ours before cut
    then some "update"
    else none

-- What is common to the requests of one proposed change.
pub record Opening : Type 0 where
  pub branch : String
  pub name : String
  pub opened : Option ℕ
  pub verdict : String
  pub cut : Option ℕ

unfoldable pub requested : ℕ → Opening → String → Service → Out → Out
unfolding stage
requested now o change s out =
    stage now s "requested" o.opened
      (record {
        branch = o.branch;
        proposed_change = o.name;
        change = change;
        validation = o.verdict;
      })
      out

unfoldable pub request_change : ℕ → Opening → Service → Option String → Out → Out
unfolding requested
request_change now o s none out = out
request_change now o s (some change) out = requested now o change s out

unfoldable pub request_changes :
    ℕ → Opening → Dict String Service → List (String × Service) → Out → Out
unfolding change_of request_change
request_changes now o main [] out = out
request_changes now o main ((id, s) ∷ ss) out =
    request_changes now o main ss (request_change now o s (change_of s (get main id) o.cut) out)

-- cut is None or (service.created_at or 0) < cut
abbrev pub predates : Service → Option ℕ → Bool
predates s none = true
predates s (some cut) = ltb (or_zero s.created_at) cut

unfoldable pub request_deletions :
    ℕ → Opening → Dict String Service → List (String × Service) → Out → Out
unfolding requested
request_deletions now o ours [] out = out
request_deletions now o ours ((id, s) ∷ ss) out =
    let deleted = not (contains (keys ours) id) && predates s o.cut in
    request_deletions now o ours ss (if deleted then requested now o "delete" s out else out)

abbrev is_to_main : Option String → Bool
is_to_main none = true
is_to_main (some b) = b == "main"

-- str(pc.get("id"))
abbrev pub text_of : Option String → String
text_of none = "None"
text_of (some t) = t

abbrev pub pair_leb : String × Service → String × Service → Bool
pair_leb a b = service_leb a.1 b.1

unfoldable pub opening_of : Dict String ℕ → Change → Opening
unfolding validation_of
opening_of branch_created pc = record {
  branch = text_or_empty pc.source_branch;
  name = text_or_empty pc.name;
  opened = pc.created_at;
  verdict = validation_of pc.validations;
  cut = get branch_created (text_or_empty pc.source_branch);
}

abbrev pub name_change : Change → Out → Out
name_change pc (state, samples) = (
  record state {
    pc_names =
        put state.pc_names (text_of pc.id) (text_or_empty pc.name, text_or_empty pc.source_branch);
  },
  samples,
)

unfoldable pub open_change :
    ℕ → Dict String Service → Opening → Change → Option (Dict String Service) → Out → Out
unfolding request_changes request_deletions sort
open_change now main o pc none out = out
open_change now main o pc (some ours) out =
    request_deletions now o ours main
      (request_changes now o main (sort pair_leb ours) (name_change pc out))

unfoldable pub open_changes_onto :
    ℕ
    → Dict String Service
    → Dict String (Dict String Service)
    → Dict String ℕ
    → List Change
    → Out
    → Out
unfolding open_change opening_of
open_changes_onto now main branches branch_created [] out = out
open_changes_onto now main branches branch_created (pc ∷ pcs) out =
    let ours =
      if is_to_main pc.destination_branch
      then get branches (text_or_empty pc.source_branch)
      else none in
    open_changes_onto now main branches branch_created pcs
      (open_change now main (opening_of branch_created pc) pc ours out)
