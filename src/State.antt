-- ===== src/State.antt =====
-- src/solution_arista_avd/deployment/state.py: the deployment records. Infrahub, which stores
-- them, is an interface: the record `Graph` gives its operations, and the laws that the program
-- relies on. A timestamp is a natural number.
pub mod Records
use infrahub_network_field_d.Base.{
  ℕ, String, Bool, true, false, not, ◌||◌, Option, none, some, List, [], ◌∷◌, map, ◌≡◌, ◌↔◌,
  if◌then◌else◌, ◌==◌, string_eq, contains,
}
use infrahub_network_field_d.Base.Text.{Text}
use Prim.Native.String

pub data Status : Type 0 where
  never_deployed in_sync pending drifted failed : Status

-- A `DeploymentState` node. A text that may be missing is an `Option`.
pub record Record : Type 0 where
  pub name : String
  pub status : Status
  pub suspend : Bool
  pub suspend_reason : Option String
  pub last_checked_at : Option ℕ
  pub last_confirmed_at : Option ℕ
  pub last_attempt_at : Option ℕ
  pub last_error : Option String
  pub last_artifact_checksum : Option String

-- What one cycle decided about one device.
pub record Outcome : Type 0 where
  pub device : String
  pub status : Status
  pub confirmed : Bool
  pub error : Option String
  pub diff : Option Text
  pub pushed : Bool
  pub checksum : Option String

abbrev pub is_found : Option Record → Bool
is_found none = false
is_found (some r) = true

abbrev pub names : List Record → List String
names = map (λ r. r.name)

-- The graph, as the Infrahub client shows it: `find` is client.get by name, `all` client.all,
-- `save` node.save and `delete` node.delete.
pub record Graph : Type 1 where
  pub Store : Type 0
  pub find : Store → String → Option Record
  pub all : Store → List Record
  pub save : Store → Record → Store
  pub delete : Store → String → Store
  -- The record that a name finds bears it.
  pub find_name : (s : Store) (k : String) (r : Record) → find s k ≡ some r → r.name ≡ k
  pub find-save :
      (s : Store) (r : Record) (k : String)
      → find (save s r) k ≡ (if r.name == k then some r else find s k)
  pub find-delete :
      (s : Store) (n k : String) → find (delete s n) k ≡ (if n == k then none else find s k)
  -- `all` has a record of each name that `find` answers, and only those.
  pub all_lists : (s : Store) (k : String) → contains (names (all s)) k ≡ is_found (find s k)

-- `bool(text)` of an optional text: there, and not empty.
abbrev pub is_set : Option String → Bool
is_set none = false
is_set (some t) = not (t == "")

-- The readings of `_now()`, in the order of the calls.
pub record Stamps : Type 0 where
  pub checked : ℕ
  pub confirmed : ℕ
  pub attempted : ℕ

-- fields[name] = value under a test; the record keeps the old value otherwise.
abbrev pub override_if {ℓ} : {A : Type ℓ} → Bool → A → A → A
override_if b new old = if b then new else old

abbrev pub override_some {ℓ} : {A : Type ℓ} → Option A → Option A → Option A
override_some none old = old
override_some (some a) old = some a

-- `for name, value in fields.items(): setattr(...)`, and the keyword arguments of `create`.
unfoldable pub write_fields : Stamps → Outcome → Record → Record
write_fields now o r = record r {
  last_checked_at = some now.checked;
  last_confirmed_at = override_if o.confirmed (some now.confirmed) r.last_confirmed_at;
  last_attempt_at = override_if o.pushed (some now.attempted) r.last_attempt_at;
  last_error = override_some o.error r.last_error;
  last_artifact_checksum = override_some o.checksum r.last_artifact_checksum;
}

-- A new node: what `create` is not given has the schema's default.
unfoldable pub fresh : String → Status → Record
fresh name status = record {
  name = name;
  status = status;
  suspend = false;
  suspend_reason = none;
  last_checked_at = none;
  last_confirmed_at = none;
  last_attempt_at = none;
  last_error = none;
  last_artifact_checksum = none;
}

-- `if outcome.error is None and existing.last_error.value`
abbrev pub clears_error : Option String → Option String → Bool
clears_error none last = is_set last
clears_error (some e) last = false

unfoldable pub updated : Stamps → Outcome → Record → Record
unfolding write_fields
updated now o r = write_fields now o (record r {
  status = o.status;
  last_error = if clears_error o.error r.last_error then none else r.last_error;
})

abbrev pub record_after : Stamps → Outcome → Option Record → Record
record_after now o none = write_fields now o (fresh o.device o.status)
record_after now o (some existing) = updated now o existing

module _ (graph : Graph) where
  open graph use {Store, find, all, save, delete}

  -- StateStore.record
  unfoldable pub record_outcome : Stamps → Outcome → Store → Store
  record_outcome now o s = save s (record_after now o (find s o.device))

  -- StateStore.last_checksum
  unfoldable pub last_checksum : String → Store → Option String
  last_checksum device s = elim (find s device) [
    | none ↦ none
    | some r ↦ if is_set r.last_artifact_checksum then r.last_artifact_checksum else none
  ]

  -- StateStore.is_suspended
  unfoldable pub is_suspended : String → Store → Bool
  is_suspended device s = elim (find s device) [ none ↦ false | some r ↦ r.suspend ]

  -- The loop of StateStore.sweep_orphans, over the records listed before the first deletion.
  unfoldable pub sweep_records : List String → List Record → Store → Store × List String
  sweep_records live [] s = (s, [])
  sweep_records live (r ∷ rs) s =
      let (s', removed) =
        sweep_records live rs (if contains live r.name then s else delete s r.name) in
      (s', if contains live r.name then removed else r.name ∷ removed)

  unfoldable pub sweep_orphans : List String → Store → Store × List String
  unfolding sweep_records
  sweep_orphans live s = sweep_records live (all s) s
