-- ===== src/Inventory.antt =====
-- src/solution_arista_avd/deployment/inventory.py: one device's turn, and the run over all of
-- them; with `read_intent` and `compare` of compare.py. What Infrahub, Nornir and the devices
-- answer during one cycle is the record `World`. Devices are independent of one another within a
-- cycle, and each is asked once, so an answer is a function of the device.
pub mod Turns
pub mod Quiet
use infrahub_network_field_d.Base.{
  ℕ, String, Bool, true, false, not, ◌&&◌, ◌||◌, Option, none, some, List, [], ◌∷◌, ◌++◌, map,
  if◌then◌else◌, ◌==◌, string_eq, is_empty, contains, keep_if,
}
use infrahub_network_field_d.Base.Dict.{Dict, get}
use infrahub_network_field_d.Base.Result.{Result, ok, err, ◌>>=◌}
use infrahub_network_field_d.Base.Text.{Text, strip, join_lines}
use infrahub_network_field_d.Normalise.{artifact_eos, artifact_srl, artifact_junos, normalise}
use infrahub_network_field_d.Normalise.Junos.{Crypt}
use infrahub_network_field_d.State.{Stamps}
use infrahub_network_field_d.Wake.{Target}

-- A host of the Nornir inventory, with its groups.
pub record Host : Type 0 where
  pub name : String
  pub groups : List String

pub record World : Type 0 where
  -- dv.discover and build_inventory
  pub targets : List Target
  pub hosts : List Host
  -- dv.download, the family's comparator and the family's pusher
  pub download : Target → Result Text
  pub comparator : Target → Text → Result Text
  pub pusher : Target → Text → Result Text
  -- sweep_eos or sweep_srl, and sweep_junos
  pub sweep_sessions : Target → Result (List String)
  pub sweep_lock : Target → Result Bool
  -- a Nornir task that ended with an exception and no outcome
  pub task_error : String → Option String
  -- the hash of normalise.py, and the passwords it may be tried with
  pub crypt : Crypt
  pub passwords : List Text
  -- the clock, where the outcome of a device is recorded
  pub stamps : String → Stamps

-- What a cycle does to a device.
pub data Contact : Type 0 where
  sweeps compares pushes : String → Contact

pub record DeviceOutcome : Type 0 where
  pub device : String
  pub differs : Bool
  pub pushed : Bool
  pub failed : Bool
  pub error : Option String
  pub diff : Text
  pub checksum : String

abbrev pub known_family : String → Bool
known_family name = name == artifact_eos || name == artifact_srl || name == artifact_junos

-- compare.read_intent
unfoldable pub read_intent : World → Target → Result Text
unfolding strip
read_intent w t = w.download t >>= λ config.
    if is_empty (strip config) then err "the rendered artifact is empty" else ok config

-- compare.compare: the family's comparator, then the normaliser
unfoldable pub compare : World → Target → Text → Result (List Text)
compare w t config =
    if known_family t.artifact_name
    then (w.comparator t config >>= λ raw. normalise w.crypt w.passwords t.artifact_name raw)
    else err t.artifact_name

abbrev pub untouched : Target → DeviceOutcome
untouched t = record {
  device = t.device;
  differs = false;
  pushed = false;
  failed = false;
  error = none;
  diff = [];
  checksum = t.checksum;
}

abbrev pub failure : DeviceOutcome → String → DeviceOutcome
failure o e = record o { failed = true; error = some e }

abbrev pub Turn : Type 0
Turn = Option DeviceOutcome × List Contact

-- After a push was tried.
abbrev pub push_turn : Target → DeviceOutcome → Result Text → Turn
push_turn t o (ok said) =
    (some (record o { pushed = true }), compares t.device ∷ pushes t.device ∷ [])
push_turn t o (err e) = (some (failure o e), compares t.device ∷ pushes t.device ∷ [])

-- After the comparison.
compare_turn : World → Bool → Target → Text → Result (List Text) → Turn
unfolding join_lines
compare_turn w dry_run t config (err e) = (some (failure (untouched t) e), compares t.device ∷ [])
compare_turn w dry_run t config (ok lines) =
    let o = record (untouched t) { differs = not (is_empty lines); diff = join_lines lines } in
    if is_empty lines || dry_run
    then (some o, compares t.device ∷ [])
    else push_turn t o (w.pusher t config)

intent_turn : World → Bool → Target → Result Text → Turn
unfolding compare_turn compare
intent_turn w dry_run t (err e) = (some (failure (untouched t) e), [])
intent_turn w dry_run t (ok config) = compare_turn w dry_run t config (compare w t config)

unfoldable pub target_turn : World → Bool → Option Target → Turn
unfolding intent_turn read_intent
target_turn w dry_run none = (none, [])
target_turn w dry_run (some t) = intent_turn w dry_run t (read_intent w t)

unfoldable pub reconcile_host : World → Dict String Target → Bool → String → Turn
unfolding target_turn
reconcile_host w targets dry_run host = target_turn w dry_run (get targets host)

-- A task that raised is reported against its host.
abbrev pub raised : String → String → DeviceOutcome
raised host e = record {
  device = host;
  differs = false;
  pushed = false;
  failed = true;
  error = some e;
  diff = [];
  checksum = "";
}

abbrev pub collect : Option String → String → Turn → Turn
collect none host turn = turn
collect (some e) host turn = (some (raised host e), turn.1)

abbrev pub add_outcome :
    Turn → List DeviceOutcome × List Contact → List DeviceOutcome × List Contact
add_outcome (none, cs) (os, ds) = (os, cs ++ ds)
add_outcome (some o, cs) (os, ds) = (o ∷ os, cs ++ ds)

unfoldable pub run_over :
    World → List Host → Dict String Target → Bool → List DeviceOutcome × List Contact
unfolding reconcile_host
run_over w [] targets dry_run = ([], [])
run_over w (h ∷ hs) targets dry_run =
    add_outcome (collect (w.task_error h.name) h.name (reconcile_host w targets dry_run h.name))
      (run_over w hs targets dry_run)

abbrev pub group_junos : String
group_junos = "junos_firewalls"

abbrev pub is_firewall : Host → Bool
is_firewall h = contains h.groups group_junos

-- The fabric and the firewalls.
unfoldable pub split_firewalls : List Host → List Host × List Host
split_firewalls hosts = (keep_if (λ h. not (is_firewall h)) hosts, keep_if is_firewall hosts)
