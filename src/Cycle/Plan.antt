-- ===== src/Cycle/Plan.antt =====
-- The plan of a cycle in reconcile.py: the floors, the order of the targets, which of them are due,
-- and the sweep of leftovers.
use infrahub_network_field_d.Base.{
  ℕ, ◌%◌, String, Bool, true, false, not, ◌&&◌, ◌||◌, List, [], ◌∷◌, ◌++◌, map, nat_beq, ltb,
  if◌then◌else◌, ◌==◌, string_eq, option_eq, contains, keep_if,
}
use infrahub_network_field_d.Base.Dict.{Dict, put}
use infrahub_network_field_d.Base.Result.{Result, ok, err}
use infrahub_network_field_d.Inventory.{World, Contact, sweeps, known_family}
use infrahub_network_field_d.Normalise.{artifact_eos, artifact_srl, artifact_junos}
use infrahub_network_field_d.Wake.{Target}

abbrev pub minimum_interval : ℕ
minimum_interval = 60

abbrev pub minimum_poll : ℕ
minimum_poll = 5

-- validate_interval and validate_poll
unfoldable pub validate_interval : ℕ → Result ℕ
validate_interval seconds =
    if ltb seconds minimum_interval then err "interval below the floor" else ok seconds

unfoldable pub validate_poll : ℕ → Result ℕ
validate_poll seconds = if ltb seconds minimum_poll then err "poll below the floor" else ok seconds

-- The arguments of a cycle: its number, and what it compares.
pub record Options : Type 0 where
  pub firewall_every : ℕ
  pub cycle : ℕ
  pub dry_run : Bool
  pub all_due : Bool
  pub force : List String
  pub scheduled : Bool

abbrev pub is_junos : Target → Bool
is_junos t = t.artifact_name == artifact_junos

-- _due
unfoldable pub due : Options → Target → Bool
due o t =
    if contains o.force t.device
    then true
    else if is_junos t
    then o.scheduled && nat_beq (o.cycle % o.firewall_every) 0
    else true

-- _order: the sort is stable, and False comes before True
unfoldable pub order : List Target → List Target
order ts = keep_if (λ t. not (is_junos t)) ts ++ keep_if is_junos ts

-- {t.device: t for t in targets}
unfoldable pub by_name_onto : Dict String Target → List Target → Dict String Target
by_name_onto d [] = d
by_name_onto d (t ∷ ts) = by_name_onto (put d t.device t) ts

unfoldable pub by_name : List Target → Dict String Target
unfolding by_name_onto
by_name ts = by_name_onto [] ts

-- What is cleared on one target; a sweep that raises clears nothing.
abbrev cleared_names : String → Result (List String) → List (String × String)
cleared_names device (ok names) = map (λ n. (device, n)) names
cleared_names device (err e) = []

abbrev cleared_lock : String → Result Bool → List (String × String)
cleared_lock device (ok true) = (device, "lock") ∷ []
cleared_lock device (ok false) = []
cleared_lock device (err e) = []

sweep_target : World → Target → List (String × String)
sweep_target w t =
    if t.artifact_name == artifact_eos || t.artifact_name == artifact_srl
    then cleared_names t.device (w.sweep_sessions t)
    else if is_junos t
    then cleared_lock t.device (w.sweep_lock t)
    else []

-- sweep
unfoldable pub sweep : World → List Target → List (String × String) × List Contact
unfolding sweep_target
sweep w [] = ([], [])
sweep w (t ∷ ts) =
    let (cleared, contacts) = sweep w ts in
    (
      sweep_target w t ++ cleared,
      if known_family t.artifact_name then sweeps t.device ∷ contacts else contacts,
    )
