-- ===== src/Tests/Lifecycles.antt =====
-- A snapshot of two services, an outage, and a label with characters that are escaped.
use infrahub_network_field_d.Base.{
  ℕ, ◌≤◌, String, true, false, none, some, List, [], ◌∷◌, ◌++◌, ◌≡◌, refl, string_eq,
}
use infrahub_network_field_d.Base.Dict.{get, values}
use infrahub_network_field_d.Base.Text.{Text, codes}
use mathlib.Core.List.{Memᴰ}
use mathlib.Core.List.Memᴰ.{head, tail}
use infrahub_network_field_d.Lifecycle.Schema.{Service, Sample, Deployment, Event, State, or_zero}
use infrahub_network_field_d.Lifecycle.Events.{absorb_events}
use infrahub_network_field_d.Lifecycle.Stages.{on_main, stage_sample, is_withdrawn}
use infrahub_network_field_d.Lifecycle.Build.{Snapshot, build, dated_main}
use infrahub_network_field_d.Lifecycle.Deployed.{Names, build-confirmed}
use infrahub_network_field_d.Lifecycle.Exporter.{
  Infrahub, Exporter, answer, runtime_error, other_error, polls, read, poll, poll_safely,
  poll_reading, conclude, ask_names,
}
use infrahub_network_field_d.Lifecycle.Outage.{Keeps, all_raise, polls-Keeps}
use infrahub_network_field_d.Lifecycle.Render.{escape}
use infrahub_network_field_d.Lifecycle.Escaped.{read_value, read_value-escape}

abbrev vpn : Service
vpn = record {
  id = "s1";
  kind = "ServiceVpn";
  name = "vpn1";
  status = "active";
  owner = "";
  requester = "";
  changed_at = some 100;
  created_at = some 50;
}

abbrev empty_state : State
empty_state = record {
  names = [];
  events = [];
  merged = [];
  first_seen = [];
  pc_names = [];
  kinds = [];
  events_since = none;
}

abbrev confirmed : Deployment
confirmed = record { status = some "in_sync"; suspend = false; last_confirmed_at = some 120 }

abbrev suspended : Deployment
suspended = record { status = some "failed"; suspend = true; last_confirmed_at = none }

abbrev lab : Snapshot
lab = record {
  main = ("s1", vpn) ∷ [];
  branches = [];
  open_changes = [];
  deployment = confirmed ∷ suspended ∷ [];
  branch_created = [];
}

abbrev deployed_sample : Sample
deployed_sample = stage_sample vpn "deployed" on_main

deployed : Memᴰ deployed_sample (build lab empty_state 200).1
unfolding build
deployed = tail (head refl)

build-confirmed_example :
    (s : Service) × Memᴰ s (values (dated_main empty_state (("s1", vpn) ∷ [])))
    × Names s deployed_sample
    × (is_withdrawn s ≡ false)
    × (confirmed.status ≡ some "in_sync")
    × (t : ℕ) × (confirmed.last_confirmed_at ≡ some t)
    × (or_zero s.changed_at ≤ t)
build-confirmed_example =
    build-confirmed lab empty_state 200 deployed_sample confirmed deployed refl (head refl) refl

-- A service that is created and deleted between two polls is remembered by its name.
abbrev creation : Event
creation = record {
  id = some "e1";
  event = "infrahub.node.created";
  occurred_at = some 10;
  primary_id = some "s9";
  primary_kind = some "ServiceGrant";
  attributes = ("name", some "grant") ∷ ("status", some "active") ∷ [];
}

abbrev deletion : Event
deletion = record {
  id = some "e2";
  event = "infrahub.node.deleted";
  occurred_at = some 20;
  primary_id = some "s9";
  primary_kind = some "ServiceGrant";
  attributes = [];
}

between_polls :
    get {K = String} (absorb_events empty_state (deletion ∷ creation ∷ []) []).0.events "e2"
    ≡ some (record {
      at = 20;
      kind = "ServiceGrant";
      name = "grant";
      verb = "deleted";
      status = "";
      node_id = "s9";
    })
unfolding absorb_events
between_polls = refl

abbrev down : Infrahub
down = record {
  services = λ branch. other_error "connection refused";
  main = runtime_error "down";
  events = λ since offset. runtime_error "down";
  proposed_changes = λ ids. runtime_error "down";
}

abbrev running : Exporter
running = record {
  state = record empty_state { events_since = some 300 };
  samples = deployed_sample ∷ [];
  up = true;
  polled_at = 300;
  errors = 1;
  last_error = "";
}

-- The events are answered, and the merged change's name is not.
abbrev merge : Event
merge = record {
  id = some "e3";
  event = "infrahub.proposed_change.merged";
  occurred_at = some 310;
  primary_id = some "p1";
  primary_kind = none;
  attributes = [];
}

abbrev nameless : Infrahub
nameless = record {
  services = λ branch. answer [];
  main = answer (record { open_changes = []; deployment = []; branches = [] });
  events = λ since offset. answer (merge ∷ []);
  proposed_changes = λ ids. runtime_error "down";
}

abbrev outage : List (ℕ × Infrahub)
outage = (315, nameless) ∷ (330, down) ∷ []

outage_down : all_raise outage running ≡ true
unfolding all_raise poll_safely poll poll_reading read conclude ask_names absorb_events
outage_down = refl

polls-Keeps_example : Keeps running 2 (polls outage running)
polls-Keeps_example = polls-Keeps outage running outage_down

abbrev label : Text
label = codes "a\\b\"c\nd"

read_value-escape_example :
    read_value false (escape label ++ 34 ∷ codes ",") ≡ some (label, codes ",")
read_value-escape_example = read_value-escape label (codes ",")
