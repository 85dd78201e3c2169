-- ===== src/Lifecycle/Build.antt =====
-- build of src/solution_arista_avd/service_lifecycle.py.
use infrahub_network_field_d.Base.{ℕ, String, not, List, [], map, string_eq, keep_if, sort}
use infrahub_network_field_d.Base.Dict.{Dict, values}
use infrahub_network_field_d.Lifecycle.Schema.{Service, Change, Deployment, State}
use infrahub_network_field_d.Lifecycle.Stages.{
  Out, remember, last_event, dated, live_stages, service_leb,
}
use infrahub_network_field_d.Lifecycle.Requests.{open_changes_onto}
use infrahub_network_field_d.Lifecycle.Departures.{departures}

pub record Snapshot : Type 0 where
  pub main : Dict String Service
  pub branches : Dict String (Dict String Service)
  pub open_changes : List Change
  pub deployment : List Deployment
  pub branch_created : Dict String ℕ

-- The devices that the reconciler tracks.
abbrev pub tracked : List Deployment → List Deployment
tracked = keep_if (λ r. not r.suspend)

-- main, each service with the time of its last change
unfoldable pub dated_main : State → Dict String Service → Dict String Service
unfolding last_event
dated_main state main = map (dated (last_event [] (values state.events))) main

unfoldable pub build : Snapshot → State → ℕ → Out
unfolding live_stages open_changes_onto departures dated_main sort
build s state now =
    let named = record state { names = remember state.names (values s.main) } in
    let main = dated_main named s.main in
    let live =
      live_stages now (tracked s.deployment) (sort service_leb (values main)) (named, []) in
    let opened = open_changes_onto now main s.branches s.branch_created s.open_changes live in
    departures now (map (λ (x : Service). (x.kind, x.name)) (values main)) opened
