-- ===== src/Lib.antt =====
-- The deployment service of the repository, the loop that keeps the lab's switches, routers and
-- firewall at the configuration that Infrahub renders; components that plan that configuration,
-- the address pools, the cabling and the placement of servers; three of the checks that a
-- proposed change passes; the controller that puts access grants on the lab's firewall; and the
-- exporter that reports where each service request is.
--
-- The service repeats a cycle. A cycle discovers the rendered artifacts, clears what an earlier
-- cycle left on the devices, asks each device for the difference to its artifact, pushes the
-- artifact where there is one, and records per device what it learned. Between two cycles the
-- loop polls the artifacts' checksums, and starts early when they moved and held still, or when
-- a request file appears.
--
-- The parts, all of src/solution_arista_avd/deployment/ unless a path says otherwise:
--
-- Wake: wake.py. `wait_for_wake` takes the list of what each turn of its loop reads: the clock,
-- the trigger file, the poll of the checksums (`none` where it raises). Wake/Moved,
-- Wake/Returns, Wake/Held, Wake/Settled and Wake/Unread prove.
-- State: state.py. The record `Graph` is what the Infrahub client does with the deployment
-- records, with its laws; the `StateStore` methods are `record_outcome`, `last_checksum`,
-- `is_suspended` and `sweep_orphans` over it. State/Records proves; Tests/Memory gives a graph
-- in memory that meets the laws.
-- Normalise: normalise.py, with the Junos family in Normalise/Junos (its patterns in Matchers,
-- its cleartext passwords in Redact). Normalise/Junos/Reports proves.
-- Inventory: inventory.py with `read_intent` and `compare` of compare.py. The record `World`
-- holds what Infrahub, Nornir and the devices answer during one cycle. `reconcile_host` also
-- gives the contacts that it makes with the device. Inventory/Turns and Inventory/Quiet prove.
-- Cycle: reconcile.py up to `run_cycle`: Cycle/Plan has the floors, the order, what is due and
-- the sweep, Cycle/Report the report and the loop over the outcomes. Cycle/Suspended,
-- Cycle/Sweeping, Cycle/Outcomes and Cycle/Quiet prove.
-- Forever: reconcile.py from `_cycle_arguments` on: `run_forever` and `converge`.
-- Forever/Rounds and Forever/Converge prove.
-- Pools: src/solution_arista_avd/pool_roles.py. Pools/Prefixes has the networks of `ipaddress`
-- and the search for a free prefix, Pools/Roles the roles and the rules about them.
-- Pools/Children, Pools/Allocation and Pools/Resolved prove.
-- Cabling: src/solution_arista_avd/cabling.py. An interface is its id, a device the list of its
-- interfaces. Cabling/Racks has the plan for a rack with its theorem; Cabling/Planned and
-- Cabling/Connected prove.
-- Checks/Allocation: checks/allocation_consistency_check.py. Schema has what the check reads
-- and reports, Vlans, Subnets and Vips have the three rules, and Checks/Allocation the verdict.
-- Fabrics, Accepted and Addresses prove.
-- Checks/Peering: checks/peering_consistency_check.py. Schema has what the check reads and
-- reports, Rules the six rules, and Checks/Peering the verdict. Accepted and Claims prove.
-- Placement: generators/generate_server_placement.py. A run of the generator is the list of its
-- calls of the client with its result. Placement/Request has the requests, Placement/Calls the
-- calls part by part; Placement/Kept and Placement/Refused prove.
-- Lifecycle: src/solution_arista_avd/service_lifecycle.py. Schema has what is read and kept,
-- Events the absorption of events, Stages, Requests, Departures and Build the snapshot,
-- Exporter the polls, Render the text. Others, Deployed, Outage and Escaped prove.
-- Firewall: lab/k8s/access/fw-controller/controller.py. A part of a pass takes the calls made
-- so far to more calls and an outcome; the cluster and the firewall answer each call by the
-- calls before it. Firewall/Schema has the objects, the commands and the calls, Replies the
-- reading of the firewall's output, Commands the lines, Driver the CLI, Pass the pass and the
-- loop, of which `rounds n` is the first n passes. Ends, Blocks, Reaches, Listed, Managed,
-- Modes, Deletes, Guarded and Course (the laws of the parts of a pass, and what follows for the
-- pass) carry the proofs of Sessions, Spared, Finalized, Pruned, Zones, Ready and Revoked.
-- Checks/Wan: checks/wan_service_check.py. Schema has what is read, Rules the rules about
-- isolation, Rendered a site's prerequisites, Live the rules about live services; Isolated,
-- Attached and Accepted prove.
-- Base: the shared tests, lists, dictionaries, texts and results. Tests: runs of the
-- definitions, and the theorems at inputs that meet their hypotheses.
--
-- The Cycle calls State and Inventory, Inventory calls Normalise, and Forever calls Cycle and
-- Wake, as the Python modules do.
--
-- Bounds. Of the definitions only `decimal` has fuel, as many steps as the number that it
-- writes, which Firewall/Numbers shows to be enough; `collect_pages` counts down the 200 pages
-- of the source's own limit. The wait is recursion on the list of its readings, and the service
-- loop on the list of its rounds, which stands for `max_cycles`: `none` of a wait says that the
-- readings ended first. `converge` is recursion on its number of cycles (6 by default). The
-- constants are the source's defaults. Times are natural numbers of seconds, and the numbers
-- that a query answers with are natural as well. The cadence of the firewall is taken to be
-- positive, since `% 0` raises in Python.
--
-- Assumptions. Calls of Infrahub by the cycle succeed; a cycle that raises is a round without a
-- report. A run over the inventory asks each of its hosts once, and its outcomes come in the
-- order of the hosts; a device answers alike within one cycle. A task may raise outside the
-- function's own error handling (`task_error`). The texts of the exceptions are shortened. What
-- a sweep clears is a pair in place of the joined text. Word characters and digits of the
-- patterns are those of ASCII. The set of moved devices is a list, which may name a device
-- twice. A check or an exporter reads a GraphQL answer as records of the fields that it uses;
-- an edge without a node is left out. What the standard library reads from a text, a network,
-- an address or a timestamp, is a parameter of the model or read already. Messages are the
-- values that their texts are made of.
--
-- Not modelled: log lines, the deployment service's sessions with the devices (comparators,
-- pushers, sweeps, the discovery query), Nornir's thread pool, and the password hash
-- `sha_crypt`, which rests on hashlib and is a parameter. Outside the deployment service: the
-- tables of labels and default pools of pool_roles.py, the other checks and generators, the
-- transforms, the scripts and the release tooling of the repository.
pub mod Base
pub mod Cabling
pub mod Checks
pub mod Cycle
pub mod Firewall
pub mod Forever
pub mod Inventory
pub mod Lifecycle
pub mod Normalise
pub mod Placement
pub mod Pools
pub mod State
pub mod Tests
pub mod Wake
