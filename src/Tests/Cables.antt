-- ===== src/Tests/Cables.antt =====
-- Cabling plans of two spines and two leaves.
use infrahub_network_field_d.Base.{String, none, some, List, [], ◌∷◌, ◌≡◌, refl, string_eq}
use infrahub_network_field_d.Base.Dict.{Dict, get}
use infrahub_network_field_d.Base.Result.{ok}
use infrahub_network_field_d.Cabling.{
  Plan, Interface, build_pod_cabling_plan, build_server_cabling_plan, connect_interface_maps,
}
use infrahub_network_field_d.Cabling.Racks.{
  Device, no_index, text_index, rack_source_device_index, build_rack_cabling_plan,
}
use infrahub_network_field_d.Base.Text.{codes}
use infrahub_network_field_d.Cabling.Connected.{connect_interface_maps-keeps}

abbrev spines : List (List String)
spines = ("s1e1" ∷ "s1e2" ∷ "s1e3" ∷ []) ∷ ("s2e1" ∷ "s2e2" ∷ "s2e3" ∷ []) ∷ []

abbrev supers : List (List String)
supers = ("u1e1" ∷ "u1e2" ∷ "u1e3" ∷ "u1e4" ∷ []) ∷ ("u2e1" ∷ "u2e2" ∷ "u2e3" ∷ "u2e4" ∷ []) ∷ []

pod_plan :
    build_pod_cabling_plan 3 spines supers
    ≡ ok (("s1e1", "u1e3") ∷ ("s1e2", "u2e3") ∷ ("s2e1", "u1e4") ∷ ("s2e2", "u2e4") ∷ [])
unfolding build_pod_cabling_plan
pod_plan = refl

-- Pod 1 takes the last interfaces: the index is negative.
pod_plan_negative :
    build_pod_cabling_plan 1 spines supers
    ≡ ok (("s1e1", "u1e3") ∷ ("s1e2", "u2e3") ∷ ("s2e1", "u1e4") ∷ ("s2e2", "u2e4") ∷ [])
unfolding build_pod_cabling_plan
pod_plan_negative = refl

abbrev server_links : Plan
server_links = ("e1", "u1e2") ∷ ("e2", "u2e2") ∷ ("e3", "u1e3") ∷ []

server_plan : build_server_cabling_plan 1 (("e1" ∷ "e2" ∷ "e3" ∷ []) ∷ []) supers ≡ ok server_links
unfolding build_server_cabling_plan
server_plan = refl

abbrev link_of : String → String → String
link_of s t = "link"

abbrev old : Interface
old = record { connector = some "kept"; status = "free" }

abbrev new : Interface
new = record { connector = some "link"; status = "active" }

abbrev before : Dict String Interface
before = ("e1", old) ∷ ("u1e2", record new { connector = some ""; status = "free" }) ∷ []

connected :
    connect_interface_maps link_of before (("e1", "u1e2") ∷ [])
    ≡ ok (("e1", old) ∷ ("u1e2", new) ∷ [])
unfolding connect_interface_maps
connected = refl

connect_interface_maps-keeps_example :
    get {K = String} (("e1", old) ∷ ("u1e2", new) ∷ []) "e1" ≡ get before "e1"
connect_interface_maps-keeps_example =
    connect_interface_maps-keeps link_of (λ s t. refl) (("e1", "u1e2") ∷ []) before
      (("e1", old) ∷ ("u1e2", new) ∷ []) "e1" connected refl

-- The index of a device whose index is no number stands at the end of its name.
abbrev leaf2 : Device
leaf2 = record {
  index = text_index (codes "b");
  name = some (codes "dc1-leaf-2");
  display_label = none;
}

abbrev leaf1 : Device
leaf1 = record { index = no_index; name = none; display_label = none }

abbrev rack_links : Plan
rack_links = ("l2e1", "u1e4") ∷ ("l2e2", "u2e4") ∷ []

rack_plan :
    build_rack_cabling_plan 2 ((leaf2, "l2e1" ∷ "l2e2" ∷ "l2e3" ∷ []) ∷ []) supers ≡ ok rack_links
unfolding build_rack_cabling_plan
rack_plan = refl

rack_fallback : rack_source_device_index leaf1 3 ≡ 3
unfolding rack_source_device_index
rack_fallback = refl
