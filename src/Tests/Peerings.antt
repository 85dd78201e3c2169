-- ===== src/Tests/Peerings.antt =====
-- Branches with one session, and with two services for one cluster.
use infrahub_network_field_d.Base.{
  ℕ, String, true, false, none, some, List, [], ◌∷◌, ◌≡◌, ◌↔◌, refl, string_eq, nat_eq,
}
use mathlib.Core.List.{Memᴰ}
use mathlib.Core.List.Memᴰ.{head}
use infrahub_network_field_d.Base.Members.{here}
use infrahub_network_field_d.Checks.Peering.{validate, log_error, log_consistent, log_advisory}
use infrahub_network_field_d.Checks.Peering.Schema.{
  Query, Device, ClusterName, Session, Virtual, Service, Cluster, SviNode, Finding,
  has_no_interface,
}
use infrahub_network_field_d.Checks.Peering.Rules.{peering_address}
use infrahub_network_field_d.Checks.Peering.Accepted.{
  is_blocked, agrees, of_device, is_fabric_role, validate-consistent_iff, validate-accepts_session,
}
use infrahub_network_field_d.Checks.Peering.Claims.{validate-refuses_services}

abbrev leaf : Device
leaf = record {
  id = "d1";
  display_label = some "leaf1";
  asn = some (some 65001);
  role = some "leaf";
}

abbrev k8s : ClusterName
k8s = record { id = "c1"; name = some "k8s" }

abbrev session : Session
session = record {
  id = "s1";
  name = some "to-leaf1";
  peer_device = some leaf;
  cluster = some k8s;
  peer_asn = some 65001;
  peer_address = some (some "10.0.0.1/31");
}

abbrev svi : Virtual
svi = record {
  device = some "d1";
  role = some "peering";
  dot_1_q_id = some 100;
  ip_addresses = some "10.0.0.1/31" ∷ [];
}

abbrev service : String → Service
service id = record { id = id; name = none; cluster = some k8s }

abbrev cluster : Cluster
cluster = record {
  id = "c1";
  nodes =
      (record {
        id = "i1";
        connector = some (
            record { id = "i1"; device = some "n1" }
            ∷ record { id = "i2"; device = some "d1" }
            ∷ []);
      }
        ∷ [])
      ∷ [];
}

abbrev tenant_node : SviNode
tenant_node = record {
  id = "e1";
  device = some leaf;
  svi = some (some 200);
  ip_address = some "10.1.0.1/24";
}

abbrev branch : List Service → Query
branch services = record {
  cluster_fabric_peering = session ∷ [];
  interface_virtual = svi ∷ [];
  service_fabric_peering = services;
  cluster_kubernetes = cluster ∷ [];
  evpn_svi_node = tenant_node ∷ [];
}

abbrev single : Query
single = branch (service "v1" ∷ [])

abbrev double : Query
double = branch (service "v1" ∷ service "v2" ∷ [])

-- An advisory finding does not block.
single_entries :
    validate single
    ≡ log_advisory (record {
      message = has_no_interface tenant_node;
      object_id = "e1";
      object_type = "EvpnSviNode";
      is_error = false;
    })
      ∷ log_consistent
      ∷ []
unfolding validate
single_entries = refl

accepted : is_blocked (validate single) ≡ false
unfolding validate
accepted = refl

validate-consistent_iff_example :
    Memᴰ log_consistent (validate single) ↔ (is_blocked (validate single) ≡ false)
validate-consistent_iff_example = validate-consistent_iff single

validate-accepts_session_example :
    (agrees {A = ℕ} (some 65001) (some 65001) ≡ true)
    × (agrees (peering_address (of_device "d1" (svi ∷ []))) (some "10.0.0.1/31") ≡ true)
    × (is_fabric_role (some "leaf") ≡ true)
validate-accepts_session_example =
    validate-accepts_session single session leaf accepted (head refl) refl

validate-refuses_services_example :
    ((f : Finding) × Memᴰ (log_error f) (validate double) × (f.object_id ≡ "v1"))
    × ((f : Finding) × Memᴰ (log_error f) (validate double) × (f.object_id ≡ "v2"))
validate-refuses_services_example =
    validate-refuses_services double (service "v1") (service "v2") k8s k8s (here refl (head refl))
      refl refl refl
