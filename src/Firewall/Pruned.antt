-- ===== src/Firewall/Pruned.antt =====
-- What a pass of lab/k8s/access/fw-controller/controller.py that ends well has taken off the firewall.
use infrahub_network_field_d.Base.{some, List, ◌∷◌, drop, list_eq, nat_eq}
use mathlib.Core.List.{Memᴰ}
use infrahub_network_field_d.Base.Dict.{Dict}
use infrahub_network_field_d.Base.Text.{Text}
use infrahub_network_field_d.Firewall.Schema
use infrahub_network_field_d.Firewall.Schema.{
  Spec, Pair, Command, Call, History, http_error, raised, Env, ask,
}
use infrahub_network_field_d.Firewall.Driver.{recorded_pair}
use infrahub_network_field_d.Firewall.Ends.{Ends}

-- The deletion of the policy that the reference names was sent.
abbrev pub Pruned : Text → Text → History → Type 0
Pruned tag ref h =
    Memᴰ (Call.send Schema.config (Command.delete_policy (recorded_pair (drop 3 tag) (some ref)))) h

abbrev Any : History → Type 0
Any h = Unit {0}

module _ (e : Env) where
  -- The calls that a pass makes before it lists the policies.
  abbrev pub preamble : History → History
  preamble h =
      Call.send Schema.either Command.screen_width
      ∷ Call.send Schema.either Command.screen_length
      ∷ Call.read_banner
      ∷ Call.open_session
      ∷ Call.list_access
      ∷ h
