-- ===== src/Firewall/Driver.antt =====
-- The Session and the JunosDriver of lab/k8s/access/fw-controller/controller.py: how the firewall's
-- CLI is driven. What `read` returns for a command is the reply; waiting and time limits are not
-- modelled.
use infrahub_network_field_d.Base.{
  ℕ, not, ◌&&◌, ◌||◌, Option, none, some, List, [], ◌∷◌, ◌++◌, if◌then◌else◌, is_empty, drop,
  length, ◌-◌,
}
use infrahub_network_field_d.Base.Dict.{Dict}
use infrahub_network_field_d.Base.Text.{Text, codes}
use infrahub_network_field_d.Firewall.Schema.{
  Spec, Pair, Command, screen_length, screen_width, show_policies, configure_private, show_compare,
  rollback, exit, commit_and_quit, show_applications, Prompt, operational, config, either,
  open_session, read_banner, close_session, send, returned, Env, Run, ◌>>=◌, pure, fail, ask,
}
use infrahub_network_field_d.Firewall.Replies.{
  error_in, is_complete, shows_change, managed_in, policy_ref, zones_in, sorted_applications,
  is_prompt, last_line,
}
use infrahub_network_field_d.Firewall.Commands.{
  obj_name, repr, subnet_parts, or_else, line, grant_lines, revoke_lines,
}

-- The failure that a reply shows, if any.
unfoldable pub check : Text → Text → List Text → List Text
unfolding error_in repr
check out l failures = elim (error_in out) [
  | none ↦ failures
  | some detail ↦ failures ++ ((repr l ++ (codes ": " ++ detail)) ∷ [])
]

abbrev pub last_160 : Text → Text
last_160 out = drop (length out - 160) out

abbrev pub unconfirmed : Text → List Text → List Text
unconfirmed out failures =
    if not (is_complete out) && is_empty failures
    then (codes "'commit and-quit': no commit confirmation: " ++ repr (last_160 out)) ∷ []
    else failures

abbrev pub pair_of : Spec → Text → Pair
pair_of s name = record {
  source = or_else s.source_zone (codes "branch");
  destination = or_else s.destination_zone (codes "k8s-prod");
  tag = obj_name name;
}

abbrev pub note_of : Spec → Text → Text
note_of s name =
    codes "otternet access broker: "
    ++ (name ++ (codes " for " ++ or_else s.requester (codes "unknown")))

abbrev pub ref_of : Pair → Text
ref_of p = policy_ref p.source p.destination p.tag

abbrev pub zones_of : Option (Text × Text) → Text × Text
zones_of none = (codes "branch", codes "k8s-prod")
zones_of (some zones) = zones

-- The policy that a recorded reference is about.
unfoldable pub recorded_pair : Text → Option Text → Pair
unfolding zones_in
recorded_pair name ref =
    let zones = zones_of (zones_in (or_else ref [])) in
    record { source = zones.0; destination = zones.1; tag = obj_name name }

module _ (e : Env) where
  abbrev pub tell : Prompt → Command → Run Text
  tell p c = ask (send p c) e.replied

  unfoldable pub list_managed : Run (Dict Text Text)
  unfolding managed_in
  list_managed = tell either show_policies >>= λ out. pure (managed_in out)

  unfoldable pub send_lines : List Text → List Command → Run (List Text)
  unfolding check line
  send_lines failures [] = pure failures
  send_lines failures (c ∷ cs) =
      tell config c >>= λ out. send_lines (check out (line c) failures) cs

  abbrev pub leave : List Text → Run (List Text)
  leave failures = tell config rollback >>= λ a. tell operational exit >>= λ b. pure failures

  unfoldable pub commit : Run (List Text)
  unfolding check is_complete
  commit = tell either commit_and_quit >>= λ out.
      let failures = unconfirmed out (check out (codes "commit and-quit") []) in
      if is_empty failures then pure failures else leave failures

  unfoldable pub conclude : List Text → Text → Run (List Text)
  unfolding shows_change commit
  conclude failures diff =
      if not (is_empty failures) || not (shows_change diff) then leave failures else commit

  -- A block of lines: committed where none is refused and they change the configuration.
  unfoldable pub configure : List Command → Run (List Text)
  unfolding send_lines conclude
  configure lines = tell config configure_private >>= λ a. send_lines [] lines >>= λ failures.
      tell config show_compare >>= λ diff. conclude failures diff

  abbrev pub apply_ports :
      Spec → Text → Option (Text × Text) → Option (List ℕ) → Run (Text × List Text)
  apply_ports s name none ports = fail (codes "ValueError")
  apply_ports s name (some parts) none = fail (codes "KeyError: 'ports'")
  apply_ports s name (some parts) (some ports) =
      configure (
        grant_lines (pair_of s name) parts (or_else s.source_address (codes "branch-users")) ports
          (note_of s name))
      >>= λ failures. pure (ref_of (pair_of s name), failures)

  abbrev pub apply_spec : Spec → Text → Option Text → Run (Text × List Text)
  apply_spec s name none = fail (codes "KeyError: 'destination'")
  apply_spec s name (some destination) = apply_ports s name (subnet_parts destination) s.ports

  unfoldable pub apply : Text → Option Spec → Run (Text × List Text)
  unfolding configure grant_lines subnet_parts
  apply name none = fail (codes "KeyError: 'spec'")
  apply name (some s) = apply_spec s name s.destination

  -- What the firewall says of the block is not looked at.
  unfoldable pub remove : Text → Option Text → Run (Unit {0})
  unfolding configure revoke_lines sorted_applications recorded_pair
  remove name ref = tell either (show_applications (obj_name name)) >>= λ out.
      configure (revoke_lines (recorded_pair name ref) (sorted_applications (obj_name name) out))
      >>= λ failures. pure tt

  abbrev pub begin : Run (Unit {0})
  begin = tell either screen_length >>= λ a. tell either screen_width >>= λ b. pure tt

  abbrev pub refuse_host : Run (Unit {0})
  refuse_host = ask close_session (λ h. returned tt) >>= λ a.
      fail (codes "RuntimeError: does not present a Junos prompt")

  -- A session on the firewall, and none on anything else.
  unfoldable pub connect : Run (Unit {0})
  unfolding is_prompt last_line
  connect = ask open_session e.opened >>= λ a. ask read_banner e.replied >>= λ banner.
      if is_prompt (last_line banner) then begin else refuse_host
