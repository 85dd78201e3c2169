-- ===== src/Tests/Firewalls.antt =====
-- Passes of the firewall access controller on small inputs.
use infrahub_network_field_d.Base.{
  true, false, none, some, List, [], ◌∷◌, ◌≡◌, ◌⊎◌, refl, subst, list_eq, nat_eq,
}
use mathlib.Core.List.{Memᴰ}
use mathlib.Core.List.Memᴰ.{head, tail}
use infrahub_network_field_d.Base.Text.{Text, codes}
use infrahub_network_field_d.Firewall.Schema
use infrahub_network_field_d.Firewall.Schema.{
  Spec, Item, Pair, Command, Call, History, Outcome, returned, raised, Env,
}
use infrahub_network_field_d.Firewall.Replies.{managed_in, error_in, zones_in}
use infrahub_network_field_d.Firewall.Commands.{decimal, subnet_parts, repr, finalizer}
use infrahub_network_field_d.Firewall.Driver.{recorded_pair, ref_of}
use infrahub_network_field_d.Firewall.Pass.{
  reconcile, rounds, revoke, set_ready, report_of, status_of,
}
use infrahub_network_field_d.Firewall.Modes.{moded, Cli, IsHonest}
use infrahub_network_field_d.Firewall.Sessions.{rounds-moded}
use infrahub_network_field_d.Firewall.Deletes.{Justified}
use infrahub_network_field_d.Firewall.Spared.{reconcile-Justified}
use infrahub_network_field_d.Firewall.Guarded.{Guarded}
use infrahub_network_field_d.Firewall.Finalized.{reconcile-Guarded}
use infrahub_network_field_d.Firewall.Pruned.{Pruned}
use infrahub_network_field_d.Firewall.Zones.{recorded_pair-ref_of}
use infrahub_network_field_d.Firewall.Ready.{stored, set_ready-report_of}
use infrahub_network_field_d.Firewall.Revoked.{unregistering, revoke-unregisters}

port_text : decimal 8080 ≡ codes "8080"
unfolding decimal
port_text = refl

destination_parts : subnet_parts (codes "10.1.0.0/ 024") ≡ some (codes "10.1.0.0", codes "24")
unfolding subnet_parts
destination_parts = refl

quoted_line : repr (codes "annotate \"it's\"") ≡ codes "'annotate \"it\\'s\"'"
unfolding repr
quoted_line = refl

zones_greedy : zones_in (codes "a->b->c/d/e x") ≡ some (codes "a->b", codes "c/d")
unfolding zones_in
zones_greedy = refl

abbrev listing : Text
listing =
    codes
      "set security policies from-zone branch to-zone dmz policy aa-web match x\nset security policies from-zone branch to-zone k8s-prod policy aa-ghost then permit"

listing_managed :
    managed_in listing
    ≡ (codes "aa-web", codes "branch->dmz/aa-web")
      ∷ (codes "aa-ghost", codes "branch->k8s-prod/aa-ghost")
      ∷ []
unfolding managed_in
listing_managed = refl

abbrev web_spec : Spec
web_spec = record {
  source_zone = none;
  destination_zone = some (codes "dmz");
  source_address = none;
  destination = some (codes "10.1.0.7");
  requester = some (codes "ada");
  ports = some (443 ∷ []);
}

abbrev web : Item
web = record {
  name = codes "web";
  generation = some 1;
  deletion_timestamp = false;
  finalizers = none;
  spec = some web_spec;
  status = none;
}

abbrev old : Item
old = record {
  name = codes "old";
  generation = some 2;
  deletion_timestamp = true;
  finalizers = some (finalizer ∷ []);
  spec = some web_spec;
  status = none;
}

abbrev reply : History → Text
reply (Call.read_banner ∷ h) = codes "\nadmin@fw> "
reply (Call.send p Command.show_policies ∷ h) = listing
reply (Call.send p Command.show_compare ∷ h) = codes "[edit]\n+  policy"
reply (Call.send p Command.commit_and_quit ∷ h) = codes "commit complete"
reply h = []

abbrev lab : List Item → Env
lab items = record {
  listed = λ h. returned items;
  opened = λ h. returned tt;
  replied = λ h. returned (reply h);
  patched = λ h. returned tt;
  now = λ h. [];
}

-- A firewall that accepts whatever it answers.
abbrev willing : Cli
willing = record { enters = λ out. true; leaves = λ out. true }

lab-IsHonest : (items : List Item) → IsHonest willing (lab items)
lab-IsHonest items = (
  λ h out q. refl,
  λ h out q. refl,
  λ h out q c. subst (λ o. error_in o ≡ none) (same (codes "commit complete") out q) quiet,
)
  where
    same : (a b : Text) → returned a ≡ returned b → a ≡ b
    same a b q = cc

    quiet : error_in (codes "commit complete") ≡ none
    quiet = unfold error_in in refl

rounds-moded_example :
    moded willing (lab (web ∷ old ∷ [])) (rounds (lab (web ∷ old ∷ [])) 2 []) ≡ true
rounds-moded_example = rounds-moded willing (lab (web ∷ old ∷ [])) (lab-IsHonest (web ∷ old ∷ [])) 2

abbrev ghost : Pair
ghost = record { source = codes "branch"; destination = codes "k8s-prod"; tag = codes "aa-ghost" }

abbrev pass : History
pass = (reconcile (lab []) []).0

-- What the pass sent last: the ghost's block, and the end of the session.
pass_ends :
    (rest : History) × (pass
      ≡ Call.close_session
        ∷ Call.send Schema.either Command.commit_and_quit
        ∷ Call.send Schema.config Command.show_compare
        ∷ rest)
unfolding reconcile
pass_ends = (_, refl)

abbrev ghost_deleted : Memᴰ (Call.send Schema.config (Command.delete_policy ghost)) pass
unfolding reconcile
ghost_deleted = tail (tail (tail (tail (head refl))))

reconcile-Justified_example :
    Memᴰ (Call.send Schema.config (Command.delete_policy ghost)) []
    ⊎ Justified [] (Call.send Schema.config (Command.delete_policy ghost))
reconcile-Justified_example =
    reconcile-Justified (lab []) [] [] refl (Call.send Schema.config (Command.delete_policy ghost))
      ghost_deleted

reconcile-Guarded_example :
    Guarded (lab (web ∷ old ∷ [])) (web ∷ old ∷ []) [] (reconcile (lab (web ∷ old ∷ [])) []).0
reconcile-Guarded_example = reconcile-Guarded (lab (web ∷ old ∷ [])) [] (web ∷ old ∷ []) refl

abbrev pass_returned : reconcile (lab []) [] ≡ (pass, returned tt)
unfolding reconcile
pass_returned = refl

abbrev web_line : Text
web_line = codes "set security policies from-zone branch to-zone dmz policy aa-web match x"

recorded_pair-ref_of_example : recorded_pair (codes "ghost") (some (ref_of ghost)) ≡ ghost
recorded_pair-ref_of_example =
    recorded_pair-ref_of (codes "branch") (codes "k8s-prod") (codes "ghost") refl refl refl refl
      refl refl

set_ready-report_of_example :
    set_ready
      (lab [])
      (record (report_of web (ref_of ghost) []) {
        current = some (stored (status_of [] (report_of web (ref_of ghost) [])));
      })
      []
    ≡ ([], returned tt)
set_ready-report_of_example = set_ready-report_of (lab []) [] [] web ghost []

abbrev refusing : Env
refusing = record {
  listed = λ h. returned (old ∷ []);
  opened = λ h. returned tt;
  replied = λ h. returned (codes "error: permission denied");
  patched = λ h. returned tt;
  now = λ h. [];
}

revoke-unregisters_example : Memᴰ (unregistering old) (revoke refusing old []).0
revoke-unregisters_example =
    revoke-unregisters refusing (λ h. (codes "error: permission denied", refl)) old []
