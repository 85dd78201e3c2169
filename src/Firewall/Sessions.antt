-- ===== src/Firewall/Sessions.antt =====
-- The modes of the firewall's CLI over whole passes of
-- lab/k8s/access/fw-controller/controller.py.
use infrahub_network_field_d.Base.{
  ℕ, zero, suc, Bool, true, false, Option, none, some, List, [], ◌∷◌, ◌≡◌, refl, inl, inr,
  Bool-cases, all_of, arith, list_eq, nat_eq,
}
use infrahub_network_field_d.Base.Text.{Text, codes}
use infrahub_network_field_d.Firewall.Schema
use infrahub_network_field_d.Firewall.Schema.{
  Spec, Item, Pair, Command, Call, History, Outcome, returned, http_error, raised, Env, ask,
}
use infrahub_network_field_d.Firewall.Replies.{sorted_applications}
use infrahub_network_field_d.Firewall.Commands.{
  grant_lines, revoke_lines, obj_name, subnet_parts, or_else,
}
use infrahub_network_field_d.Firewall.Driver.{
  apply, apply_spec, apply_ports, remove, pair_of, note_of, recorded_pair,
}
use infrahub_network_field_d.Firewall.Pass.{register, reconcile, rounds, has_finalizer, unregister}
use infrahub_network_field_d.Firewall.Ends.{
  Ends, returns, raises, continue-Ends, ask-Ends, weaken-Ends,
}
use infrahub_network_field_d.Firewall.Blocks.{is_set, all_of-map, all_of_weaken, grant_lines-set}
use infrahub_network_field_d.Firewall.Course.{Course, is_query, reconcile-course}
use infrahub_network_field_d.Firewall.Modes.{
  allowed, mode_after, is_edit, in_config, moded, Cli, IsHonest, Moded, Sane, step-Moded,
  configure-Moded,
}

edit_of_set : (c : Command) → is_set c ≡ true → is_edit c ≡ true
edit_of_set c k = ground arith

grant_lines-edit :
    (p : Pair) (parts : Text × Text) (source : Text) (ports : List ℕ) (note : Text)
    → all_of is_edit (grant_lines p parts source ports note) ≡ true
grant_lines-edit p parts source ports note =
    all_of_weaken is_set is_edit edit_of_set (grant_lines p parts source ports note)
      (grant_lines-set p parts source ports note)

revoke_lines-edit : (p : Pair) (apps : List Text) → all_of is_edit (revoke_lines p apps) ≡ true
unfolding revoke_lines
revoke_lines-edit p apps = all_of-map is_edit Command.delete_application apps (λ x. refl)

-- A call that is no command leaves the mode as it is.
abbrev is_silent : Call → Bool
is_silent Call.open_session = false
is_silent (Call.send p c) = false
is_silent c = true

quiet-Moded :
    {A : Type 0} (cli : Cli) (e : Env) (c : Call) (answer : History → Outcome A) (h : History)
    → is_silent c ≡ true
    → Moded cli e false h
    → Ends (λ a. Moded cli e false) (Sane cli e) (ask c answer h)
unfolding moded in_config
quiet-Moded cli e c answer h k m =
    ask-Ends c answer h (ground (arith, m.0, m.1, k))
      (λ a q. (ground (arith, m.0, m.1, k), ground (arith, m.0, m.1, k)))

query-allowed : (c : Command) → is_query c ≡ true → allowed false (Call.send Schema.either c) ≡ true
query-allowed c k = ground arith

query-mode :
    (cli : Cli) (c : Command) (o : Outcome Text)
    → is_query c ≡ true
    → mode_after cli false (Call.send Schema.either c) o ≡ false
query-mode cli c o k = ground arith

module _ (cli : Cli) (e : Env) (honest : IsHonest cli e) where
  apply-Moded :
      (name : Text) (s : Option Spec) (h : History)
      → Moded cli e false h
      → Ends (λ a. Moded cli e false) (Sane cli e) (apply e name s h)
  unfolding apply
  apply-Moded name none h m = raises m.0
  apply-Moded name (some s) h m = spec s.destination
    where
      ports :
          (parts : Option (Text × Text)) (ps : Option (List ℕ))
          → Ends (λ a. Moded cli e false) (Sane cli e) (apply_ports e s name parts ps h)
      ports none ps = raises m.0
      ports (some parts) none = raises m.0
      ports (some parts) (some ps) =
          continue-Ends
            (configure-Moded cli e honest
              (grant_lines (pair_of s name) parts (or_else s.source_address (codes "branch-users"))
                ps (note_of s name))
              h
              (grant_lines-edit (pair_of s name) parts
                (or_else s.source_address (codes "branch-users")) ps (note_of s name))
              m)
            (λ failures g n. returns n)

      spec :
          (d : Option Text) → Ends (λ a. Moded cli e false) (Sane cli e) (apply_spec e s name d h)
      spec none = raises m.0
      spec (some d) = ports (subnet_parts d) s.ports

  remove-Moded :
      (name : Text) (ref : Option Text) (h : History)
      → Moded cli e false h
      → Ends (λ a. Moded cli e false) (Sane cli e) (remove e name ref h)
  unfolding remove
  remove-Moded name ref h m =
      continue-Ends
        (step-Moded cli e (Call.send Schema.either (Command.show_applications (obj_name name)))
          e.replied false false h m refl (λ a q. refl))
        (λ out g n.
          continue-Ends
            (configure-Moded cli e honest
              (revoke_lines (recorded_pair name ref) (sorted_applications (obj_name name) out)) g
              (revoke_lines-edit (recorded_pair name ref) (sorted_applications (obj_name name) out))
              n)
            (λ failures g n. returns n))

  register-Moded :
      (item : Item) (h : History)
      → Moded cli e false h
      → Ends (λ a. Moded cli e false) (Sane cli e) (register e item h)
  register-Moded item h m = elim (Bool-cases (has_finalizer item)) [
    | inl t ↦ rw t (returns m)
    | inr f ↦ rw f (quiet-Moded cli e _ e.patched h refl m)
  ]

  unregister-Moded :
      (item : Item) (h : History)
      → Moded cli e false h
      → Ends (λ a. Moded cli e false) (Sane cli e) (unregister e item h)
  unregister-Moded item h m = quiet-Moded cli e _ e.patched h refl m

  -- The laws of the parts of a pass: between them the session is in operational mode.
  course_of_Moded :
      (items : List Item)
      → Course e items
          (Moded cli e false)
          (Sane cli e)
          (λ item. Moded cli e false)
          (λ name h. Unit {0})
  unfolding moded in_config
  course_of_Moded items = record {
    fails = λ h m. m.0;
    opens = λ h s.
        step-Moded cli e Call.open_session e.opened (in_config cli e h) false h (s, refl) refl
          (λ a q. refl);
    reads = λ h m. quiet-Moded cli e Call.read_banner e.replied h refl m;
    asks = λ c h q m.
        step-Moded cli e (Call.send Schema.either c) e.replied false false h m (query-allowed c q)
          (λ a r. query-mode cli c (e.replied (Call.send Schema.either c ∷ h)) q);
    closes = λ h s. s;
    writes = λ name w h m. m;
    registers = λ item h m. register-Moded item h m;
    applies = λ item h n d m. apply-Moded item.name item.spec h m;
    removes = λ name ref h g m. weaken-Ends (remove-Moded name ref h m) (λ a h n. (n, tt));
    unregisters = λ item h n d m t. unregister-Moded item h m;
  }

  reconcile-Sane : (h : History) → Sane cli e h → Sane cli e (reconcile e h).0
  unfolding reconcile moded
  reconcile-Sane h s = go (e.listed (Call.list_access ∷ h)) refl
    where
      go :
          (o : Outcome (List Item))
          → e.listed (Call.list_access ∷ h) ≡ o
          → Sane cli e (reconcile e h).0
      go (returned items) q =
          reconcile-course e items (Moded cli e false) (Sane cli e) (λ item. Moded cli e false)
            (λ name h. Unit {0}) (course_of_Moded items) h q s
      go (http_error t) q = rw q s
      go (raised t) q = rw q s

  rounds-Sane : (n : ℕ) (h : History) → Sane cli e h → Sane cli e (rounds e n h)
  unfolding rounds moded
  rounds-Sane zero h s = s
  rounds-Sane (suc n) h s = rounds-Sane n (Call.sleep ∷ (reconcile e h).0) (reconcile-Sane h s)

  -- In every pass of the loop each command is sent in the mode of the CLI that it is of: no block of
  -- lines is begun inside another, and no command of the configuration is sent outside one. Assumed is
  -- of the firewall, whose replies the code does not read for it, that it accepts each `configure
  -- private` that it answers, that each `exit` that it answers leads out of configuration mode, and
  -- that it confirms no commit in a reply that shows an error.
  pub rounds-moded : (n : ℕ) → moded cli e (rounds e n []) ≡ true
  unfolding moded
  rounds-moded n = rounds-Sane n [] refl
