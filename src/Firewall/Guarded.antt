-- ===== src/Firewall/Guarded.antt =====
-- The order of the calls of lab/k8s/access/fw-controller/controller.py around an object's finalizer:
-- it is on record before the firewall is written to, and taken off after the firewall was told.
use infrahub_network_field_d.Base.{
  ℕ, Bool, true, false, ◌||◌, Option, ◌&&◌, all_of, none, some, List, [], ◌∷◌, ◌≡◌, ◌⊎◌, refl, sym,
  subst, inl, inr, arith, contains, list_eq, nat_eq, ◌==◌,
}
use mathlib.Core.List.{Memᴰ}
use infrahub_network_field_d.Base.Text.{Text, codes}
use infrahub_network_field_d.Firewall.Schema
use infrahub_network_field_d.Firewall.Schema.{
  Spec, Item, Pair, Command, Call, History, Outcome, returned, http_error, raised, Env, ask, ◌>>=◌,
}
use infrahub_network_field_d.Firewall.Commands.{
  finalizer, grant_lines, revoke_lines, obj_name, subnet_parts, or_else,
}
use infrahub_network_field_d.Firewall.Driver.{apply, apply_spec, apply_ports, pair_of, note_of}
use infrahub_network_field_d.Firewall.Pass.{has_finalizer}
use infrahub_network_field_d.Firewall.Ends.{Ends, returns, raises, errs, continue-Ends, ask-Ends}
use infrahub_network_field_d.Firewall.Reaches.{configure-Sent, Lines}
use infrahub_network_field_d.Firewall.Blocks.{is_added, all_of-map, grant_lines-cases}

abbrev pub is_returned : Outcome (Unit {0}) → Bool
is_returned (returned a) = true
is_returned o = false

-- The call puts the finalizer on the named object's record.
abbrev pub registers : Text → Call → Outcome (Unit {0}) → Bool
registers name (Call.patch_finalizers n fs) o =
    (n == name) && contains fs finalizer && is_returned o
registers name c o = false

unfoldable pub registered : Env → Text → History → Bool
registered e name [] = false
registered e name (c ∷ h) = registers name c (e.patched (c ∷ h)) || registered e name h

-- An address is set for a listed object that is not being deleted and whose finalizer is on record;
-- finalizers are written with the controller's own among them, or for a listed object that is being
-- deleted, once a deletion of its policy was sent.
abbrev pub IsGuarded : Env → List Item → Call → History → Type 0
IsGuarded e items (Call.send p (Command.set_address tag addr bits)) h =
    (item : Item) × Memᴰ item items
    × (item.deletion_timestamp ≡ false)
    × (obj_name item.name ≡ tag)
    × ((has_finalizer item || registered e item.name h) ≡ true)
IsGuarded e items (Call.patch_finalizers name fs) h =
    (contains fs finalizer ≡ true)
    ⊎ ((item : Item) × Memᴰ item items
        × (item.deletion_timestamp ≡ true)
        × (item.name ≡ name)
        × ((pair : Pair) × (pair.tag ≡ obj_name name)
            × Memᴰ (Call.send Schema.config (Command.delete_policy pair)) h))
IsGuarded e items c h = Unit

-- A history that calls extend, each of them guarded.
pub data Guarded (e : Env) (items : List Item) (before : History) : History → Type 0 where
  start : Guarded e items before before
  step :
      {c : Call} {h : History}
      → Guarded e items before h
      → IsGuarded e items c h
      → Guarded e items before (c ∷ h)

added-IsGuarded :
    (e : Env) (items : List Item) (c : Command) (h : History)
    → is_added c ≡ true
    → IsGuarded e items (Call.send Schema.config c) h
added-IsGuarded e items c h k = ground arith

-- A line that takes something off.
abbrev pub is_delete : Command → Bool
is_delete (Command.delete_policy p) = true
is_delete (Command.delete_address tag) = true
is_delete (Command.delete_application app) = true
is_delete c = false

pub delete-IsGuarded :
    (e : Env) (items : List Item) (c : Command) (h : History)
    → is_delete c ≡ true
    → IsGuarded e items (Call.send Schema.config c) h
delete-IsGuarded e items c h k = ground arith

pub revoke_lines-delete :
    (p : Pair) (apps : List Text) → all_of is_delete (revoke_lines p apps) ≡ true
unfolding revoke_lines
revoke_lines-delete p apps = all_of-map is_delete Command.delete_application apps (λ x. refl)

module _ (e : Env) (all : List Item) (before : History) where
  abbrev pub G : History → Type 0
  G = Guarded e all before

  -- The same, with the object's finalizer on record.
  abbrev pub Held : Item → History → Type 0
  Held item h = G h × ((has_finalizer item || registered e item.name h) ≡ true)

  pub hold :
      (item : Item) (c : Call) (h : History)
      → (Held item h → IsGuarded e all c h)
      → Held item h
      → Held item (c ∷ h)
  unfolding registered
  hold item c h g k = (step k.0 (g k), ground (arith, k.1))

  pub say-Guarded :
      {A : Type 0} (c : Call) (answer : History → Outcome A) (h : History)
      → IsGuarded e all c h
      → G h
      → Ends (λ a. G) G (ask c answer h)
  say-Guarded c answer h j k = ask-Ends c answer h (step k j) (λ a q. step k j)

  drop-Held :
      {A : Type 0} {S : History → Type 0} (item : Item) {o : History × Outcome A}
      → Ends (λ a g. Held item g × S g) (Held item) o
      → Ends (λ a. G) G o
  drop-Held item (returns q) = returns q.0.0
  drop-Held item (errs q) = errs q.0
  drop-Held item (raises q) = raises q.0

  grant_lines-Held :
      (item : Item) (p : Pair) (parts : Text × Text) (source : Text) (ports : List ℕ) (note : Text)
      → Memᴰ item all
      → item.deletion_timestamp ≡ false
      → p.tag ≡ obj_name item.name
      → Lines (Held item) (grant_lines p parts source ports note)
  grant_lines-Held item p parts source ports note m d t c n h k =
      elim (grant_lines-cases p parts source ports note c n) [
        | inl q ↦
            hold item (Call.send Schema.config c) h
              (λ k.
                subst (λ x. IsGuarded e all (Call.send Schema.config x) h) (sym q)
                  (item, m, d, sym t, k.1))
              k
        | inr a ↦ hold item (Call.send Schema.config c) h (λ k. added-IsGuarded e all c h a) k
      ]

  pub apply-Guarded :
      (item : Item) (s : Option Spec) (h : History)
      → Memᴰ item all
      → item.deletion_timestamp ≡ false
      → Held item h
      → Ends (λ a. G) G (apply e item.name s h)
  unfolding apply
  apply-Guarded item none h m d k = raises k.0
  apply-Guarded item (some s) h m d k = spec s.destination
    where
      ports :
          (parts : Option (Text × Text)) (ps : Option (List ℕ))
          → Ends (λ a. G) G (apply_ports e s item.name parts ps h)
      ports none ps = raises k.0
      ports (some parts) none = raises k.0
      ports (some parts) (some ps) =
          continue-Ends
            (drop-Held item (
              configure-Sent (Held item) e
                (
                  λ h. hold item _ h (λ k. tt),
                  λ h. hold item _ h (λ k. tt),
                  λ h. hold item _ h (λ k. tt),
                  λ h. hold item _ h (λ k. tt),
                  λ h. hold item _ h (λ k. tt),
                )
                (grant_lines (pair_of s item.name) parts
                  (or_else s.source_address (codes "branch-users")) ps (note_of s item.name))
                h
                (grant_lines-Held item (pair_of s item.name) parts
                  (or_else s.source_address (codes "branch-users")) ps (note_of s item.name) m d
                  refl)
                k))
            (λ failures g n. returns n)

      spec : (d : Option Text) → Ends (λ a. G) G (apply_spec e s item.name d h)
      spec none = raises k.0
      spec (some d) = ports (subnet_parts d) s.ports
