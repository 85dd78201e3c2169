-- ===== src/Firewall/Spared.antt =====
-- A pass of lab/k8s/access/fw-controller/controller.py deletes nothing of a live grant.
use infrahub_network_field_d.Base.{
  ℕ, true, Option, none, some, List, ◌∷◌, ◌≡◌, ◌⊎◌, inl, inr, Bool-cases, arith, list_eq, nat_eq,
}
use mathlib.Core.List.{Memᴰ}
use infrahub_network_field_d.Base.Text.{Text, codes}
use infrahub_network_field_d.Firewall.Schema
use infrahub_network_field_d.Firewall.Schema.{
  Spec, Item, Pair, Command, Call, History, Outcome, returned, Env, ask, ◌>>=◌,
}
use infrahub_network_field_d.Firewall.Replies.{sorted_applications}
use infrahub_network_field_d.Firewall.Commands.{
  grant_lines, revoke_lines, obj_name, subnet_parts, or_else,
}
use infrahub_network_field_d.Firewall.Driver.{
  apply, apply_spec, apply_ports, remove, configure, pair_of, note_of, recorded_pair,
}
use infrahub_network_field_d.Firewall.Pass.{register, unregister, reconcile, has_finalizer}
use infrahub_network_field_d.Firewall.Ends.{Ends, returns, raises, continue-Ends, weaken-Ends}
use infrahub_network_field_d.Firewall.Reaches.{Only, Only-cons, ask-Keeps, configure-Sent}
use infrahub_network_field_d.Firewall.Course.{Course, is_query, reconcile-course}
use infrahub_network_field_d.Firewall.Deletes.{
  IsGone, Justified, Fair, Fairly, grant_lines-Fair, revoke_lines-Fair,
}

module _ (e : Env) (all : List Item) (before : History) where
  abbrev pub Spares : History → Type 0
  Spares = Only (Fair all before)

  add-Spares : (c : Call) → Justified all c → (h : History) → Spares h → Spares (c ∷ h)
  add-Spares c j h k = Only-cons (Fair all before) c h (inr j) k

  configure-Spares :
      (lines : List Command) (h : History)
      → Fairly all before lines
      → Spares h
      → Ends (λ a. Spares) Spares (configure e lines h)
  configure-Spares lines h l k =
      weaken-Ends
        (configure-Sent Spares e
          (add-Spares _ tt, add-Spares _ tt, add-Spares _ tt, add-Spares _ tt, add-Spares _ tt)
          lines h (λ c m g n. Only-cons (Fair all before) (Call.send Schema.config c) g (l c m) n)
          k)
        (λ a g q. q.0)

  say-Spares :
      {A : Type 0} (c : Call) (answer : History → Outcome A) (h : History)
      → Justified all c
      → Spares h
      → Ends (λ a. Spares) Spares (ask c answer h)
  say-Spares c answer h j k = ask-Keeps Spares c answer h (add-Spares c j) k

  query-Justified : (c : Command) → is_query c ≡ true → Justified all (Call.send Schema.either c)
  query-Justified c k = ground arith

  apply-Spares :
      (name : Text) (s : Option Spec) (h : History)
      → Spares h
      → Ends (λ a. Spares) Spares (apply e name s h)
  unfolding apply
  apply-Spares name none h m = raises m
  apply-Spares name (some s) h m = spec s.destination
    where
      ports :
          (parts : Option (Text × Text)) (ps : Option (List ℕ))
          → Ends (λ a. Spares) Spares (apply_ports e s name parts ps h)
      ports none ps = raises m
      ports (some parts) none = raises m
      ports (some parts) (some ps) =
          continue-Ends
            (configure-Spares
              (grant_lines (pair_of s name) parts (or_else s.source_address (codes "branch-users"))
                ps (note_of s name))
              h
              (grant_lines-Fair all before (pair_of s name) parts
                (or_else s.source_address (codes "branch-users")) ps (note_of s name))
              m)
            (λ failures g n. returns n)

      spec : (d : Option Text) → Ends (λ a. Spares) Spares (apply_spec e s name d h)
      spec none = raises m
      spec (some d) = ports (subnet_parts d) s.ports

  remove-Spares :
      (name : Text) (ref : Option Text) (h : History)
      → IsGone all (obj_name name)
      → Spares h
      → Ends (λ a. Spares) Spares (remove e name ref h)
  unfolding remove
  remove-Spares name ref h j m =
      continue-Ends
        (say-Spares (Call.send Schema.either (Command.show_applications (obj_name name))) e.replied
          h tt m)
        (λ out g n.
          continue-Ends
            (configure-Spares
              (revoke_lines (recorded_pair name ref) (sorted_applications (obj_name name) out)) g
              (revoke_lines-Fair all before name ref out j) n)
            (λ failures g n. returns n))

  register-Spares :
      (item : Item) (h : History) → Spares h → Ends (λ a. Spares) Spares (register e item h)
  register-Spares item h m = elim (Bool-cases (has_finalizer item)) [
    | inl t ↦ rw t (returns m)
    | inr f ↦ rw f (say-Spares _ e.patched h tt m)
  ]

  unregister-Spares :
      (item : Item) (h : History) → Spares h → Ends (λ a. Spares) Spares (unregister e item h)
  unregister-Spares item h m = say-Spares _ e.patched h tt m

  -- The laws of the parts of a pass.
  pub course_of_Spares : Course e all Spares Spares (λ item. Spares) (λ name h. Unit {0})
  course_of_Spares = record {
    fails = λ h k. k;
    opens = λ h k. say-Spares Call.open_session e.opened h tt k;
    reads = λ h k. say-Spares Call.read_banner e.replied h tt k;
    asks = λ c h q k. say-Spares (Call.send Schema.either c) e.replied h (query-Justified c q) k;
    closes = λ h k. add-Spares Call.close_session tt h k;
    writes = λ name w h k. add-Spares (Call.patch_status name w) tt h k;
    registers = λ item h k. register-Spares item h k;
    applies = λ item h m d k. apply-Spares item.name item.spec h k;
    removes = λ name ref h g k. weaken-Ends (remove-Spares name ref h g k) (λ a h n. (n, tt));
    unregisters = λ item h m d k t. unregister-Spares item h k;
  }

-- Whatever the firewall and the cluster answer, a policy, an address or an application that a pass
-- deletes is that of an object that is being deleted, or of none of those listed that are not: a
-- policy and an address by their tag, an application by the tag that its name begins with.
pub reconcile-Justified :
    (e : Env) (h : History) (items : List Item)
    → e.listed (Call.list_access ∷ h) ≡ returned items
    → (c : Call) → Memᴰ c (reconcile e h).0
    → Memᴰ c h ⊎ Justified items c
reconcile-Justified e h items q c m =
    reconcile-course e items (Only (Fair items h)) (Only (Fair items h))
      (λ item. Only (Fair items h)) (λ name h. Unit {0}) (course_of_Spares e items h) h q
      (Only-cons (Fair items h) Call.list_access h (inr tt) (λ d n. inl n)) c m
