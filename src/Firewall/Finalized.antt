-- ===== src/Firewall/Finalized.antt =====
-- A pass of lab/k8s/access/fw-controller/controller.py keeps the order of calls around finalizers.
use infrahub_network_field_d.Base.{
  Bool, true, ◌||◌, Option, List, [], ◌∷◌, ◌++◌, ◌≡◌, refl, ◌∙◌, inl, inr, Bool-cases, arith,
  contains, contains-append, beq_refl, list_eq, nat_eq,
}
use mathlib.Core.List.{Memᴰ}
use mathlib.Core.List.Memᴰ.{head}
use infrahub_network_field_d.Base.Text.{Text}
use infrahub_network_field_d.Firewall.Schema
use infrahub_network_field_d.Firewall.Schema.{
  Spec, Item, Pair, Command, Call, History, Outcome, returned, http_error, raised, Env, ask, ◌>>=◌,
}
use infrahub_network_field_d.Firewall.Replies.{sorted_applications}
use infrahub_network_field_d.Firewall.Commands.{finalizer, revoke_lines, obj_name}
use infrahub_network_field_d.Firewall.Driver.{remove, recorded_pair}
use infrahub_network_field_d.Firewall.Pass.{register, reconcile, has_finalizer, finalizers_of}
use infrahub_network_field_d.Firewall.Ends.{Ends, returns, continue-Ends, ask-Ends}
use infrahub_network_field_d.Firewall.Reaches.{configure-Sent}
use infrahub_network_field_d.Firewall.Blocks.{member-all_of}
use infrahub_network_field_d.Firewall.Revoked.{unregistering}
use infrahub_network_field_d.Firewall.Course.{Course, is_query, reconcile-course}
use infrahub_network_field_d.Firewall.Guarded.{
  IsGuarded, registered, Guarded, step, start, delete-IsGuarded, is_delete, revoke_lines-delete, G,
  Held, say-Guarded, apply-Guarded,
}

or_true : (b : Bool) → (b || true) ≡ true
or_true b = ground arith

contains_last : (fs : List Text) → contains (fs ++ (finalizer ∷ [])) finalizer ≡ true
contains_last fs =
    contains-append fs (finalizer ∷ []) finalizer
    ∙ rw (beq_refl finalizer) (or_true (contains fs finalizer))

pub recorded_pair-tag :
    (name : Text) (ref : Option Text) → (recorded_pair name ref).tag ≡ obj_name name
unfolding recorded_pair
recorded_pair-tag name ref = refl

pub revoke_lines-first :
    (p : Pair) (apps : List Text) → Memᴰ (Command.delete_policy p) (revoke_lines p apps)
unfolding revoke_lines
revoke_lines-first p apps = head refl

module _ (e : Env) (all : List Item) (before : History) where
  register-Held :
      (item : Item) (h : History)
      → G e all before h
      → Ends (λ a. Held e all before item) (G e all before) (register e item h)
  unfolding registered
  register-Held item h k = elim (Bool-cases (has_finalizer item)) [
    | inl t ↦ rw t (returns (k, ground (arith, t)))
    | inr f ↦ rw f (
        ask-Ends (Call.patch_finalizers item.name fs) e.patched h
          (step k (inl (contains_last (finalizers_of item.finalizers))))
          (λ a q. (
            step k (inl (contains_last (finalizers_of item.finalizers))),
            rw (beq_refl item.name, contains_last (finalizers_of item.finalizers), q)
                (or_true (has_finalizer item)),
          )))
  ]
    where
      fs : List Text
      fs = finalizers_of item.finalizers ++ (finalizer ∷ [])

  query-IsGuarded :
      (c : Command) (h : History)
      → is_query c ≡ true
      → IsGuarded e all (Call.send Schema.either c) h
  query-IsGuarded c h k = ground arith

  -- The deletion of the policy of the name was sent.
  abbrev Told : Text → History → Type 0
  Told name h =
      (pair : Pair) × (pair.tag ≡ obj_name name)
      × Memᴰ (Call.send Schema.config (Command.delete_policy pair)) h

  remove-Told :
      (name : Text) (ref : Option Text) (h : History)
      → G e all before h
      → Ends (λ a g. G e all before g × Told name g) (G e all before) (remove e name ref h)
  unfolding remove
  remove-Told name ref h k =
      continue-Ends
        (say-Guarded e all before
          (Call.send Schema.either (Command.show_applications (obj_name name))) e.replied h tt k)
        (λ out g n.
          continue-Ends
            (configure-Sent (G e all before) e
              (
                λ h k. step k tt,
                λ h k. step k tt,
                λ h k. step k tt,
                λ h k. step k tt,
                λ h k. step k tt,
              )
              (revoke_lines (recorded_pair name ref) (sorted_applications (obj_name name) out)) g
              (λ c m h k. step k (
                delete-IsGuarded e all c h (
                  member-all_of is_delete c
                    (revoke_lines (recorded_pair name ref)
                      (sorted_applications (obj_name name) out))
                    (revoke_lines-delete (recorded_pair name ref)
                      (sorted_applications (obj_name name) out))
                    m)))
              n)
            (λ failures g n. returns (
              n.0,
              (
                recorded_pair name ref,
                recorded_pair-tag name ref,
                n.1 (Command.delete_policy (recorded_pair name ref)) (
                    revoke_lines-first (recorded_pair name ref)
                      (sorted_applications (obj_name name) out)),
              ),
            )))

  -- The laws of the parts of a pass: an object that is registered has its finalizer on record, and of
  -- a name that is removed the firewall was told.
  course_of_Guarded : Course e all (G e all before) (G e all before) (Held e all before) Told
  course_of_Guarded = record {
    fails = λ h k. k;
    opens = λ h k. say-Guarded e all before Call.open_session e.opened h tt k;
    reads = λ h k. say-Guarded e all before Call.read_banner e.replied h tt k;
    asks = λ c h q k.
        say-Guarded e all before (Call.send Schema.either c) e.replied h (query-IsGuarded c h q) k;
    closes = λ h k. step k tt;
    writes = λ name w h k. step k tt;
    registers = λ item h k. register-Held item h k;
    applies = λ item h m d k. apply-Guarded e all before item item.spec h m d k;
    removes = λ name ref h g k. remove-Told name ref h k;
    unregisters = λ item h m d k t.
        say-Guarded e all before (unregistering item) e.patched h (inr (item, m, d, refl, t)) k;
  }

-- Whatever the firewall and the cluster answer, and wherever a pass stops, the calls that it adds come
-- in this order: an address is set on the firewall only for an object of those listed, not being
-- deleted, that was listed with the controller's finalizer or on whose record this finalizer was put
-- before; and finalizers without it are written only for an object of those listed that is being
-- deleted, after the deletion of its policy was sent.
pub reconcile-Guarded :
    (e : Env) (h : History) (items : List Item)
    → e.listed (Call.list_access ∷ h) ≡ returned items
    → Guarded e items h (reconcile e h).0
reconcile-Guarded e h items q =
    reconcile-course e items (Guarded e items h) (Guarded e items h) (Held e items h)
      (Told e items h) (course_of_Guarded e items h) h q (step start tt)
