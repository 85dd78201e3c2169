-- ===== src/Firewall/Course.antt =====
-- The course of a pass of lab/k8s/access/fw-controller/controller.py: what its parts keep, the pass
-- keeps.
use infrahub_network_field_d.Base.{
  Bool, true, false, ◌||◌, Option, some, List, [], ◌∷◌, ◌≡◌, refl, sym, subst, ◌∙◌, inl, inr,
  Bool-cases, arith, drop, contains, list_eq, nat_eq,
}
use mathlib.Core.List.{Memᴰ}
use mathlib.Core.List.Memᴰ.{head, tail}
use infrahub_network_field_d.Base.Dict.{Dict}
use infrahub_network_field_d.Base.Text.{Text, codes}
use infrahub_network_field_d.Firewall.Schema
use infrahub_network_field_d.Firewall.Schema.{
  Spec, Item, Pair, Written, Command, Call, History, Outcome, returned, Env, ask, ◌>>=◌,
}
use infrahub_network_field_d.Firewall.Replies.{is_prompt, last_line}
use infrahub_network_field_d.Firewall.Commands.{obj_name}
use infrahub_network_field_d.Firewall.Driver.{apply, remove, connect, list_managed, tell}
use infrahub_network_field_d.Firewall.Pass.{
  Report, set_ready, revoke, register, unregister, grant, take_items, prune, sweep, closing,
  session, status_of, reconcile, is_current, report_of, current_ref,
}
use infrahub_network_field_d.Firewall.Ends.{
  Ends, returns, raises, errs, continue-Ends, ask-Ends, Ends-all, tolerate-Ends, weaken-Ends,
}
use infrahub_network_field_d.Firewall.Managed.{Tagged, managed_in-Tagged}
use infrahub_network_field_d.Firewall.Deletes.{live_tags, IsGone}

-- A command that a pass gives outside a block.
abbrev pub is_query : Command → Bool
is_query Command.screen_length = true
is_query Command.screen_width = true
is_query Command.show_policies = true
is_query c = false

-- Laws of the parts of a pass over the objects `all`: `I` holds between the parts, `E` where the pass
-- stops, `J` of an object that is registered, and `T` of a name whose policy was removed.
pub record Course (e : Env) (all : List Item) (I E : History → Type 0) (J : Item → History → Type 0)
    (T : Text → History → Type 0) : Type 0 where
  pub fails : (h : History) → I h → E h
  pub opens : (h : History) → E h → Ends (λ a. I) E (ask Call.open_session e.opened h)
  pub reads : (h : History) → I h → Ends (λ a. I) E (ask Call.read_banner e.replied h)
  pub asks :
      (c : Command) (h : History)
      → is_query c ≡ true
      → I h
      → Ends (λ a. I) E (tell e Schema.either c h)
  pub closes : (h : History) → E h → E (Call.close_session ∷ h)
  pub writes : (name : Text) (w : Written) (h : History) → I h → I (Call.patch_status name w ∷ h)
  pub registers : (item : Item) (h : History) → I h → Ends (λ a. J item) E (register e item h)
  pub applies :
      (item : Item) (h : History)
      → Memᴰ item all
      → item.deletion_timestamp ≡ false
      → J item h
      → Ends (λ a. I) E (apply e item.name item.spec h)
  pub removes :
      (name : Text) (ref : Option Text) (h : History)
      → IsGone all (obj_name name)
      → I h
      → Ends (λ a g. I g × T name g) E (remove e name ref h)
  pub unregisters :
      (item : Item) (h : History)
      → Memᴰ item all
      → item.deletion_timestamp ≡ true
      → I h
      → T item.name h
      → Ends (λ a. I) E (unregister e item h)

-- The two kinds of object that a pass meets.
take_dead :
    (e : Env) (wanted : List Text) (item : Item) (items : List Item)
    → item.deletion_timestamp ≡ true
    → take_items e wanted (item ∷ items) ≡ (revoke e item >>= λ a. take_items e wanted items)
unfolding take_items
take_dead e wanted item items t = rw t refl

take_live :
    (e : Env) (wanted : List Text) (item : Item) (items : List Item)
    → item.deletion_timestamp ≡ false
    → take_items e wanted (item ∷ items)
      ≡ (grant e item >>= λ a. take_items e (obj_name item.name ∷ wanted) items)
unfolding take_items
take_live e wanted item items f = rw f refl

-- The names that are wanted are the live ones, and those before.
abbrev pub Wants : List Text → List Item → List Text → Type 0
Wants wanted items w =
    (t : Text) → contains w t ≡ (contains wanted t || contains (live_tags items) t)

-- A live object adds its tag, and one that is being deleted none.
dead-Wants :
    (item : Item) (items : List Item) (wanted w : List Text)
    → item.deletion_timestamp ≡ true
    → Wants wanted items w
    → Wants wanted (item ∷ items) w
dead-Wants item items wanted w d q t = ground (arith, q t, d)

live-Wants :
    (item : Item) (items : List Item) (wanted w : List Text)
    → item.deletion_timestamp ≡ false
    → Wants (obj_name item.name ∷ wanted) items w
    → Wants wanted (item ∷ items) w
live-Wants item items wanted w d q t = ground (arith, q t, d)

module _ (e : Env) (all : List Item) (I E : History → Type 0) (J : Item → History → Type 0)
    (T : Text → History → Type 0) (course : Course e all I E J T) where
  set_ready-course : (r : Report) (h : History) → I h → Ends (λ a. I) E (set_ready e r h)
  unfolding set_ready
  set_ready-course r h k = elim (Bool-cases (is_current r)) [
    | inl t ↦ rw t (returns k)
    | inr f ↦ rw f (
        tolerate-Ends
          (ask-Ends (Call.patch_status r.name (status_of (e.now h) r)) e.patched h
            (course.writes r.name (status_of (e.now h) r) h k)
            (λ a q. course.writes r.name (status_of (e.now h) r) h k))
          course.fails)
  ]

  grant-course :
      (item : Item) (h : History)
      → Memᴰ item all
      → item.deletion_timestamp ≡ false
      → I h
      → Ends (λ a. I) E (grant e item h)
  unfolding grant
  grant-course item h m d k = continue-Ends (course.registers item h k) (λ a g n.
      continue-Ends (course.applies item g m d n)
        (λ applied g n. set_ready-course (report_of item applied.0 applied.1) g n))

  revoke-course :
      (item : Item) (h : History)
      → Memᴰ item all
      → item.deletion_timestamp ≡ true
      → I h
      → Ends (λ a. I) E (revoke e item h)
  unfolding revoke
  revoke-course item h m d k =
      continue-Ends
        (course.removes item.name (current_ref item.status) h (inl (item, m, d, refl)) k)
        (λ a g n. course.unregisters item g m d n.0 n.1)

  pub take_items-course :
      (wanted : List Text) (items : List Item) (h : History)
      → ((i : Item) → Memᴰ i items → Memᴰ i all)
      → I h
      → Ends (λ w g. I g × Wants wanted items w) E (take_items e wanted items h)
  unfolding take_items
  take_items-course wanted [] h s m = returns (m, λ t. ground arith)
  take_items-course wanted (item ∷ items) h s m = elim (Bool-cases item.deletion_timestamp) [
    | inl t ↦
        subst (λ r. Ends (λ w g. I g × Wants wanted (item ∷ items) w) E (r h))
          (sym (take_dead e wanted item items t))
          (continue-Ends (revoke-course item h (s item (head refl)) t m) (λ a g n.
            weaken-Ends (take_items-course wanted items g (λ i k. s i (tail k)) n)
              (λ w g q. (q.0, dead-Wants item items wanted w t q.1))))
    | inr f ↦
        subst (λ r. Ends (λ w g. I g × Wants wanted (item ∷ items) w) E (r h))
          (sym (take_live e wanted item items f))
          (continue-Ends (grant-course item h (s item (head refl)) f m) (λ a g n.
            weaken-Ends
              (take_items-course (obj_name item.name ∷ wanted) items g (λ i k. s i (tail k)) n)
              (λ w g q. (q.0, live-Wants item items wanted w f q.1))))
  ]

  prune-course :
      (wanted : List Text) (managed : Dict Text Text) (h : History)
      → ((t : Text) → contains wanted t ≡ contains (live_tags all) t)
      → Tagged managed
      → I h
      → Ends (λ a. I) E (prune e wanted managed h)
  unfolding prune
  prune-course wanted [] h w k m = returns m
  prune-course wanted ((tag, ref) ∷ managed) h w k m = elim (Bool-cases (contains wanted tag)) [
    | inl t ↦ rw (t, prune) (prune-course wanted managed h w k.1 m)
    | inr f ↦
        rw (f, prune)
          (continue-Ends
            (course.removes (drop 3 tag) (some ref) h
              (subst (IsGone all) (sym k.0) (inr (sym (w tag) ∙ f))) m)
            (λ a g n. prune-course wanted managed g w k.1 n.0))
  ]

  list_managed-course :
      (h : History) → I h → Ends (λ managed g. I g × Tagged managed) E (list_managed e h)
  unfolding list_managed
  list_managed-course h m =
      continue-Ends (course.asks Command.show_policies h refl m)
        (λ out g n. returns (n, managed_in-Tagged out))

  sweep-course : (h : History) → I h → Ends (λ a. I) E (sweep e all h)
  unfolding sweep
  sweep-course h m = continue-Ends (list_managed-course h m) (λ managed g n.
      continue-Ends (take_items-course [] all g (λ i k. k) n.0)
        (λ wanted g w. prune-course wanted managed g w.1 n.1 w.0))

  connect-course : (h : History) → E h → Ends (λ a. I) E (connect e h)
  unfolding connect
  connect-course h m = continue-Ends (course.opens h m) (λ a g n.
      continue-Ends (course.reads g n) (λ banner g n.
        elim (Bool-cases (is_prompt (last_line banner))) [
          | inl t ↦ rw t (
              continue-Ends (course.asks Command.screen_length g refl n) (λ a g n.
                continue-Ends (course.asks Command.screen_width g refl n) (λ a g n. returns n)))
          | inr f ↦ rw f (
              raises {t = codes "RuntimeError: does not present a Junos prompt"}
                (course.closes g (course.fails g n)))
        ]))

  closing-course :
      (o : History × Outcome (Unit {0})) → Ends (λ a. I) E o → Ends (λ a. E) E (closing e o)
  closing-course o (returns {h = h} n) = returns (course.closes h (course.fails h n))
  closing-course o (errs {h = h} n) = errs (course.closes h n)
  closing-course o (raises {h = h} n) = raises (course.closes h n)

  -- What holds where a pass may stop holds at its end.
  pub session-course : (h : History) → E h → Ends (λ a. E) E (session e all h)
  session-course h m =
      continue-Ends (connect-course h m)
        (λ a g n. closing-course (sweep e all g) (sweep-course g n))

pub returned_eq : {A : Type 0} (a b : A) → returned a ≡ returned b → a ≡ b
returned_eq a b r = cc

-- A pass whose list of objects is known.
pub reconcile-course :
    (e : Env) (all : List Item) (I E : History → Type 0) (J : Item → History → Type 0)
    (T : Text → History → Type 0)
    → Course e all I E J T
    → (h : History) → e.listed (Call.list_access ∷ h) ≡ returned all
    → E (Call.list_access ∷ h)
    → E (reconcile e h).0
unfolding reconcile
reconcile-course e all I E J T course h q k =
    rw q (Ends-all (session-course e all I E J T course (Call.list_access ∷ h) k) (λ a g n. n))
