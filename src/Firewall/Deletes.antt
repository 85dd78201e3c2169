-- ===== src/Firewall/Deletes.antt =====
-- What a pass of lab/k8s/access/fw-controller/controller.py deletes from the firewall.
use infrahub_network_field_d.Base.{
  ℕ, true, false, Option, List, [], ◌∷◌, ◌++◌, ◌≡◌, ◌⊎◌, sym, subst, inr, if◌then◌else◌, arith,
  contains, list_eq, nat_eq,
}
use mathlib.Core.List.{Memᴰ}
use mathlib.Core.List.Memᴰ.{head, tail, of_map}
use infrahub_network_field_d.Base.Text.{Text, codes, starts_with}
use infrahub_network_field_d.Firewall.Schema
use infrahub_network_field_d.Firewall.Schema.{
  Spec, Item, Pair, Command, Call, History, Outcome, returned, Env, ask,
}
use infrahub_network_field_d.Firewall.Replies.{sorted_applications}
use infrahub_network_field_d.Firewall.Commands.{grant_lines, revoke_lines, obj_name}
use infrahub_network_field_d.Firewall.Driver.{recorded_pair}
use infrahub_network_field_d.Firewall.Blocks.{is_set, member-all_of, grant_lines-set}
use infrahub_network_field_d.Firewall.Managed.{sorted_applications-Starts}

-- The tags of the objects that are not being deleted.
abbrev pub live_tags : List Item → List Text
live_tags [] = []
live_tags (item ∷ items) =
    let rest = live_tags items in
    if item.deletion_timestamp then rest else obj_name item.name ∷ rest

-- The tag of an object that is being deleted, or of none that is not.
abbrev pub IsGone : List Item → Text → Type 0
IsGone items tag =
    ((item : Item) × Memᴰ item items
      × (item.deletion_timestamp ≡ true)
      × (obj_name item.name ≡ tag))
    ⊎ (contains (live_tags items) tag ≡ false)

-- What is deleted is gone: a policy or an address by its tag, an application by the tag that its
-- name begins with.
abbrev pub Justified : List Item → Call → Type 0
Justified items (Call.send p (Command.delete_policy pair)) = IsGone items pair.tag
Justified items (Call.send p (Command.delete_address tag)) = IsGone items tag
Justified items (Call.send p (Command.delete_application app)) =
    (tag : Text) × IsGone items tag × (starts_with (tag ++ codes "-p") app ≡ true)
Justified items c = Unit

set-Justified :
    (items : List Item) (c : Command)
    → is_set c ≡ true
    → Justified items (Call.send Schema.config c)
set-Justified items c k = ground arith

module _ (all : List Item) (before : History) where
  -- A call was made before, or is justified.
  abbrev pub Fair : Call → Type 0
  Fair c = Memᴰ c before ⊎ Justified all c

  abbrev pub Fairly : List Command → Type 0
  Fairly lines = (c : Command) → Memᴰ c lines → Fair (Call.send Schema.config c)

  pub grant_lines-Fair :
      (p : Pair) (parts : Text × Text) (source : Text) (ports : List ℕ) (note : Text)
      → Fairly (grant_lines p parts source ports note)
  grant_lines-Fair p parts source ports note c m = inr (
      set-Justified all c (
        member-all_of is_set c (grant_lines p parts source ports note)
          (grant_lines-set p parts source ports note) m))

  pub revoke_lines-Fair :
      (name : Text) (ref : Option Text) (out : Text)
      → IsGone all (obj_name name)
      → Fairly (revoke_lines (recorded_pair name ref) (sorted_applications (obj_name name) out))
  unfolding revoke_lines recorded_pair
  revoke_lines-Fair name ref out g c (head q) =
      inr (subst (λ d. Justified all (Call.send Schema.config d)) (sym q) g)
  revoke_lines-Fair name ref out g c (tail (head q)) =
      inr (subst (λ d. Justified all (Call.send Schema.config d)) (sym q) g)
  revoke_lines-Fair name ref out g c (tail (tail m)) =
      let (app, n, q) =
        of_map Command.delete_application (sorted_applications (obj_name name) out) m in
      inr (
        subst (λ d. Justified all (Call.send Schema.config d)) q
          (obj_name name, g, sorted_applications-Starts (obj_name name) out app n))
