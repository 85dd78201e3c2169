-- ===== src/Base/Groups.antt =====
-- A dictionary of lists, to which members are appended: `d.setdefault(k, []).append(v)`.
use mathlib.Core.Path.{◌≡◌, refl, sym, ap, subst, ◌∙◌}
use mathlib.Core.Logic.{inl, inr}
use mathlib.Core.Bool.{false}
use mathlib.Core.List.{List, [], ◌∷◌, ◌++◌, Memᴰ}
use mathlib.Core.List.Memᴰ.{head, append_right, append_left, not-nil}
use mathlib.Core.Option.{Option, none, some}
use infrahub_network_field_d.Base.Tests.{Eq, Bool-cases}
use infrahub_network_field_d.Base.Dict.{Dict, get, put, or_empty, get-put}
use infrahub_network_field_d.Base.Members.{Before, append-Before, get-member, Before-append}

module _ {ℓ} {K V : Type ℓ} ⦃e : Eq K⦄ where
  -- d.get(k, [])
  abbrev pub group : Dict K (List V) → K → List V
  group d k = or_empty (get d k)

  abbrev pub append_to : Dict K (List V) → K → V → Dict K (List V)
  append_to d k v = put d k (group d k ++ v ∷ [])

  pub group-put_same :
      (d : Dict K (List V)) (k j : K) (vs : List V) → k ≡ j → group (put d k vs) j ≡ vs
  group-put_same d k j vs p =
      let t = (e.beq_iff k j).1 p in ap or_empty (get-put d k vs j) ∙ rw t refl

  pub group-put_other :
      (d : Dict K (List V)) (k j : K) (vs : List V)
      → e.beq k j ≡ false
      → group (put d k vs) j ≡ group d j
  group-put_other d k j vs n = ap or_empty (get-put d k vs j) ∙ rw n refl

  -- What holds of a group, and of it with any members after it, holds when one is appended.
  module _ (Q : List V → Type ℓ) (grow : (xs ys : List V) → Q xs → Q (xs ++ ys)) where
    pub append_to-grows :
        (d : Dict K (List V)) (k j : K) (v : V) → Q (group d j) → Q (group (append_to d k v) j)
    append_to-grows d k j v h = elim (Bool-cases (e.beq k j)) [
      | inl t ↦
          let p : k ≡ j = (e.beq_iff k j).0 t in
          subst Q (sym (group-put_same d k j _ p))
            (grow (group d k) (v ∷ []) (subst (λ z. Q (group d z)) (sym p) h))
      | inr n ↦ subst Q (sym (group-put_other d k j _ n)) h
    ]

  pub append_to-Memᴰ :
      (d : Dict K (List V)) (k j : K) (v : V) → k ≡ j → Memᴰ v (group (append_to d k v) j)
  append_to-Memᴰ d k j v p =
      subst (λ vs. Memᴰ v vs) (sym (group-put_same d k j _ p))
        (append_right (group d k) (head refl))

  pub append_to-Before :
      (d : Dict K (List V)) (k j : K) (l v : V)
      → k ≡ j
      → Memᴰ l (group d j)
      → Before l v (group (append_to d k v) j)
  append_to-Before d k j l v p m =
      subst (λ vs. Before l v vs) (sym (group-put_same d k j _ p))
        (append-Before (subst (λ z. Memᴰ l (group d z)) (sym p) m) (head refl))

  -- A group with a member is an entry of the dictionary.
  pub group-entry :
      (d : Dict K (List V)) (k : K) (v : V) → Memᴰ v (group d k) → Memᴰ (k, group d k) d
  group-entry d k v m = get-member d k (group d k) (present (get d k) m)
    where
      present : (o : Option (List V)) → Memᴰ v (or_empty o) → o ≡ some (or_empty o)
      present none n = absurd (not-nil n)
      present (some vs) n = refl

pub Memᴰ-grows {ℓ} : {V : Type ℓ} (v : V) (xs ys : List V) → Memᴰ v xs → Memᴰ v (xs ++ ys)
Memᴰ-grows v xs ys m = append_left ys m

pub Before-grows {ℓ} :
    {V : Type ℓ} (l r : V) (xs ys : List V) → Before l r xs → Before l r (xs ++ ys)
Before-grows l r xs ys b = Before-append ys b
