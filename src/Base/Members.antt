-- ===== src/Base/Members.antt =====
-- Membership of a list as evidence, the pairs of a list in order, and lists built element by
-- element.
use mathlib.Core.Path.{◌≡◌, refl, sym, ap, subst, ◌∙◌}
use mathlib.Core.Logic.{inl, inr}
use mathlib.Core.Bool.{Bool, true}
use mathlib.Core.List.{List, [], ◌∷◌, ◌++◌, map, Memᴰ}
use mathlib.Core.List.Memᴰ.{head, tail, append_left, append_right, append_cases, cast}
use mathlib.Core.List.Memᴰ as Mem
use mathlib.Core.Option.{some}
use native.Mathlib.Omega.{arith}
use infrahub_network_field_d.Base.Tests.{Eq, Bool-cases}
use infrahub_network_field_d.Base.Lists.{keep_if, any_of, insert_sorted, sort}
use infrahub_network_field_d.Base.Dict.{Dict, get}

-- [y for x in xs for y in f(x)]
abbrev pub each {ℓ κ} : {A : Type ℓ} {B : Type κ} → (A → List B) → List A → List B
each f [] = []
each f (x ∷ xs) = f x ++ each f xs

-- combinations(xs, 2)
abbrev pub combinations {ℓ} : {A : Type ℓ} → List A → List (A × A)
combinations [] = []
combinations (x ∷ xs) = map (λ y. (x, y)) xs ++ combinations xs

-- `l` stands before `r` in the list.
pub data Before {ℓ} {A : Type ℓ} (l r : A) : List A → Type ℓ where
  here : {x : A} {xs : List A} → l ≡ x → Memᴰ r xs → Before l r (x ∷ xs)
  later : {x : A} {xs : List A} → Before l r xs → Before l r (x ∷ xs)

-- Each member has a property; each member has a relation to each that follows it.
abbrev pub All {ℓ} : {A : Type ℓ} → (A → Type 0) → List A → Type 0
All P [] = Unit
All P (x ∷ xs) = P x × All P xs

abbrev pub AllPairs {ℓ} : {A : Type ℓ} → (A → A → Type 0) → List A → Type 0
AllPairs R [] = Unit
AllPairs R (x ∷ xs) = All (R x) xs × AllPairs R xs

module _ {ℓ} {A : Type ℓ} where
  pub Memᴰ-All : (P : A → Type 0) (xs : List A) → ((a : A) → Memᴰ a xs → P a) → All P xs
  Memᴰ-All P [] k = tt
  Memᴰ-All P (x ∷ xs) k = (k x (head refl), Memᴰ-All P xs (λ a m. k a (tail m)))

  pub Before-AllPairs :
      (R : A → A → Type 0) (xs : List A) → ((a b : A) → Before a b xs → R a b) → AllPairs R xs
  Before-AllPairs R [] k = tt
  Before-AllPairs R (x ∷ xs) k = (
    Memᴰ-All (R x) xs (λ b m. k x b (here refl m)),
    Before-AllPairs R xs (λ a b m. k a b (later m)),
  )

  pub All-map : (P Q : A → Type 0) (xs : List A) → ((a : A) → P a → Q a) → All P xs → All Q xs
  All-map P Q [] k h = tt
  All-map P Q (x ∷ xs) k (p, h) = (k x p, All-map P Q xs k h)

  pub AllPairs-map :
      (R S : A → A → Type 0) (xs : List A)
      → ((a b : A) → R a b → S a b)
      → AllPairs R xs
      → AllPairs S xs
  AllPairs-map R S [] k h = tt
  AllPairs-map R S (x ∷ xs) k (p, h) =
      (All-map (R x) (S x) xs (λ b. k x b) p, AllPairs-map R S xs k h)

  pub keep_if-All :
      (P : A → Type 0) (p : A → Bool) (xs : List A)
      → ((a : A) → Memᴰ a xs → p a ≡ true → P a)
      → All P (keep_if p xs)
  keep_if-All P p [] k = tt
  keep_if-All P p (x ∷ xs) k = elim (Bool-cases (p x)) [
    | inl t ↦ rw t (k x (head refl) t, keep_if-All P p xs (λ a m q. k a (tail m) q))
    | inr f ↦ rw f (keep_if-All P p xs (λ a m q. k a (tail m) q))
  ]

  pub Before-combinations : {l r : A} {xs : List A} → Before l r xs → Memᴰ (l, r) (combinations xs)
  Before-combinations {r = r} (here {x} e m) =
      append_left _ (cast (ap (λ z. (z, r)) e) (Mem.map (λ y. (x, y)) m))
  Before-combinations (later b) = append_right _ (Before-combinations b)

  pub Before-member : {l r : A} {xs : List A} → Before l r xs → Memᴰ l xs × Memᴰ r xs
  Before-member (here e m) = (head e, tail m)
  Before-member (later b) = let (p, q) = Before-member b in (tail p, tail q)

  pub Before-append : {l r : A} {xs : List A} (ys : List A) → Before l r xs → Before l r (xs ++ ys)
  Before-append ys (here e m) = here e (append_left ys m)
  Before-append ys (later b) = later (Before-append ys b)

  pub append-Before : {l r : A} {xs ys : List A} → Memᴰ l xs → Memᴰ r ys → Before l r (xs ++ ys)
  append-Before {xs = []} d m = absurd (Mem.not-nil d)
  append-Before {xs = x ∷ xs} {ys} (head e) m = here e (append_right xs m)
  append-Before {xs = x ∷ xs} {ys} (tail d) m = later (append-Before d m)

  pub append-empty : (xs ys : List A) → xs ++ ys ≡ [] → (xs ≡ []) × (ys ≡ [])
  append-empty [] ys h = (refl, h)
  append-empty (x ∷ xs) ys h = cc

  pub member-keep_if :
      (p : A → Bool) {a : A} {xs : List A} → Memᴰ a xs → p a ≡ true → Memᴰ a (keep_if p xs)
  member-keep_if p {a} {xs = []} m h = absurd (Mem.not-nil m)
  member-keep_if p {a} {xs = x ∷ xs} (head e) h =
      let t : p x ≡ true = sym (ap p e) ∙ h in rw t (head e)
  member-keep_if p {a} {xs = x ∷ xs} (tail m) h = elim (Bool-cases (p x)) [
    | inl t ↦ rw t (tail (member-keep_if p m h))
    | inr f ↦ rw f (member-keep_if p m h)
  ]

  pub any_of-Memᴰ :
      (p : A → Bool) (xs : List A) → any_of p xs ≡ true → (a : A) × Memᴰ a xs × (p a ≡ true)
  any_of-Memᴰ p [] h = cc
  any_of-Memᴰ p (x ∷ xs) h = elim (Bool-cases (p x)) [
    | inl t ↦ (x, head refl, t)
    | inr f ↦ let (a, m, t) = any_of-Memᴰ p xs (ground arith) in (a, tail m, t)
  ]

module _ {ℓ κ} {A : Type ℓ} {B : Type κ} (f : A → List B) where
  -- Nothing is built just where nothing is built of any member.
  pub each-empty : (xs : List A) → each f xs ≡ [] → (a : A) → Memᴰ a xs → f a ≡ []
  each-empty [] h a m = absurd (Mem.not-nil m)
  each-empty (x ∷ xs) h a (head e) = ap f e ∙ (append-empty (f x) (each f xs) h).0
  each-empty (x ∷ xs) h a (tail m) = each-empty xs (append-empty (f x) (each f xs) h).1 a m

  pub empty-each : (xs : List A) → ((a : A) → Memᴰ a xs → f a ≡ []) → each f xs ≡ []
  empty-each [] h = refl
  empty-each (x ∷ xs) h = rw (h x (head refl), empty-each xs (λ a m. h a (tail m)))

  pub each-member : {a : A} {b : B} {xs : List A} → Memᴰ a xs → Memᴰ b (f a) → Memᴰ b (each f xs)
  each-member {xs = []} d m = absurd (Mem.not-nil d)
  each-member {b = b} {xs = x ∷ xs} (head e) m =
      append_left (each f xs) (subst (λ z. Memᴰ b (f z)) e m)
  each-member {xs = x ∷ xs} (tail d) m = append_right (f x) (each-member d m)

  pub member-each : {b : B} (xs : List A) → Memᴰ b (each f xs) → (a : A) × Memᴰ a xs × Memᴰ b (f a)
  member-each [] m = absurd (Mem.not-nil m)
  member-each (x ∷ xs) m = elim (append_cases (f x) m) [
    | inl p ↦ (x, head refl, p)
    | inr q ↦ let (a, d, e) = member-each xs q in (a, tail d, e)
  ]

module _ {ℓ} {A : Type ℓ} (le : A → A → Bool) where
  swapped :
      {x y a : A} {xs zs : List A}
      → (Memᴰ a (x ∷ xs) → Memᴰ a zs)
      → Memᴰ a (x ∷ y ∷ xs)
      → Memᴰ a (y ∷ zs)
  swapped f (head e) = tail (f (head e))
  swapped f (tail (head e)) = head e
  swapped f (tail (tail m)) = tail (f (tail m))

  insert_sorted-member :
      (x : A) (ys : List A) {a : A} → Memᴰ a (x ∷ ys) → Memᴰ a (insert_sorted le x ys)
  insert_sorted-member x [] m = m
  insert_sorted-member x (y ∷ ys) m = elim (Bool-cases (le x y)) [
    | inl t ↦ rw t m
    | inr f ↦ rw f (swapped (insert_sorted-member x ys) m)
  ]

  -- sorted keeps the members.
  pub sort-member : {a : A} {xs : List A} → Memᴰ a xs → Memᴰ a (sort le xs)
  unfolding sort
  sort-member {xs = []} m = absurd (Mem.not-nil m)
  sort-member {xs = x ∷ xs} (head e) = insert_sorted-member x (sort le xs) (head e)
  sort-member {xs = x ∷ xs} (tail m) = insert_sorted-member x (sort le xs) (tail (sort-member m))

  under : {x a : A} {xs ys : List A} → (Memᴰ a xs → Memᴰ a ys) → Memᴰ a (x ∷ xs) → Memᴰ a (x ∷ ys)
  under f (head e) = head e
  under f (tail k) = tail (f k)

  member-insert_sorted :
      (x : A) (ys : List A) {a : A} → Memᴰ a (insert_sorted le x ys) → Memᴰ a (x ∷ ys)
  member-insert_sorted x [] m = m
  member-insert_sorted x (y ∷ ys) m = elim (Bool-cases (le x y)) [
    | inl t ↦ rw t at m
    | inr f ↦ swapped (λ k. k) (under (λ k. member-insert_sorted x ys k) (rw f at m))
  ]

  pub member-sort : {a : A} (xs : List A) → Memᴰ a (sort le xs) → Memᴰ a xs
  unfolding sort
  member-sort [] m = m
  member-sort {a} (x ∷ xs) m = under (λ k. member-sort xs k) (member-insert_sorted x (sort le xs) m)

module _ {ℓ} {K V : Type ℓ} ⦃e : Eq K⦄ where
  pub get-member : (d : Dict K V) (k : K) (v : V) → get d k ≡ some v → Memᴰ (k, v) d
  get-member [] k v h = cc
  get-member ((j, w) ∷ d) k v h = elim (Bool-cases (e.beq j k)) [
    | inl t ↦ head (sym (ground (arith, e.beq_iff j k)))
    | inr f ↦ tail (get-member d k v (rw f at h))
  ]
