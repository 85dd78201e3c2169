-- ===== src/Base/Lists.antt =====
-- Lists: lengths over the native numbers, filters by a Boolean test, and sets as lists.
use Prim.Native.Nat.{ℕ, zero, suc, ◌+◌}
use mathlib.Core.Path.{◌≡◌, refl, sym, ap, ◌∙◌}
use mathlib.Core.Bool.{Bool, true, false, not, ◌&&◌, ◌||◌}
use mathlib.Core.List.{List, [], ◌∷◌, ◌++◌, map, append_assoc}
use mathlib.Core.Option.{Option, none, some}
use native.Mathlib.Omega.{arith}
use mathlib.Core.Logic.{◌⊎◌, inl, inr}
use infrahub_network_field_d.Base.Tests.{Eq, ◌==◌, if◌then◌else◌, Bool-cases, and_left, and_right}

module _ {ℓ} {A : Type ℓ} where
  abbrev pub length : List A → ℕ
  length [] = 0
  length (x ∷ xs) = suc (length xs)

  abbrev pub is_empty : List A → Bool
  is_empty [] = true
  is_empty (x ∷ xs) = false

  abbrev pub get_elem? : List A → ℕ → Option A
  get_elem? [] i = none
  get_elem? (x ∷ xs) zero = some x
  get_elem? (x ∷ xs) (suc i) = get_elem? xs i

  abbrev pub take : ℕ → List A → List A
  take zero xs = []
  take (suc n) [] = []
  take (suc n) (x ∷ xs) = x ∷ take n xs

  abbrev pub drop : ℕ → List A → List A
  drop zero xs = xs
  drop (suc n) [] = []
  drop (suc n) (x ∷ xs) = drop n xs

  pub length-append : (xs ys : List A) → length (xs ++ ys) ≡ length xs + length ys
  length-append [] ys = omega arith
  length-append (x ∷ xs) ys = omega (arith, length-append xs ys)

  -- [x for x in xs if p(x)]
  abbrev pub keep_if : (A → Bool) → List A → List A
  keep_if p [] = []
  keep_if p (x ∷ xs) = let rest = keep_if p xs in if p x then x ∷ rest else rest

  abbrev pub any_of : (A → Bool) → List A → Bool
  any_of p [] = false
  any_of p (x ∷ xs) = p x || any_of p xs

  abbrev pub all_of : (A → Bool) → List A → Bool
  all_of p [] = true
  all_of p (x ∷ xs) = p x && all_of p xs

-- `x in xs`, for a list, a set or the keys of a dictionary.
module _ {ℓ} {A : Type ℓ} ⦃e : Eq A⦄ where
  abbrev pub contains : List A → A → Bool
  contains [] a = false
  contains (x ∷ xs) a = x == a || contains xs a

  -- set(xs): each member once
  unfoldable pub distinct : List A → List A
  distinct [] = []
  distinct (x ∷ xs) = let rest = distinct xs in if contains xs x then rest else x ∷ rest

  -- `xs - ys`
  abbrev pub minus : List A → List A → List A
  minus xs ys = keep_if (λ x. not (contains ys x)) xs

  pub contains-append :
      (xs ys : List A) (a : A) → contains (xs ++ ys) a ≡ (contains xs a || contains ys a)
  contains-append [] ys a = refl
  contains-append (x ∷ xs) ys a = ground (arith, contains-append xs ys a)

  pub contains-keep_if :
      (p : A → Bool) (xs : List A) (a : A) → contains (keep_if p xs) a ≡ (contains xs a && p a)
  contains-keep_if p [] a = refl
  contains-keep_if p (x ∷ xs) a = ground (arith, contains-keep_if p xs a, e.beq_iff x a)

  -- A test that no member passes fails at each member.
  pub any_of-member :
      (p : A → Bool) (xs : List A) (a : A) → contains xs a ≡ true → p a ≡ true → any_of p xs ≡ true
  any_of-member p [] a m h = cc
  any_of-member p (x ∷ xs) a m h = ground (arith, any_of-member p xs a, e.beq_iff x a)

  pub all_of-member :
      (p : A → Bool) (xs : List A) (a : A) → all_of p xs ≡ true → contains xs a ≡ true → p a ≡ true
  all_of-member p [] a h m = cc
  all_of-member p (x ∷ xs) a h m = elim (Bool-cases (e.beq x a)) [
    | inl t ↦ ap p (sym ((e.beq_iff x a).0 t)) ∙ and_left (p x) _ h
    | inr f ↦ all_of-member p xs a (and_right (p x) _ h) (sym (rw f) ∙ m)
  ]

  -- A test that some member passes has such a member.
  pub any_of-witness :
      (p : A → Bool) (xs : List A)
      → any_of p xs ≡ true
      → (a : A) × (contains xs a ≡ true) × (p a ≡ true)
  any_of-witness p [] h = cc
  any_of-witness p (x ∷ xs) h = elim (Bool-cases (p x)) [
    | inl t ↦ (x, ground (arith, e.beq_iff x x), t)
    | inr f ↦
        let (a, m, t) = any_of-witness p xs (ground arith) in (a, ground (arith, e.beq_iff x a), t)
  ]

module _ {ℓ} {A B : Type ℓ} ⦃e : Eq A⦄ ⦃f : Eq B⦄ (g : A → B) where
  pub contains-map : (xs : List A) (a : A) → contains xs a ≡ true → contains (map g xs) (g a) ≡ true
  contains-map [] a m = cc
  contains-map (x ∷ xs) a m = elim (Bool-cases (e.beq x a)) [
    | inl t ↦ let same = (f.beq_iff (g x) (g a)).1 (ap g ((e.beq_iff x a).0 t)) in rw same
    | inr n ↦ ground (arith, contains-map xs a)
  ]

  pub contains-map_witness :
      (xs : List A) (b : B)
      → contains (map g xs) b ≡ true
      → (a : A) × (contains xs a ≡ true) × (g a ≡ b)
  contains-map_witness [] b m = cc
  contains-map_witness (x ∷ xs) b m = elim (Bool-cases (f.beq (g x) b)) [
    | inl t ↦ (x, ground (arith, e.beq_iff x x), (f.beq_iff (g x) b).0 t)
    | inr n ↦
        let (a, h, q) = contains-map_witness xs b (ground arith) in
        (a, ground (arith, e.beq_iff x a), q)
  ]

module _ {ℓ} {A : Type ℓ} ⦃e : Eq A⦄ where
  pub contains_here : (x a : A) (xs : List A) → x ≡ a → contains (x ∷ xs) a ≡ true
  contains_here x a xs p = let h = (e.beq_iff x a).1 p in rw h

  pub contains_there : (x a : A) (xs : List A) → contains xs a ≡ true → contains (x ∷ xs) a ≡ true
  contains_there x a xs h = ground arith

  pub contains_cases :
      (x a : A) (xs : List A) → contains (x ∷ xs) a ≡ true → (x ≡ a) ⊎ (contains xs a ≡ true)
  contains_cases x a xs h = elim (Bool-cases (e.beq x a)) [
    | inl t ↦ inl ((e.beq_iff x a).0 t)
    | inr f ↦ inr (ground arith)
  ]

-- sorted(xs): stable, by a test for "at most".
module _ {ℓ} {A : Type ℓ} (le : A → A → Bool) where
  abbrev pub insert_sorted : A → List A → List A
  insert_sorted x [] = x ∷ []
  insert_sorted x (y ∷ ys) =
      let rest = insert_sorted x ys in if le x y then x ∷ y ∷ ys else y ∷ rest

  unfoldable pub sort : List A → List A
  sort [] = []
  sort (x ∷ xs) = insert_sorted x (sort xs)

  contains-insert_sorted :
      ⦃e : Eq A⦄ (x : A) (ys : List A) (a : A)
      → contains (insert_sorted x ys) a ≡ (x == a || contains ys a)
  contains-insert_sorted ⦃e⦄ x [] a = refl
  contains-insert_sorted ⦃e⦄ x (y ∷ ys) a = ground (arith, contains-insert_sorted x ys a)

  -- A sorted list has the members of the list.
  pub contains-sort : ⦃e : Eq A⦄ (xs : List A) (a : A) → contains (sort xs) a ≡ contains xs a
  unfolding sort
  contains-sort ⦃e⦄ [] a = refl
  contains-sort ⦃e⦄ (x ∷ xs) a =
      ground (arith, contains-insert_sorted x (sort xs) a, contains-sort xs a)

module _ {ℓ} {A : Type ℓ} (p : A → Bool) where
  pub any_of-append : (xs ys : List A) → any_of p (xs ++ ys) ≡ (any_of p xs || any_of p ys)
  any_of-append [] ys = refl
  any_of-append (x ∷ xs) ys = ground (arith, any_of-append xs ys)

  pub any_of-keep_if :
      (q : A → Bool) (xs : List A) → any_of p xs ≡ false → any_of p (keep_if q xs) ≡ false
  any_of-keep_if q [] h = refl
  any_of-keep_if q (x ∷ xs) h = ground (arith, any_of-keep_if q xs)

  -- The two halves of a list, by a test.
  pub any_of-split :
      (q : A → Bool) (xs : List A)
      → (any_of p (keep_if (λ x. not (q x)) xs) || any_of p (keep_if q xs)) ≡ any_of p xs
  any_of-split q [] = refl
  any_of-split q (x ∷ xs) = ground (arith, any_of-split q xs)

  pub any_of-insert_sorted :
      (le : A → A → Bool) (x : A) (ys : List A)
      → any_of p (insert_sorted le x ys) ≡ (p x || any_of p ys)
  any_of-insert_sorted le x [] = refl
  any_of-insert_sorted le x (y ∷ ys) = ground (arith, any_of-insert_sorted le x ys)

  pub any_of-sort : (le : A → A → Bool) (xs : List A) → any_of p (sort le xs) ≡ any_of p xs
  unfolding sort
  any_of-sort le [] = refl
  any_of-sort le (x ∷ xs) =
      ground (arith, any_of-insert_sorted le x (sort le xs), any_of-sort le xs)

module _ {ℓ} {A : Type ℓ} where
  pub append_singleton : (xs ys : List A) (x : A) → (xs ++ x ∷ []) ++ ys ≡ xs ++ x ∷ ys
  append_singleton xs ys x = append_assoc xs (x ∷ []) ys
