-- ===== src/Base/Tests.antt =====
-- Boolean tests on numbers and texts, the conditional, and equality as an interface.
use Prim.Native.Nat.{ℕ, ◌≤◌, ◌<◌, compare, Ordering}
use Prim.Native.String.{String, compare as str_compare}
use mathlib.Core.Path.{◌≡◌, refl}
use mathlib.Core.Logic.{◌≢◌, ◌↔◌, ◌⊎◌, inl, inr}
use mathlib.Core.Bool.{Bool, true, false, not, ◌&&◌, ◌||◌}
use mathlib.Core.List.{List, [], ◌∷◌}
use mathlib.Core.Option.{Option, none, some}
use native.Mathlib.Omega.{arith}
use text.Mathlib.Text.{◌==◌ as str_eq}
use text.Mathlib.TextEquality.{eq_iff}

abbrev pub ltb : ℕ → ℕ → Bool
ltb a b = elim (compare a b) [ Ordering.lt ↦ true | _ ↦ false ]

abbrev pub leb : ℕ → ℕ → Bool
leb a b = elim (compare a b) [ Ordering.gt ↦ false | _ ↦ true ]

abbrev pub nat_beq : ℕ → ℕ → Bool
nat_beq a b = elim (compare a b) [ Ordering.eq ↦ true | _ ↦ false ]

infix 1 if◌then◌else◌
abbrev pub if◌then◌else◌ {ℓ} : {A : Type ℓ} → Bool → A → A → A
if true then x else y = x
if false then x else y = y

pub ltb→lt : (a b : ℕ) → ltb a b ≡ true → a < b
ltb→lt a b h = ground arith

pub leb→le : (a b : ℕ) → leb a b ≡ true → a ≤ b
leb→le a b h = ground arith

pub leb-false→lt : (a b : ℕ) → leb a b ≡ false → b < a
leb-false→lt a b h = ground arith

pub le→leb : (a b : ℕ) → a ≤ b → leb a b ≡ true
le→leb a b h = ground arith

pub nat_beq_iff : (a b : ℕ) → (nat_beq a b ≡ true) ↔ (a ≡ b)
nat_beq_iff a b = ground arith

pub Bool-cases : (b : Bool) → (b ≡ true) ⊎ (b ≡ false)
Bool-cases true = inl refl
Bool-cases false = inr refl

pub Option-cases {ℓ} : {A : Type ℓ} (o : Option A) → (o ≡ none) ⊎ ((a : A) × (o ≡ some a))
Option-cases none = inl refl
Option-cases (some a) = inr (a, refl)

-- Python's `==` on the keys of a dictionary or the members of a set.
pub record Eq {ℓ} (K : Type ℓ) : Type ℓ where
  pub beq : (j k : K) → Bool
  pub beq_iff : (j k : K) → (beq j k ≡ true) ↔ (j ≡ k)

module _ {ℓ} {A B : Type ℓ} where
  abbrev pub pair_beq : Eq A → Eq B → A × B → A × B → Bool
  pair_beq e f (a, b) (c, d) = e.beq a c && f.beq b d

  pub pair_beq_iff : (e : Eq A) (f : Eq B) (p q : A × B) → (pair_beq e f p q ≡ true) ↔ (p ≡ q)
  pair_beq_iff e f (a, b) (c, d) = (
    λ h. ground (arith, e.beq_iff a c, f.beq_iff b d),
    λ h. ground (arith, e.beq_iff a c, f.beq_iff b d),
  )

  instance abbrev pub pair_eq : ⦃e : Eq A⦄ ⦃f : Eq B⦄ → Eq (A × B)
  pair_eq ⦃e⦄ ⦃f⦄ = record { beq = pair_beq e f; beq_iff = pair_beq_iff e f }

module _ {ℓ} {A : Type ℓ} where
  abbrev pub option_beq : Eq A → Option A → Option A → Bool
  option_beq e none none = true
  option_beq e (some a) (some b) = e.beq a b
  option_beq e none (some b) = false
  option_beq e (some a) none = false

  pub option_beq_iff : (e : Eq A) (p q : Option A) → (option_beq e p q ≡ true) ↔ (p ≡ q)
  option_beq_iff e none none = (λ h. refl, λ h. refl)
  option_beq_iff e (some a) (some b) =
      (λ h. ground (arith, e.beq_iff a b), λ h. ground (arith, e.beq_iff a b))
  option_beq_iff e none (some b) = (λ h. cc, λ h. cc)
  option_beq_iff e (some a) none = (λ h. cc, λ h. cc)

  instance abbrev pub option_eq : ⦃e : Eq A⦄ → Eq (Option A)
  option_eq ⦃e⦄ = record { beq = option_beq e; beq_iff = option_beq_iff e }

module _ {ℓ} {A : Type ℓ} where
  abbrev pub list_beq : Eq A → List A → List A → Bool
  list_beq e [] [] = true
  list_beq e (a ∷ as') (b ∷ bs) = e.beq a b && list_beq e as' bs
  list_beq e [] (b ∷ bs) = false
  list_beq e (a ∷ as') [] = false

  pub list_beq_iff : (e : Eq A) (xs ys : List A) → (list_beq e xs ys ≡ true) ↔ (xs ≡ ys)
  list_beq_iff e [] [] = (λ h. refl, λ h. refl)
  list_beq_iff e (a ∷ as') (b ∷ bs) = (
    λ h. ground (arith, e.beq_iff a b, list_beq_iff e as' bs),
    λ h. ground (arith, e.beq_iff a b, list_beq_iff e as' bs),
  )
  list_beq_iff e [] (b ∷ bs) = (λ h. cc, λ h. cc)
  list_beq_iff e (a ∷ as') [] = (λ h. cc, λ h. cc)

  instance abbrev pub list_eq : ⦃e : Eq A⦄ → Eq (List A)
  list_eq ⦃e⦄ = record { beq = list_beq e; beq_iff = list_beq_iff e }

instance abbrev pub string_eq : Eq String
string_eq = record { beq_iff = eq_iff; beq = str_eq }

instance abbrev pub nat_eq : Eq ℕ
nat_eq = record { beq_iff = nat_beq_iff; beq = nat_beq }

infix 50 ◌==◌
abbrev pub ◌==◌ {ℓ} : {K : Type ℓ} ⦃same : Eq K⦄ → (j k : K) → Bool
◌==◌ ⦃same⦄ = same.beq

pub beq_refl {ℓ} : {A : Type ℓ} ⦃e : Eq A⦄ (a : A) → (a == a) ≡ true
beq_refl ⦃e⦄ a = (e.beq_iff a a).1 refl

pub not_beq_iff {ℓ} : {A : Type ℓ} ⦃e : Eq A⦄ (a b : A) → (not (a == b) ≡ true) ↔ (a ≢ b)
not_beq_iff ⦃e⦄ a b = (
  λ h p. ground (arith, e.beq_iff a b),
  λ h. elim (Bool-cases (e.beq a b)) [ inl t ↦ absurd (h ((e.beq_iff a b).0 t)) | inr f ↦ rw f ],
)

pub and_right : (a b : Bool) → (a && b) ≡ true → b ≡ true
and_right a b h = ground arith

pub and_left : (a b : Bool) → (a && b) ≡ true → a ≡ true
and_left a b h = ground arith

pub and_intro : {a b : Bool} → a ≡ true → b ≡ true → (a && b) ≡ true
and_intro p q = rw (p, q)

-- `<=` of two texts
abbrev pub str_leb : String → String → Bool
str_leb a b = elim (str_compare a b) [ Ordering.gt ↦ false | _ ↦ true ]

pub ne→beq {ℓ} : {A : Type ℓ} ⦃e : Eq A⦄ (a b : A) → a ≢ b → (a == b) ≡ false
ne→beq ⦃e⦄ a b h = elim (Bool-cases (e.beq a b)) [
  | inl t ↦ absurd (h ((e.beq_iff a b).0 t))
  | inr f ↦ f
]

pub or_false : (a b : Bool) → (a || b) ≡ false → (a ≡ false) × (b ≡ false)
or_false a b h = ground arith
