-- ===== src/Base/Dict.antt =====
-- Python's `dict` as an association list in insertion order, one entry to a key.
use infrahub_network_field_d.Base.Tests.{Eq, ◌==◌, if◌then◌else◌, Bool-cases}
use mathlib.Core.Logic.{inl, inr}
use infrahub_network_field_d.Base.Lists.{contains, keep_if, any_of}
use mathlib.Core.Path.{◌≡◌, refl, sym, ap, ◌∙◌}
use mathlib.Core.Bool.{Bool, true, false}
use mathlib.Core.List.{List, [], ◌∷◌, map}
use mathlib.Core.Option.{Option, none, some}
use native.Mathlib.Omega.{arith}

abbrev pub Dict {ℓ} : Type ℓ → Type ℓ → Type ℓ
Dict K V = List (K × V)

module _ {ℓ} {K V : Type ℓ} where
  abbrev pub keys : Dict K V → List K
  keys = map (λ e. e.0)

  abbrev pub values : Dict K V → List V
  values = map (λ e. e.1)

-- d.get(k, []), for a dictionary of lists.
abbrev pub or_empty {ℓ} : {A : Type ℓ} → Option (List A) → List A
or_empty none = []
or_empty (some xs) = xs

module _ {ℓ} {K V : Type ℓ} ⦃e : Eq K⦄ where
  -- d.get(k)
  abbrev pub get : Dict K V → K → Option V
  get [] k = none
  get ((j, v) ∷ d) k = if j == k then some v else get d k

  -- d[k] = v
  abbrev pub put : Dict K V → K → V → Dict K V
  put [] k v = (k, v) ∷ []
  put ((j, w) ∷ d) k v = if j == k then (j, v) ∷ d else (j, w) ∷ put d k v

  -- d.pop(k, None)
  abbrev pub remove : Dict K V → K → Dict K V
  remove [] k = []
  remove ((j, w) ∷ d) k = let rest = remove d k in if j == k then rest else (j, w) ∷ rest

  pub get-put :
      (d : Dict K V) (k : K) (v : V) (j : K)
      → get (put d k v) j ≡ (if k == j then some v else get d j)
  get-put [] k v j = refl
  get-put ((i, w) ∷ d) k v j =
      ground (arith, e.beq_iff i k, e.beq_iff i j, e.beq_iff k j, get-put d k v j)

  pub get-remove :
      (d : Dict K V) (k j : K) → get (remove d k) j ≡ (if k == j then none else get d j)
  get-remove [] k j = ground arith
  get-remove ((i, w) ∷ d) k j =
      ground (arith, e.beq_iff i k, e.beq_iff i j, e.beq_iff k j, get-remove d k j)

  -- A key that is not among the keys is missing.
  pub get-absent : (d : Dict K V) (k : K) → contains (keys d) k ≡ false → get d k ≡ none
  get-absent [] k h = refl
  get-absent ((j, v) ∷ d) k h = ground (arith, get-absent d k)

  -- Every value of the dictionary bears its key.
  abbrev pub Keyed : (V → K) → Dict K V → Type ℓ
  Keyed name [] = Unit
  Keyed name ((j, v) ∷ d) = (name v ≡ j) × Keyed name d

  pub get-Keyed :
      (name : V → K) (d : Dict K V) (k : K) (v : V) → Keyed name d → get d k ≡ some v → name v ≡ k
  get-Keyed name [] k v h q = cc
  get-Keyed name ((j, w) ∷ d) k v h q = ground (arith, e.beq_iff j k, get-Keyed name d k v h.1)

  pub put-Keyed :
      (name : V → K) (d : Dict K V) (k : K) (v : V)
      → Keyed name d
      → name v ≡ k
      → Keyed name (put d k v)
  put-Keyed name [] k v h q = (q, tt)
  put-Keyed name ((j, w) ∷ d) k v h q = elim (Bool-cases (e.beq j k)) [
    | inl t ↦ rw t (q ∙ sym ((e.beq_iff j k).0 t), h.1)
    | inr f ↦ rw f (h.0, put-Keyed name d k v h.1 q)
  ]

  pub keep_if-Keyed :
      (name : V → K) (p : K × V → Bool) (d : Dict K V) → Keyed name d → Keyed name (keep_if p d)
  keep_if-Keyed name p [] h = tt
  keep_if-Keyed name p ((j, w) ∷ d) h = elim (Bool-cases (p (j, w))) [
    | inl t ↦ rw t (h.0, keep_if-Keyed name p d h.1)
    | inr f ↦ rw f (keep_if-Keyed name p d h.1)
  ]

  -- A key whose entries a filter drops is missing from the result.
  pub get-keep_if-none :
      (p : K × V → Bool) (d : Dict K V) (k : K)
      → ((v : V) → p (k, v) ≡ false)
      → get (keep_if p d) k ≡ none
  get-keep_if-none p [] k h = refl
  get-keep_if-none p ((j, w) ∷ d) k h = elim (Bool-cases (e.beq j k)) [
    | inl t ↦
        let same : j ≡ k = (e.beq_iff j k).0 t in
        let drops : p (j, w) ≡ false = ap (λ x. p (x, w)) same ∙ h w in
        rw drops (get-keep_if-none p d k h)
    | inr f ↦ elim (Bool-cases (p (j, w))) [
      | inl t ↦ rw t (rw f (get-keep_if-none p d k h))
      | inr g ↦ rw g (get-keep_if-none p d k h)
    ]
  ]

  pub contains-keys_of_get :
      (d : Dict K V) (k : K) (v : V) → get d k ≡ some v → contains (keys d) k ≡ true
  contains-keys_of_get [] k v h = cc
  contains-keys_of_get ((j, w) ∷ d) k v h = ground (arith, contains-keys_of_get d k v)

  pub get-keep_if_missing :
      (p : K × V → Bool) (d : Dict K V) (k : K) → get d k ≡ none → get (keep_if p d) k ≡ none
  get-keep_if_missing p [] k h = refl
  get-keep_if_missing p ((j, w) ∷ d) k h = elim (Bool-cases (p (j, w))) [
    | inl t ↦ rw t (ground (arith, get-keep_if_missing p d k))
    | inr f ↦ rw f (ground (arith, get-keep_if_missing p d k))
  ]

  -- Where no value passes a test, none that is added later, nor one that is looked up, does.
  pub any_of-put :
      (p : V → Bool) (d : Dict K V) (k : K) (v : V)
      → any_of (λ e. p e.1) d ≡ false
      → p v ≡ false
      → any_of (λ e. p e.1) (put d k v) ≡ false
  any_of-put p [] k v h q = ground arith
  any_of-put p ((j, w) ∷ d) k v h q = ground (arith, any_of-put p d k v)

  pub any_of-get :
      (p : V → Bool) (d : Dict K V) (k : K) (v : V)
      → any_of (λ e. p e.1) d ≡ false
      → get d k ≡ some v
      → p v ≡ false
  any_of-get p [] k v h q = cc
  any_of-get p ((j, w) ∷ d) k v h q = ground (arith, any_of-get p d k v)
