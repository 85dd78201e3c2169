-- ===== src/Firewall/Listed.antt =====
-- What list_managed of lab/k8s/access/fw-controller/controller.py finds of a listing's line.
use infrahub_network_field_d.Base.{
  ℕ, zero, suc, ◌+◌, ◌-◌, ◌≤◌, Bool, true, false, not, ◌&&◌, Option, none, some, List, [], ◌∷◌,
  ◌++◌, ◌≡◌, refl, sym, ap, subst, ◌∙◌, inl, inr, if◌then◌else◌, Bool-cases, Option-cases, is_empty,
  arith, length, length-append, all_of, list_eq, nat_eq, nat_beq, nat_beq_iff, ◌==◌, and_right,
}
use mathlib.Core.List.{Memᴰ}
use mathlib.Core.List.Memᴰ.{head, tail, not-nil}
use infrahub_network_field_d.Base.Dict.{Dict, get, put, get-put}
use infrahub_network_field_d.Base.Members.{get-member}
use infrahub_network_field_d.Base.Text.{Text, codes, is_space}
use infrahub_network_field_d.Firewall.Replies.{
  policy_at, policies_in, policy_ref, put_policies, managed_in, solid_after, after, solid,
}

-- The text is not empty and has no white space.
abbrev pub is_word : Text → Bool
is_word t = not (is_empty t) && all_of (λ c. not (is_space c)) t

-- A line of the listing, after its end of line before: a policy under the controller's prefix.
abbrev pub policy_line : (src dst name post : Text) → Text
policy_line src dst name post =
    codes "set security policies from-zone "
    ++ (src ++ (codes " to-zone " ++ (dst ++ (codes " policy aa-" ++ (name ++ 32 ∷ post)))))

module _ (Q : Text → Type 0) where
  kept :
      (found : Dict Text Text) (ms : List (Text × Text × Text)) (tag ref : Text)
      → get found tag ≡ some ref
      → Q ref
      → ((src dst : Text) → Memᴰ (src, dst, tag) ms → Q (policy_ref src dst tag))
      → (r : Text) × (get (put_policies found ms) tag ≡ some r) × Q r
  kept found [] tag ref g q k = (ref, g, q)
  kept found ((src, dst, pol) ∷ ms) tag ref g q k = elim (Bool-cases (pol == tag)) [
    | inl t ↦
        let same : pol ≡ tag = (list_eq.beq_iff pol tag).0 t in
        kept (put found pol (policy_ref src dst pol)) ms tag (policy_ref src dst pol)
          (get-put found pol (policy_ref src dst pol) tag ∙ rw t refl)
          (subst (λ x. Q (policy_ref src dst x)) (sym same)
            (k src dst (head (ap (λ x. (src, dst, x)) (sym same)))))
          (λ s d m. k s d (tail m))
    | inr f ↦
        kept (put found pol (policy_ref src dst pol)) ms tag ref
          (get-put found pol (policy_ref src dst pol) tag ∙ rw f g) q (λ s d m. k s d (tail m))
  ]

  -- A policy that is listed is in the dictionary, with the reference of one of its name.
  put_policies-member :
      (found : Dict Text Text) (ms : List (Text × Text × Text)) (src dst tag : Text)
      → Memᴰ (src, dst, tag) ms
      → ((s d : Text) → Memᴰ (s, d, tag) ms → Q (policy_ref s d tag))
      → (r : Text) × (get (put_policies found ms) tag ≡ some r) × Q r
  put_policies-member found [] src dst tag m k = absurd (not-nil m)
  put_policies-member found ((s, d, pol) ∷ ms) src dst tag (head e) k =
      let same : tag ≡ pol = ap (λ x. x.2) e in
      kept (put found pol (policy_ref s d pol)) ms tag (policy_ref s d pol)
        (get-put found pol (policy_ref s d pol) tag
          ∙ (let t = (list_eq.beq_iff pol tag).1 (sym same) in rw t refl))
        (subst (λ x. Q (policy_ref s d x)) same (k s d (head (ap (λ x. (s, d, x)) same))))
        (λ s d m. k s d (tail m))
  put_policies-member found ((s, d, pol) ∷ ms) src dst tag (tail m) k =
      put_policies-member (put found pol (policy_ref s d pol)) ms src dst tag m
        (λ s d n. k s d (tail n))

solid-word :
    (t rest : Text)
    → all_of (λ c. not (is_space c)) t ≡ true
    → solid (t ++ 32 ∷ rest) ≡ (t, 32 ∷ rest)
unfolding solid
solid-word [] rest h = refl
solid-word (c ∷ t) rest h =
    let f : is_space c ≡ false = ground arith in
    let more = solid-word t rest (ground arith) in rw (f, more) refl

after-append : (p t : Text) → after p (p ++ t) ≡ some t
unfolding after
after-append [] t = refl
after-append (c ∷ p) t =
    let same : nat_beq c c ≡ true = (nat_beq_iff c c).1 refl in rw same (after-append p t)

solid_after-word :
    (p t rest : Text)
    → is_word t ≡ true
    → solid_after p (p ++ (t ++ 32 ∷ rest)) ≡ some (t, 32 ∷ rest)
unfolding solid_after
solid_after-word p [] rest h = cc
solid_after-word p (c ∷ t) rest h =
    let read : solid ((c ∷ t) ++ 32 ∷ rest) ≡ (c ∷ t, 32 ∷ rest) = solid-word (c ∷ t) rest h in
    rw (solid_after, after-append p ((c ∷ t) ++ 32 ∷ rest)) (rw read refl)

policy_at-line :
    (src dst name post : Text)
    → is_word src ≡ true
    → is_word dst ≡ true
    → is_word name ≡ true
    → policy_at (
        codes "from-zone "
        ++ (src ++ (codes " to-zone " ++ (dst ++ (codes " policy aa-" ++ (name ++ 32 ∷ post))))))
      ≡ some ((src, dst, codes "aa-" ++ name), 32 ∷ post)
unfolding policy_at
policy_at-line src dst name post s d n =
    let third = codes " policy aa-" ++ (name ++ 32 ∷ post) in
    let second = codes " to-zone " ++ (dst ++ third) in
    let one : solid_after (codes "from-zone ") (codes "from-zone " ++ (src ++ second))
        ≡ some (src, second) =
      solid_after-word (codes "from-zone ") src (codes "to-zone " ++ (dst ++ third)) s in
    let two : solid_after (codes " to-zone ") second ≡ some (dst, third) =
      solid_after-word (codes " to-zone ") dst (codes "policy aa-" ++ (name ++ 32 ∷ post)) d in
    let three : solid_after (codes " policy aa-") third ≡ some (name, 32 ∷ post) =
      solid_after-word (codes " policy aa-") name post n in
    rw (policy_at, one, two, three) refl

policies_in-found :
    (c : ℕ) (cs : Text) (found : Text × Text × Text) (rest : Text)
    → policy_at (c ∷ cs) ≡ some (found, rest)
    → Memᴰ found (policies_in 0 (c ∷ cs))
unfolding policies_in
policies_in-found c cs found rest q = rw (q, policies_in) (head refl)

skip_words : (t : Text) → policies_in 0 (codes "set security policies " ++ t) ≡ policies_in 0 t
unfolding policies_in policy_at solid_after after
skip_words t = refl

policies_in-line :
    (src dst name post : Text)
    → is_word src ≡ true
    → is_word dst ≡ true
    → is_word name ≡ true
    → Memᴰ (src, dst, codes "aa-" ++ name) (policies_in 0 (policy_line src dst name post))
policies_in-line src dst name post s d n =
    subst (λ ms. Memᴰ (src, dst, codes "aa-" ++ name) ms)
      (sym (
        skip_words (
          codes "from-zone "
          ++ (src
              ++ (codes " to-zone " ++ (dst ++ (codes " policy aa-" ++ (name ++ 32 ∷ post))))))))
      (policies_in-found _ _ _ _ (policy_at-line src dst name post s d n))

-- What is left of a text that a line feed parts.
abbrev Left : Text → Text → Type 0
Left x r = (t : Text) × (r ≡ t ++ 10 ∷ x)

after-Left :
    (p t x r : Text)
    → all_of (λ c. not (nat_beq c 10)) p ≡ true
    → after p (t ++ 10 ∷ x) ≡ some r
    → Left x r
unfolding after
after-Left [] t x r h e = (t, cc)
after-Left (c ∷ p) [] x r h e =
    let f : nat_beq c 10 ≡ false = ground arith in let no = rw f at e in cc
after-Left (c ∷ p) (d ∷ t) x r h e = elim (Bool-cases (nat_beq c d)) [
  | inl y ↦ after-Left p t x r (and_right (not (nat_beq c 10)) _ h) (rw y at e)
  | inr f ↦ let no = rw f at e in cc
]

solid-Left : (t x : Text) → Left x (solid (t ++ 10 ∷ x)).1
unfolding solid
solid-Left [] x = ([], refl)
solid-Left (c ∷ t) x = elim (Bool-cases (is_space c)) [
  | inl y ↦ rw y (c ∷ t, refl)
  | inr f ↦ rw f (solid-Left t x)
]

solid_after-Left :
    (p t x : Text) (w : Text × Text)
    → all_of (λ c. not (nat_beq c 10)) p ≡ true
    → solid_after p (t ++ 10 ∷ x) ≡ some w
    → Left x w.1
unfolding solid_after
solid_after-Left p t x w h e = elim (Option-cases (after p (t ++ 10 ∷ x))) [
  | inl q ↦ let no = rw (q, solid_after) at e in cc
  | inr (r, q) ↦ go r (after-Left p t x r h q) (rw (q, solid_after) at e)
]
  where
    go :
        (r : Text)
        → Left x r
        → ◌≡◌ {A = Option (Text × Text)}
            (if is_empty (solid r).0 then none else some (solid r))
            (some w)
        → Left x w.1
    go r (u, l) k = elim (Bool-cases (is_empty (solid r).0)) [
      | inl y ↦ let no = rw y at k in cc
      | inr f ↦
          let same : solid r ≡ w = cc in
          subst (Left x) (ap (λ z. z.1) (sym (ap solid l) ∙ same)) (solid-Left u x)
    ]

next-Left :
    (p x y : Text) (w : Text × Text)
    → all_of (λ c. not (nat_beq c 10)) p ≡ true
    → Left x y
    → solid_after p y ≡ some w
    → Left x w.1
next-Left p x y w h (t, l) e =
    solid_after-Left p t x w h (subst (λ z. solid_after p z ≡ some w) l e)

policy_at-Left :
    (x y : Text) (found : Text × Text × Text) (rest : Text)
    → Left x y
    → policy_at y ≡ some (found, rest)
    → Left x rest
unfolding policy_at
policy_at-Left x y found rest l e = elim (Option-cases (solid_after (codes "from-zone ") y)) [
  | inl q ↦ let no = rw (policy_at, q) at e in cc
  | inr ((src, r), q) ↦ elim (Option-cases (solid_after (codes " to-zone ") r)) [
    | inl q' ↦ let no = rw (policy_at, q, q') at e in cc
    | inr ((dst, s), q') ↦ elim (Option-cases (solid_after (codes " policy aa-") s)) [
      | inl k ↦ let no = rw (policy_at, q, q', k) at e in cc
      | inr ((pol, u), k) ↦
          let same : ◌≡◌ {A = Option ((Text × Text × Text) × Text)}
              (some ((src, dst, codes "aa-" ++ pol), u)) (some (found, rest)) =
            rw (policy_at, q, q', k) at e in
          let end : u ≡ rest = cc in
          subst (Left x) end (
            next-Left (codes " policy aa-") x s (pol, u) refl
              (next-Left (codes " to-zone ") x r (dst, s) refl
                (next-Left (codes "from-zone ") x y (src, r) refl l q) q')
              k)
    ]
  ]
]

policies_in-after :
    (skip : ℕ) (t x : Text) (z : Text × Text × Text)
    → skip ≤ length t
    → Memᴰ z (policies_in 0 x)
    → Memᴰ z (policies_in skip (t ++ 10 ∷ x))
unfolding policies_in
policies_in-after zero [] x z h m = unfold policy_at in unfold solid_after in unfold after in m
policies_in-after (suc k) [] x z h m = absurd (omega arith)
policies_in-after (suc k) (c ∷ t) x z h m = policies_in-after k t x z (omega arith) m
policies_in-after zero (c ∷ t) x z h m = elim (Option-cases (policy_at (c ∷ (t ++ 10 ∷ x)))) [
  | inl q ↦ rw (q, policies_in) (policies_in-after 0 t x z (omega arith) m)
  | inr ((found, rest), q) ↦
      let (u, l) = policy_at-Left x (c ∷ (t ++ 10 ∷ x)) found rest (c ∷ t, refl) q in
      let whole : length (t ++ 10 ∷ x) ≡ length t + suc (length x) = length-append t (10 ∷ x) in
      let left : length rest ≡ length u + suc (length x) = ap length l ∙ length-append u (10 ∷ x) in
      rw (q, policies_in)
        (tail (
          policies_in-after (length (t ++ 10 ∷ x) - length rest) t x z (omega (arith, whole, left))
            m))
]

-- A line of the listing puts the policy into the dictionary, with the reference of one that is listed
-- by the same name.
pub managed_in-line :
    (before src dst name post : Text)
    → is_word src ≡ true
    → is_word dst ≡ true
    → is_word name ≡ true
    → let out = before ++ 10 ∷ policy_line src dst name post in
      (s : Text) × (d : Text) × Memᴰ (s, d, codes "aa-" ++ name) (policies_in 0 out)
      × Memᴰ (codes "aa-" ++ name, policy_ref s d (codes "aa-" ++ name)) (managed_in out)
unfolding managed_in
managed_in-line before src dst name post s d n =
    let out = before ++ 10 ∷ policy_line src dst name post in
    let tag = codes "aa-" ++ name in
    let here =
      policies_in-after 0 before (policy_line src dst name post) (src, dst, tag) (omega arith)
        (policies_in-line src dst name post s d n) in
    let (r, g, (a, b, e, m)) =
      put_policies-member
        (λ r.
          (a : Text) × (b : Text) × (r ≡ policy_ref a b tag) × Memᴰ (a, b, tag) (policies_in 0 out))
        [] (policies_in 0 out) src dst tag here (λ a b m. (a, b, refl, m)) in
    (a, b, m, get-member (managed_in out) tag (policy_ref a b tag) (g ∙ ap some e))
