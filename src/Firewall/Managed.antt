-- ===== src/Firewall/Managed.antt =====
-- What lab/k8s/access/fw-controller/controller.py finds on the firewall: the names of the policies
-- and applications that it reads in a reply.
use infrahub_network_field_d.Base.{
  ◌-◌, ℕ, zero, suc, true, Option, none, some, List, [], ◌∷◌, ◌++◌, ◌≡◌, refl, sym, subst, inl, inr,
  if◌then◌else◌, Bool-cases, Option-cases, is_empty, arith, drop, length, contains, distinct,
  list_eq, nat_eq, ◌==◌, nat_beq_iff,
}
use mathlib.Core.List.{Memᴰ}
use mathlib.Core.List.Memᴰ.{head, tail, not-nil}
use infrahub_network_field_d.Base.Dict.{Dict, put}
use infrahub_network_field_d.Base.Members.{member-sort}
use infrahub_network_field_d.Base.Text.{Text, codes, starts_with}
use infrahub_network_field_d.Firewall.Replies.{
  policy_at, policies_in, policy_ref, put_policies, managed_in, application_at, applications_in,
  sorted_applications, text_leb, solid_after, after, digit_run,
}
use infrahub_network_field_d.Firewall.Commands.{obj_name}

-- A tag that the controller gives: it is rebuilt from what follows the prefix.
abbrev pub IsTag : Text → Type 0
IsTag tag = obj_name (drop 3 tag) ≡ tag

abbrev pub Tagged : Dict Text Text → Type 0
Tagged [] = Unit
Tagged ((tag, ref) ∷ managed) = IsTag tag × Tagged managed

abbrev Third : (Text → Type 0) → List (Text × Text × Text) → Type 0
Third P [] = Unit
Third P ((a, b, c) ∷ ms) = P c × Third P ms

abbrev ThirdOf : (Text → Type 0) → Option ((Text × Text × Text) × Text) → Type 0
ThirdOf P none = Unit
ThirdOf P (some ((a, b, c), rest)) = P c

policy_at-IsTag : (t : Text) → ThirdOf IsTag (policy_at t)
unfolding policy_at
policy_at-IsTag t = first (solid_after (codes "from-zone ") t)
  where
    third :
        (src dst : Text) (o : Option (Text × Text))
        → ThirdOf IsTag
            (elim o [ none ↦ none | some (pol, u) ↦ some ((src, dst, codes "aa-" ++ pol), u) ])
    third src dst none = tt
    third src dst (some (pol, u)) = refl

    second :
        (src : Text) (o : Option (Text × Text))
        → ThirdOf IsTag (elim o [
          | none ↦ none
          | some (dst, s) ↦ elim (solid_after (codes " policy aa-") s) [
            | none ↦ none
            | some (pol, u) ↦ some ((src, dst, codes "aa-" ++ pol), u)
          ]
        ])
    second src none = tt
    second src (some (dst, s)) = third src dst (solid_after (codes " policy aa-") s)

    first :
        (o : Option (Text × Text))
        → ThirdOf IsTag (elim o [
          | none ↦ none
          | some (src, r) ↦ elim (solid_after (codes " to-zone ") r) [
            | none ↦ none
            | some (dst, s) ↦ elim (solid_after (codes " policy aa-") s) [
              | none ↦ none
              | some (pol, u) ↦ some ((src, dst, codes "aa-" ++ pol), u)
            ]
          ]
        ])
    first none = tt
    first (some (src, r)) = second src (solid_after (codes " to-zone ") r)

policies_in-IsTag : (n : ℕ) (t : Text) → Third IsTag (policies_in n t)
unfolding policies_in
policies_in-IsTag n [] = tt
policies_in-IsTag (suc n) (c ∷ cs) = policies_in-IsTag n cs
policies_in-IsTag zero (c ∷ cs) = elim (Option-cases (policy_at (c ∷ cs))) [
  | inl q ↦ rw (q, policies_in) (policies_in-IsTag zero cs)
  | inr (((a, b, d), rest), q) ↦
      let is : ThirdOf IsTag (policy_at (c ∷ cs)) = policy_at-IsTag (c ∷ cs) in
      rw (q, policies_in) (rw q at is, policies_in-IsTag (length cs - length rest) cs)
]

put-Tagged :
    (found : Dict Text Text) (tag ref : Text)
    → Tagged found
    → IsTag tag
    → Tagged (put found tag ref)
put-Tagged [] tag ref h k = (k, tt)
put-Tagged ((j, w) ∷ found) tag ref h k = elim (Bool-cases (j == tag)) [
  | inl t ↦ rw t (h.0, h.1)
  | inr f ↦ rw f (h.0, put-Tagged found tag ref h.1 k)
]

put_policies-Tagged :
    (found : Dict Text Text) (ms : List (Text × Text × Text))
    → Tagged found
    → Third IsTag ms
    → Tagged (put_policies found ms)
put_policies-Tagged found [] h k = h
put_policies-Tagged found ((src, dst, pol) ∷ ms) h k =
    put_policies-Tagged (put found pol (policy_ref src dst pol)) ms
      (put-Tagged found pol (policy_ref src dst pol) h k.0) k.1

pub managed_in-Tagged : (out : Text) → Tagged (managed_in out)
unfolding managed_in
managed_in-Tagged out = put_policies-Tagged [] (policies_in 0 out) tt (policies_in-IsTag 0 out)

starts_with-append : (p t : Text) → starts_with p (p ++ t) ≡ true
unfolding starts_with
starts_with-append [] t = refl
starts_with-append (c ∷ p) t = ground (arith, starts_with-append p t, nat_beq_iff c c)

abbrev Starts : Text → Option Text → Type 0
Starts prefix none = Unit
Starts prefix (some app) = starts_with prefix app ≡ true

application_at-Starts : (prefix t : Text) → Starts prefix (application_at prefix t)
application_at-Starts prefix t = go (after (codes "application " ++ prefix) t)
  where
    go :
        (o : Option Text)
        → Starts prefix (elim o [
          | none ↦ none
          | some rest ↦ if is_empty (digit_run rest) then none else some (prefix ++ digit_run rest)
        ])
    go none = tt
    go (some rest) = elim (Bool-cases (is_empty (digit_run rest))) [
      | inl t ↦ rw t tt
      | inr f ↦ rw f (starts_with-append prefix (digit_run rest))
    ]

applications_in-Starts :
    (prefix t app : Text) → Memᴰ app (applications_in prefix t) → starts_with prefix app ≡ true
unfolding applications_in
applications_in-Starts prefix [] app m = absurd (not-nil m)
applications_in-Starts prefix (c ∷ cs) app m =
    elim (Option-cases (application_at prefix (c ∷ cs))) [
      | inl q ↦ applications_in-Starts prefix cs app (rw (q, applications_in) at m)
      | inr (a, q) ↦ go a q (rw (q, applications_in) at m) (applications_in-Starts prefix cs app)
    ]
  where
    go :
        (a : Text)
        → application_at prefix (c ∷ cs) ≡ some a
        → Memᴰ app (a ∷ applications_in prefix cs)
        → (Memᴰ app (applications_in prefix cs) → starts_with prefix app ≡ true)
        → starts_with prefix app ≡ true
    go a q (head e) k =
        subst (λ x. starts_with prefix x ≡ true) (sym e)
          (subst (Starts prefix) q (application_at-Starts prefix (c ∷ cs)))
    go a q (tail n) k = k n

member-distinct : (app : Text) (xs : List Text) → Memᴰ app (distinct xs) → Memᴰ app xs
unfolding distinct
member-distinct app [] m = m
member-distinct app (x ∷ xs) m = elim (Bool-cases (contains xs x)) [
  | inl t ↦ tail (member-distinct app xs (rw (t, distinct) at m))
  | inr f ↦ go (rw (f, distinct) at m) (member-distinct app xs)
]
  where
    go : Memᴰ app (x ∷ distinct xs) → (Memᴰ app (distinct xs) → Memᴰ app xs) → Memᴰ app (x ∷ xs)
    go (head e) k = head e
    go (tail n) k = tail (k n)

-- The applications that are taken off with a policy bear its tag.
pub sorted_applications-Starts :
    (tag out app : Text)
    → Memᴰ app (sorted_applications tag out)
    → starts_with (tag ++ codes "-p") app ≡ true
unfolding sorted_applications
sorted_applications-Starts tag out app m = applications_in-Starts (tag ++ codes "-p") out app (
    member-distinct app (applications_in (tag ++ codes "-p") out)
      (member-sort text_leb (distinct (applications_in (tag ++ codes "-p") out)) m))
