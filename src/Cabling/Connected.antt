-- ===== src/Cabling/Connected.antt =====
-- Which connectors a plan populates.
use infrahub_network_field_d.Base.{
  String, Bool, true, false, ◌||◌, Option, none, some, [], ◌∷◌, ◌≡◌, refl, sym, ap, subst, ◌∙◌,
  ◌==◌, string_eq, any_of, false≢true, inl, inr, Bool-cases, Option-cases,
}
use infrahub_network_field_d.Base.Dict.{Dict, get, put, get-put}
use infrahub_network_field_d.Base.Result.{ok, bind-ok}
use infrahub_network_field_d.Cabling.{
  Plan, Interface, is_connected, connect_interface_if_missing, connect_interface_maps,
}

abbrev pub is_populated : Option Interface → Bool
is_populated none = false
is_populated (some i) = is_connected i

-- One step changes the record of its interface alone, and only if it had no connector.
connect_interface_if_missing-ok :
    (d e : Dict String Interface) (link id k : String)
    → (link == "") ≡ false
    → connect_interface_if_missing d link id ≡ ok e
    → (is_populated (get d k) ≡ true → get e k ≡ get d k) × (is_populated (get e id) ≡ true)
unfolding connect_interface_if_missing
connect_interface_if_missing-ok d e link id k named h = elim (Option-cases (get d id)) [
  | inl n ↦ cc (rw n at h)
  | inr (i, s) ↦ elim (Bool-cases (is_connected i)) [
    | inl t ↦
        let same : d ≡ e = cc (rw (s, t) at h) in
        (
          λ p. ap (λ x. get x k) (sym same),
          ap (λ x. is_populated (get x id)) (sym same) ∙ rw (s, t),
        )
    | inr f ↦
        let new : Interface = record { connector = some link; status = "active" } in
        let same : put d id new ≡ e = cc (rw (s, f) at h) in
        let put_at = λ (x : String). ap (λ y. get y x) (sym same) ∙ get-put d id new x in
        (
          λ p. put_at k ∙ elim (Bool-cases (id == k)) [
            | inl here ↦
                let empty : is_populated (get d k) ≡ false =
                  ap (λ x. is_populated (get d x)) (sym ((string_eq.beq_iff id k).0 here))
                  ∙ (ap is_populated s ∙ f) in
                absurd (false≢true (sym empty ∙ p))
            | inr there ↦ rw there
          ],
          ap is_populated (put_at id) ∙ rw ((string_eq.beq_iff id id).1 refl, named),
        )
  ]
]

module _ (link_of : String → String → String)
    (named : (s t : String) → (link_of s t == "") ≡ false) where
  -- If the ids of the links are not empty, a connector that is there stays as it was through a plan
  -- that ends without an error, whichever link the plan has for its interface.
  pub connect_interface_maps-keeps :
      (plan : Plan) (d e : Dict String Interface) (k : String)
      → connect_interface_maps link_of d plan ≡ ok e
      → is_populated (get d k) ≡ true
      → get e k ≡ get d k
  unfolding connect_interface_maps
  connect_interface_maps-keeps [] d e k h p =
      let same : d ≡ e = cc h in ap (λ x. get x k) (sym same)
  connect_interface_maps-keeps ((s, t) ∷ plan) d e k h p =
      let (d1, a, h1) = bind-ok (connect_interface_if_missing d (link_of s t) s) _ e h in
      let (d2, b, h2) = bind-ok (connect_interface_if_missing d1 (link_of s t) t) _ e h1 in
      let kept1 = (connect_interface_if_missing-ok d d1 (link_of s t) s k (named s t) a).0 p in
      let kept2 =
        (connect_interface_if_missing-ok d1 d2 (link_of s t) t k (named s t) b).0
          (ap is_populated kept1 ∙ p) in
      connect_interface_maps-keeps plan d2 e k h2 (ap is_populated (kept2 ∙ kept1) ∙ p)
      ∙ (kept2 ∙ kept1)

  abbrev pub is_end : String → String × String → Bool
  is_end k (s, t) = s == k || t == k

  -- If the ids of the links are not empty, each end of a plan's links has a connector after the plan
  -- ended without an error.
  pub connect_interface_maps-populates :
      (plan : Plan) (d e : Dict String Interface) (k : String)
      → connect_interface_maps link_of d plan ≡ ok e
      → any_of (is_end k) plan ≡ true
      → is_populated (get e k) ≡ true
  unfolding connect_interface_maps
  connect_interface_maps-populates [] d e k h m = cc
  connect_interface_maps-populates ((s, t) ∷ plan) d e k h m =
      let (d1, a, h1) = bind-ok (connect_interface_if_missing d (link_of s t) s) _ e h in
      let (d2, b, h2) = bind-ok (connect_interface_if_missing d1 (link_of s t) t) _ e h1 in
      let first = (connect_interface_if_missing-ok d d1 (link_of s t) s s (named s t) a).1 in
      let kept = (connect_interface_if_missing-ok d1 d2 (link_of s t) t s (named s t) b).0 first in
      let second = (connect_interface_if_missing-ok d1 d2 (link_of s t) t t (named s t) b).1 in
      let stays = λ (x : String) (p : is_populated (get d2 x) ≡ true).
        ap is_populated (connect_interface_maps-keeps plan d2 e x h2 p) ∙ p in
      elim (Bool-cases (s == k)) [
        | inl here ↦
            subst (λ x. is_populated (get e x) ≡ true) ((string_eq.beq_iff s k).0 here)
              (stays s (ap is_populated kept ∙ first))
        | inr apart ↦ elim (Bool-cases (t == k)) [
          | inl there ↦
              subst (λ x. is_populated (get e x) ≡ true) ((string_eq.beq_iff t k).0 there)
                (stays t second)
          | inr neither ↦
              connect_interface_maps-populates plan d2 e k h2 (sym (rw (apart, neither)) ∙ m)
        ]
      ]
