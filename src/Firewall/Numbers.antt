-- ===== src/Firewall/Numbers.antt =====
-- The numbers that lab/k8s/access/fw-controller/controller.py writes.
use infrahub_network_field_d.Base.{
  ℕ, zero, suc, ◌+◌, ◌/◌, ◌%◌, ◌≤◌, false, ◌∷◌, ◌≡◌, refl, inl, inr, Bool-cases, arith, ltb,
}
use infrahub_network_field_d.Base.Text.{Text}
use infrahub_network_field_d.Firewall.Commands.{digits_onto}

smaller : (f n : ℕ) → n ≤ suc f → ltb n 10 ≡ false → n / 10 ≤ f
smaller f n h k = ground arith

-- A number's digits are written with any count of steps that is at least the number.
pub digits_onto_more : (f n : ℕ) (t : Text) → n ≤ f → digits_onto (suc f) n t ≡ digits_onto f n t
digits_onto_more zero n t h = let z : n ≡ 0 = omega arith in rw z refl
digits_onto_more (suc f) n t h = elim (Bool-cases (ltb n 10)) [
  | inl s ↦ rw (s, digits_onto) refl
  | inr k ↦ rw (k, digits_onto) (digits_onto_more f (n / 10) ((48 + n % 10) ∷ t) (smaller f n h k))
]
