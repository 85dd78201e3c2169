-- ===== src/Lifecycle/Escaped.antt =====
-- A reader of label values, and what _escape of src/solution_arista_avd/service_lifecycle.py writes.
use infrahub_network_field_d.Base.{
  ℕ, Bool, true, false, ◌||◌, Option, none, some, List, [], ◌∷◌, ◌++◌, ◌≡◌, refl, sym, ap, subst,
  ◌∙◌, inl, inr, if◌then◌else◌, nat_beq, nat_beq_iff, Bool-cases,
}
use mathlib.Core.List.{append_assoc}
use infrahub_network_field_d.Base.Text.{Text}
use infrahub_network_field_d.Base.Members.{each}
use infrahub_network_field_d.Lifecycle.Render.{replace, escape}

abbrev push : ℕ → Option (Text × Text) → Option (Text × Text)
push c none = none
push c (some (t, rest)) = some (c ∷ t, rest)

-- The character that a backslash and `c` stand for: only a line feed, a backslash and a double quote
-- are written so.
abbrev unescaped : ℕ → Option ℕ
unescaped c =
    if nat_beq c 110 then some 10 else if nat_beq c 92 || nat_beq c 34 then some c else none

abbrev push_some : Option ℕ → Option (Text × Text) → Option (Text × Text)
push_some none read = none
push_some (some c) read = push c read

-- A reader of the Prometheus text format, behind the opening quote of a value: the value, and what
-- follows its closing quote. `escaped` tells that a backslash was read. The format is read by line,
-- so that a line feed inside a value ends the reading with nothing.
abbrev pub read_value : (escaped : Bool) → Text → Option (Text × Text)
read_value escaped [] = none
read_value true (c ∷ cs) = push_some (unescaped c) (read_value false cs)
read_value false (c ∷ cs) = elim (nat_beq c 34) [
  | true ↦ some ([], cs)
  | false ↦ elim (nat_beq c 92) [
    | true ↦ read_value true cs
    | false ↦ elim (nat_beq c 10) [ true ↦ none | false ↦ push c (read_value false cs) ]
  ]
]

each-append :
    {A : Type 0} {B : Type 0} (f : A → List B) (xs ys : List A)
    → each f (xs ++ ys) ≡ each f xs ++ each f ys
each-append f [] ys = refl
each-append f (x ∷ xs) ys =
    ap (λ zs. f x ++ zs) (each-append f xs ys) ∙ sym (append_assoc (f x) (each f xs) (each f ys))

escape-append : (xs ys : Text) → escape (xs ++ ys) ≡ escape xs ++ escape ys
unfolding escape
escape-append xs ys =
    ap (λ t. replace 10 (92 ∷ 110 ∷ []) (replace 34 (92 ∷ 34 ∷ []) t)) (each-append _ xs ys)
    ∙ ap (λ t. replace 10 (92 ∷ 110 ∷ []) t) (each-append _ (replace 92 (92 ∷ 92 ∷ []) xs) _)
    ∙ each-append _ (replace 34 (92 ∷ 34 ∷ []) (replace 92 (92 ∷ 92 ∷ []) xs)) _

-- One character, escaped, is read as itself.
abbrev Reads : Text → ℕ → Type 0
unfolding escape
Reads cs c = read_value false (escape (c ∷ []) ++ cs) ≡ push c (read_value false cs)

read_value-plain :
    (c : ℕ) (cs : Text)
    → nat_beq c 34 ≡ false
    → nat_beq c 92 ≡ false
    → nat_beq c 10 ≡ false
    → read_value false (c ∷ cs) ≡ push c (read_value false cs)
read_value-plain c cs g f h = rw (g, f, h, read_value) refl

read_value-escape_one : (cs : Text) (c : ℕ) → Reads cs c
unfolding Reads
read_value-escape_one cs c = elim (Bool-cases (nat_beq c 92)) [
  | inl t ↦ subst (Reads cs) (sym ((nat_beq_iff c 92).0 t)) refl
  | inr f ↦ elim (Bool-cases (nat_beq c 34)) [
    | inl t ↦ subst (Reads cs) (sym ((nat_beq_iff c 34).0 t)) refl
    | inr g ↦ elim (Bool-cases (nat_beq c 10)) [
      | inl t ↦ subst (Reads cs) (sym ((nat_beq_iff c 10).0 t)) refl
      | inr h ↦ simp (f, g, h) (read_value-plain c cs g f h)
    ]
  ]
]

-- A label's value that was escaped and quoted is read back as it was, whatever follows it, by a
-- reader that stops at a line feed inside a value.
pub read_value-escape :
    (value rest : Text) → read_value false (escape value ++ 34 ∷ rest) ≡ some (value, rest)
unfolding escape Reads
read_value-escape [] rest = refl
read_value-escape (c ∷ value) rest =
    ap (λ t. read_value false (t ++ 34 ∷ rest)) (escape-append (c ∷ []) value)
    ∙ ap (read_value false) (append_assoc (escape (c ∷ [])) (escape value) (34 ∷ rest))
    ∙ read_value-escape_one (escape value ++ 34 ∷ rest) c
    ∙ ap (push c) (read_value-escape value rest)
