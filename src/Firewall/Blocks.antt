-- ===== src/Firewall/Blocks.antt =====
-- The blocks of lines of lab/k8s/access/fw-controller/controller.py, by tests of their commands.
use infrahub_network_field_d.Base.{
  ℕ, Bool, true, false, List, [], ◌∷◌, ◌++◌, map, ◌≡◌, refl, ap, ◌∙◌, all_of, ◌⊎◌, inl, inr, arith,
}
use mathlib.Core.List.{Memᴰ}
use mathlib.Core.List.Memᴰ.{head, tail, not-nil}
use infrahub_network_field_d.Base.Members.{each}
use infrahub_network_field_d.Base.Text.{Text}
use infrahub_network_field_d.Firewall.Schema.{Pair, Command}
use infrahub_network_field_d.Firewall.Commands.{grant_lines, application_lines, app_name}

-- A command that only adds to the candidate configuration, or moves in it.
abbrev pub is_set : Command → Bool
is_set (Command.set_address tag address bits) = true
is_set (Command.set_protocol app) = true
is_set (Command.set_port app port) = true
is_set (Command.match_source p address) = true
is_set (Command.match_destination p) = true
is_set (Command.match_application p app) = true
is_set (Command.permit p) = true
is_set (Command.log_init p) = true
is_set (Command.log_close p) = true
is_set (Command.edit_pair src dst) = true
is_set (Command.annotate tag note) = true
is_set Command.top = true
is_set c = false

module _ (p : Command → Bool) where
  all_of-append :
      (xs ys : List Command) → all_of p xs ≡ true → all_of p ys ≡ true → all_of p (xs ++ ys) ≡ true
  all_of-append [] ys h k = k
  all_of-append (x ∷ xs) ys h k = ground (arith, all_of-append xs ys)

  pub all_of-map :
      {A : Type 0} (f : A → Command) (xs : List A)
      → ((x : A) → p (f x) ≡ true)
      → all_of p (map f xs) ≡ true
  all_of-map f [] h = refl
  all_of-map f (x ∷ xs) h = ground (arith, h x, all_of-map f xs h)

  pub all_of_weaken :
      (q : Command → Bool)
      → ((c : Command) → p c ≡ true → q c ≡ true)
      → (xs : List Command) → all_of p xs ≡ true
      → all_of q xs ≡ true
  all_of_weaken q k [] h = refl
  all_of_weaken q k (x ∷ xs) h = ground (arith, k x, all_of_weaken q k xs)

  pub member-all_of :
      (c : Command) (xs : List Command) → all_of p xs ≡ true → Memᴰ c xs → p c ≡ true
  member-all_of c [] h m = absurd (not-nil m)
  member-all_of c (x ∷ xs) h (head e) = ap p e ∙ ground arith
  member-all_of c (x ∷ xs) h (tail m) = member-all_of c xs (ground arith) m

-- The same, an address aside.
abbrev pub is_added : Command → Bool
is_added (Command.set_address tag address bits) = false
is_added c = is_set c

abbrev grant_rest : Pair → Text → List ℕ → Text → List Command
grant_rest p source ports note =
    each (application_lines p.tag) ports
    ++ (Command.match_source p source
          ∷ Command.match_destination p
          ∷ map (λ port. Command.match_application p (app_name p.tag port)) ports
        ++ (Command.permit p
            ∷ Command.log_init p
            ∷ Command.log_close p
            ∷ Command.edit_pair p.source p.destination
            ∷ Command.annotate p.tag note
            ∷ Command.top
            ∷ []))

applications-added :
    (tag : Text) (ports : List ℕ) → all_of is_added (each (application_lines tag) ports) ≡ true
applications-added tag [] = refl
applications-added tag (port ∷ ports) = applications-added tag ports

grant_rest-added :
    (p : Pair) (source : Text) (ports : List ℕ) (note : Text)
    → all_of is_added (grant_rest p source ports note) ≡ true
grant_rest-added p source ports note =
    all_of-append is_added (each (application_lines p.tag) ports) _ (applications-added p.tag ports)
      (all_of-append is_added
        (map (λ port. Command.match_application p (app_name p.tag port)) ports) _
        (all_of-map is_added (λ port. Command.match_application p (app_name p.tag port)) ports
          (λ x. refl))
        refl)

-- The block of a grant is its address, and lines that only add.
pub grant_lines-cases :
    (p : Pair) (parts : Text × Text) (source : Text) (ports : List ℕ) (note : Text) (c : Command)
    → Memᴰ c (grant_lines p parts source ports note)
    → (c ≡ Command.set_address p.tag parts.0 parts.1) ⊎ (is_added c ≡ true)
unfolding grant_lines
grant_lines-cases p (addr, bits) source ports note c (head q) = inl q
grant_lines-cases p (addr, bits) source ports note c (tail m) = inr (
    member-all_of is_added c (grant_rest p source ports note) (grant_rest-added p source ports note)
      m)

set_of_added : (c : Command) → is_added c ≡ true → is_set c ≡ true
set_of_added c k = ground arith

pub grant_lines-set :
    (p : Pair) (parts : Text × Text) (source : Text) (ports : List ℕ) (note : Text)
    → all_of is_set (grant_lines p parts source ports note) ≡ true
unfolding grant_lines
grant_lines-set p (addr, bits) source ports note =
    all_of_weaken is_added is_set set_of_added (grant_rest p source ports note)
      (grant_rest-added p source ports note)
