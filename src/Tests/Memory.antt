-- ===== src/Tests/Memory.antt =====
-- A deployment graph in memory, which meets the laws of `Graph`.
use infrahub_network_field_d.Base.{
  String, Option, none, some, List, [], ◌∷◌, ◌≡◌, refl, arith, if◌then◌else◌, ◌==◌, string_eq,
  contains,
}
use infrahub_network_field_d.State.{Record, Graph, names, is_found}

abbrev find_in : List Record → String → Option Record
find_in [] k = none
find_in (r ∷ rs) k = if r.name == k then some r else find_in rs k

abbrev save_in : List Record → Record → List Record
save_in [] n = n ∷ []
save_in (r ∷ rs) n = if r.name == n.name then n ∷ rs else r ∷ save_in rs n

abbrev delete_in : List Record → String → List Record
delete_in [] k = []
delete_in (r ∷ rs) k = let rest = delete_in rs k in if r.name == k then rest else r ∷ rest

pub find_in-name : (rs : List Record) (k : String) (r : Record) → find_in rs k ≡ some r → r.name ≡ k
find_in-name [] k r h = cc
find_in-name (q ∷ rs) k r h = ground (arith, string_eq.beq_iff q.name k, find_in-name rs k r)

pub find_in-save_in :
    (rs : List Record) (n : Record) (k : String)
    → find_in (save_in rs n) k ≡ (if n.name == k then some n else find_in rs k)
find_in-save_in [] n k = refl
find_in-save_in (r ∷ rs) n k = ground (
  arith,
  string_eq.beq_iff r.name n.name,
  string_eq.beq_iff r.name k,
  string_eq.beq_iff n.name k,
  find_in-save_in rs n k,
)

pub find_in-delete_in :
    (rs : List Record) (n k : String)
    → find_in (delete_in rs n) k ≡ (if n == k then none else find_in rs k)
find_in-delete_in [] n k = ground arith
find_in-delete_in (r ∷ rs) n k = ground (
  arith,
  string_eq.beq_iff r.name n,
  string_eq.beq_iff r.name k,
  string_eq.beq_iff n k,
  find_in-delete_in rs n k,
)

pub contains-names :
    (rs : List Record) (k : String) → contains (names rs) k ≡ is_found (find_in rs k)
contains-names [] k = refl
contains-names (r ∷ rs) k = ground (arith, contains-names rs k)

abbrev pub memory : Graph
memory = record {
  Store = List Record;
  find = find_in;
  all = λ rs. rs;
  save = save_in;
  delete = delete_in;
  find_name = find_in-name;
  find-save = find_in-save_in;
  find-delete = find_in-delete_in;
  all_lists = contains-names;
}
