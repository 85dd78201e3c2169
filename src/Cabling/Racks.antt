-- ===== src/Cabling/Racks.antt =====
-- The plan for a rack in src/solution_arista_avd/cabling.py. What a source device tells of its
-- index is its index attribute and its two names; an integer that is not positive is 0.
use infrahub_network_field_d.Base.{
  ℕ, zero, suc, ◌+◌, ◌-◌, ◌*◌, String, not, ◌&&◌, Option, none, some, List, [], ◌∷◌, ◌++◌, ◌≡◌, sym,
  ap, if◌then◌else◌, nat_beq, length, get_elem?, take, drop, map, any_of, all_of, is_empty,
}
use infrahub_network_field_d.Base.Result.{Result, ok, ◌>>=◌, bind-ok}
use infrahub_network_field_d.Base.Text.{Text, is_digit}
use infrahub_network_field_d.Cabling.{Plan, at_least}
use infrahub_network_field_d.Cabling.Planned.{sources_of, flatten, joined, consed, ok-eq}

pub data Index : Type 0 where
  no_index : Index
  int_index : ℕ → Index
  text_index : Text → Index

pub record Device : Type 0 where
  pub index : Index
  pub name : Option Text
  pub display_label : Option Text

-- int(text), for a text of digits
abbrev digits_onto : ℕ → Text → ℕ
digits_onto n [] = n
digits_onto n (c ∷ cs) = digits_onto (10 * n + (c - 48)) cs

-- text.isdecimal() and int(text) > 0, as the number; 0 where it does not hold
unfoldable pub positive_decimal : Text → ℕ
positive_decimal t = if not (is_empty t) && all_of is_digit t then digits_onto 0 t else 0

-- text.rsplit("-", maxsplit=1)[-1]
unfoldable pub last_part : Text → Text
last_part [] = []
last_part (c ∷ cs) =
    let rest = last_part cs in if any_of (λ d. nat_beq d b'-') (c ∷ cs) then rest else c ∷ cs

abbrev name_index : Option Text → ℕ
unfolding positive_decimal last_part
name_index none = 0
name_index (some t) = positive_decimal (last_part t)

abbrev attribute_index : Index → ℕ
unfolding positive_decimal
attribute_index no_index = 0
attribute_index (int_index n) = n
attribute_index (text_index t) = positive_decimal t

-- The first of the two that is positive.
abbrev first_positive : ℕ → ℕ → ℕ
first_positive zero m = m
first_positive (suc n) m = suc n

-- _rack_source_device_index
unfoldable pub rack_source_device_index : Device → ℕ → ℕ
unfolding positive_decimal last_part
rack_source_device_index device fallback = first_positive (attribute_index device.index) (
    first_positive (name_index device.name)
      (first_positive (name_index device.display_label) fallback))

-- xs[start:end], for start = (rack_index * 2) - 2 and end = start + 2; for rack 0 it is xs[-2:0]
abbrev pub rack_slice : ℕ → List String → List String
rack_slice zero xs = []
rack_slice (suc n) xs = take 2 (drop (2 * n) xs)

unfoldable pub rack_row :
    (rack_index device_index : ℕ) → List String → List (List String) → Result Plan
rack_row rack_index device_index [] devices = ok []
rack_row rack_index device_index (s ∷ ss) [] = ok []
rack_row rack_index device_index (s ∷ ss) (d ∷ ds) =
    at_least (get_elem? (rack_slice rack_index d) (device_index - 1)) >>= λ t.
    (rack_row rack_index device_index ss ds >>= λ rest. ok ((s, t) ∷ rest))

-- The outer loop, from a fallback index on.
unfoldable pub rack_rows :
    (rack_index fallback : ℕ) → List (Device × List String) → List (List String) → Result Plan
unfolding rack_row rack_source_device_index
rack_rows rack_index fallback [] devices = ok []
rack_rows rack_index fallback (e ∷ rows) devices =
    rack_row rack_index (rack_source_device_index e.0 fallback) e.1 devices >>= λ row.
    (rack_rows rack_index (suc fallback) rows devices >>= λ rest. ok (row ++ rest))

-- build_rack_cabling_plan
unfoldable pub build_rack_cabling_plan :
    ℕ → List (Device × List String) → List (List String) → Result Plan
unfolding rack_rows
build_rack_cabling_plan rack_index sources devices = rack_rows rack_index 1 sources devices

rack_row-sources :
    (rack_index n : ℕ) (ss : List String) (devices : List (List String)) (row : Plan)
    → rack_row rack_index n ss devices ≡ ok row
    → sources_of row ≡ take (length devices) ss
unfolding rack_row
rack_row-sources rack_index n [] [] row h = sym (ap sources_of (ok-eq _ _ h))
rack_row-sources rack_index n [] (d ∷ ds) row h = sym (ap sources_of (ok-eq _ _ h))
rack_row-sources rack_index n (s ∷ ss) [] row h = sym (ap sources_of (ok-eq _ _ h))
rack_row-sources rack_index n (s ∷ ss) (d ∷ ds) row h =
    let (t, a, h1) = bind-ok (at_least (get_elem? (rack_slice rack_index d) (n - 1))) _ row h in
    let (rest, b, h2) = bind-ok (rack_row rack_index n ss ds) _ row h1 in
    consed s t rest row (take (length ds) ss) (ok-eq _ _ h2)
      (rack_row-sources rack_index n ss ds rest b)

rack_rows-sources :
    (rack_index fallback : ℕ) (sources : List (Device × List String)) (devices : List (List String))
    (plan : Plan)
    → rack_rows rack_index fallback sources devices ≡ ok plan
    → sources_of plan ≡ flatten (map (λ e. take (length devices) e.1) sources)
unfolding rack_rows
rack_rows-sources rack_index fallback [] devices plan h = sym (ap sources_of (ok-eq _ _ h))
rack_rows-sources rack_index fallback (e ∷ rows) devices plan h =
    let n = rack_source_device_index e.0 fallback in
    let (row, a, h1) = bind-ok (rack_row rack_index n e.1 devices) _ plan h in
    let (rest, b, h2) = bind-ok (rack_rows rack_index (suc fallback) rows devices) _ plan h1 in
    joined row rest plan _ _ (ok-eq _ _ h2) (rack_row-sources rack_index n e.1 devices row a)
      (rack_rows-sources rack_index (suc fallback) rows devices rest b)

-- A rack's plan that is built connects, of each source device in order, as many of its first
-- interfaces as there are destination devices.
pub build_rack_cabling_plan-sources :
    (rack_index : ℕ) (sources : List (Device × List String)) (devices : List (List String))
    (plan : Plan)
    → build_rack_cabling_plan rack_index sources devices ≡ ok plan
    → sources_of plan ≡ flatten (map (λ e. take (length devices) e.1) sources)
unfolding build_rack_cabling_plan
build_rack_cabling_plan-sources rack_index sources devices plan h =
    rack_rows-sources rack_index 1 sources devices plan h
