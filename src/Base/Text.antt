-- ===== src/Base/Text.antt =====
-- Text that the program takes apart, as its list of code points: Python's `str` methods and the
-- character classes of its regular expressions. Word characters and digits are ASCII's.
use Prim.Native.Char.{code}
use Prim.Native.Nat.{ℕ}
use Prim.Native.String.{String}
use mathlib.Core.Bool.{Bool, true, false, ◌&&◌, ◌||◌}
use mathlib.Core.List.{List, [], ◌∷◌, ◌++◌, reverse}
use infrahub_network_field_d.Base.Tests.{leb, nat_beq, if◌then◌else◌}
use infrahub_network_field_d.Base.Lists.{is_empty}

abbrev pub Text : Type 0
Text = List ℕ

abbrev pub codes : String → Text
codes String.[] = []
codes (String.◌∷◌ c s) = code c ∷ codes s

abbrev pub in_range : ℕ → ℕ → ℕ → Bool
in_range lo hi c = leb lo c && leb c hi

-- str.isspace and `\s`
abbrev pub is_space : ℕ → Bool
is_space c =
    nat_beq c 32
    || in_range 9 13 c
    || in_range 28 31 c
    || nat_beq c 133
    || nat_beq c 160
    || nat_beq c 5760
    || in_range 8192 8202 c
    || nat_beq c 8232
    || nat_beq c 8233
    || nat_beq c 8239
    || nat_beq c 8287
    || nat_beq c 12288

-- `\w`, for ASCII
abbrev pub is_word : ℕ → Bool
is_word c = in_range 48 57 c || in_range 65 90 c || in_range 97 122 c || nat_beq c 95

-- `\d`, for ASCII
abbrev pub is_digit : ℕ → Bool
is_digit c = in_range 48 57 c

-- The characters at which str.splitlines ends a line.
abbrev pub is_break : ℕ → Bool
is_break c =
    in_range 10 13 c || in_range 28 30 c || nat_beq c 133 || nat_beq c 8232 || nat_beq c 8233

-- `line` is the line read so far, reversed; `after_cr` tells a line feed that belongs to the
-- carriage return before it.
pub split_from : Text → Bool → Text → List Text
split_from line after_cr [] = if is_empty line then [] else reverse line ∷ []
split_from line after_cr (c ∷ cs) = elim (after_cr && nat_beq c 10) [
  | true ↦ split_from [] false cs
  | false ↦ elim (is_break c) [
    | true ↦ reverse line ∷ split_from [] (nat_beq c 13) cs
    | false ↦ split_from (c ∷ line) false cs
  ]
]

unfoldable pub splitlines : Text → List Text
unfolding split_from
splitlines t = split_from [] false t

unfoldable pub lstrip : Text → Text
lstrip [] = []
lstrip (c ∷ cs) = elim (is_space c) [ true ↦ lstrip cs | false ↦ c ∷ cs ]

unfoldable pub rstrip : Text → Text
rstrip [] = []
rstrip (c ∷ cs) = let r = rstrip cs in if is_space c && is_empty r then [] else c ∷ r

unfoldable pub strip : Text → Text
unfolding lstrip rstrip
strip t = lstrip (rstrip t)

unfoldable pub starts_with : Text → Text → Bool
starts_with [] t = true
starts_with (p ∷ ps) [] = false
starts_with (p ∷ ps) (c ∷ cs) = nat_beq p c && starts_with ps cs

unfoldable pub equals : Text → Text → Bool
equals [] [] = true
equals [] (c ∷ cs) = false
equals (p ∷ ps) [] = false
equals (p ∷ ps) (c ∷ cs) = nat_beq p c && equals ps cs

-- "\n".join(lines)
unfoldable pub join_lines : List Text → Text
join_lines [] = []
join_lines (l ∷ []) = l
join_lines (l ∷ m ∷ ls) = l ++ 10 ∷ join_lines (m ∷ ls)
