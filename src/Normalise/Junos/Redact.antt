-- ===== src/Normalise/Junos/Redact.antt =====
-- The cleartext passwords of the Junos family of normalise.py.
use infrahub_network_field_d.Base.{
  ℕ, zero, suc, ◌+◌, ◌-◌, Bool, false, not, ◌&&◌, ◌||◌, Option, none, some, List, [], ◌∷◌, ◌++◌,
  nat_beq, if◌then◌else◌, take, drop, length, keep_if,
}
use mathlib.Core.List.{map}
use infrahub_network_field_d.Base.Text.{
  Text, codes, is_space, is_word, splitlines, strip, starts_with,
}
use infrahub_network_field_d.Normalise.Junos.Matchers.{
  to_quote, after_prefix, ends_word, holds_after,
}

abbrev pub cleartext_leaf : Text
cleartext_leaf = codes "plain-text-password-value"

-- \bplain-text-password-value\b at the front of a text, behind a character that is a word
-- character or not
leaf_at : Bool → Text → Bool
unfolding after_prefix
leaf_at behind_word t = not behind_word && holds_after (after_prefix cleartext_leaf t) ends_word

names_cleartext_from : Bool → Text → Bool
unfolding leaf_at
names_cleartext_from behind_word [] = false
names_cleartext_from behind_word (c ∷ cs) =
    leaf_at behind_word (c ∷ cs) || names_cleartext_from (is_word c) cs

-- _JUNOS_CLEARTEXT.search
unfoldable pub names_cleartext : Text → Bool
unfolding names_cleartext_from
names_cleartext t = names_cleartext_from false t

-- [^\s;]*
run_length : Text → ℕ
run_length [] = 0
run_length (c ∷ cs) =
    let rest = suc (run_length cs) in if is_space c || nat_beq c b';' then 0 else rest

-- \s*
space_length : Text → ℕ
space_length [] = 0
space_length (c ∷ cs) = let rest = suc (space_length cs) in if is_space c then rest else 0

-- The length of "[^"]*"|[^\s;]+ at the front of a text; 0 where it does not match.
value_length : Text → ℕ
unfolding to_quote run_length
value_length [] = 0
value_length (c ∷ cs) =
    if nat_beq c b'"'
    then elim (to_quote cs) [ none ↦ run_length (c ∷ cs) | some n ↦ n + 2 ]
    else run_length (c ∷ cs)

-- The match of _JUNOS_CLEARTEXT_VALUE at the front of a text: how long its first group is, and
-- how long its value.
value_at : Bool → Text → Option (ℕ × ℕ)
unfolding after_prefix value_length space_length
value_at behind_word t = if behind_word then none else elim (after_prefix cleartext_leaf t) [
  | none ↦ none
  | some rest ↦
      let n = space_length rest in
      let v = value_length (drop n rest) in
      if nat_beq n 0 || nat_beq v 0 then none else some (length cleartext_leaf + n, v)
]

abbrev pub redacted : Text
redacted = codes "\"<redacted>\""

-- `skip` characters of the last match are still to be passed over.
redact_from : Bool → ℕ → Text → Text
unfolding value_at
redact_from behind_word skip [] = []
redact_from behind_word (suc skip) (c ∷ cs) = redact_from (is_word c) skip cs
redact_from behind_word zero (c ∷ cs) = elim (value_at behind_word (c ∷ cs)) [
  | none ↦ c ∷ redact_from (is_word c) 0 cs
  | some (g, v) ↦ take g (c ∷ cs) ++ redacted ++ redact_from (is_word c) (g + v - 1) cs
]

unfoldable pub redact_cleartext : Text → Text
unfolding redact_from
redact_cleartext line = redact_from false 0 line

-- junos_running_cleartext: the probe's statements, each a redacted deletion
unfoldable pub is_set_statement : Text → Bool
unfolding strip starts_with names_cleartext
is_set_statement line = starts_with (codes "set ") (strip line) && names_cleartext line

unfoldable pub running_cleartext : Text → List Text
unfolding splitlines strip redact_cleartext is_set_statement
running_cleartext probe_output =
    map (λ line. codes "- " ++ redact_cleartext (strip line))
      (keep_if is_set_statement (splitlines probe_output))
