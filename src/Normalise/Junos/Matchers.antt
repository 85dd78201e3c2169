-- ===== src/Normalise/Junos/Matchers.antt =====
-- The patterns of the Junos family of normalise.py, on the list of code points.
use infrahub_network_field_d.Base.{
  ℕ, suc, Bool, true, false, not, ◌&&◌, ◌||◌, Option, none, some, [], ◌∷◌, nat_beq, if◌then◌else◌,
  drop, length,
}
use mathlib.Core.Option
use infrahub_network_field_d.Base.Text.{
  Text, codes, is_space, is_word, is_digit, lstrip, strip, starts_with, equals,
}

-- The text behind a literal prefix.
unfoldable pub after_prefix : Text → Text → Option Text
unfolding starts_with
after_prefix p t = if starts_with p t then some (drop (length p) t) else none

-- `\b` in front of a word's end: what follows is no word character.
abbrev pub ends_word : Text → Bool
ends_word [] = true
ends_word (c ∷ cs) = not (is_word c)

-- ^\s*!
unfoldable pub junos_moved : Text → Bool
unfolding lstrip starts_with
junos_moved line = starts_with (codes "!") (lstrip line)

-- ^\s*\[edit\b
unfoldable pub junos_banner : Text → Bool
unfolding lstrip after_prefix
junos_banner line = elim (after_prefix (codes "[edit") (lstrip line)) [
  | none ↦ false
  | some rest ↦ ends_word rest
]

unfoldable pub comment_text : Text → Bool
unfolding starts_with
comment_text t =
    starts_with (codes "/*") t || starts_with (codes "*") t || starts_with (codes "#") t

abbrev pub is_sign : ℕ → Bool
is_sign c = nat_beq c b'+' || nat_beq c b'-'

-- ^\s*[+-]\s*(/\*|\*|\*/|#|##)
unfoldable pub junos_comment : Text → Bool
unfolding lstrip comment_text
junos_comment line = elim (lstrip line) [
  | [] ↦ false
  | c ∷ cs ↦ is_sign c && comment_text (lstrip cs)
]

pub data Sign : Type 0 where
  unsigned plus minus : Sign

abbrev sign_of : ℕ → Sign
sign_of c = if nat_beq c b'+' then plus else if nat_beq c b'-' then minus else unsigned

abbrev pub is_minus : Sign → Bool
is_minus minus = true
is_minus _ = false

abbrev pub is_plus : Sign → Bool
is_plus plus = true
is_plus _ = false

abbrev pub is_unsigned : Sign → Bool
is_unsigned unsigned = true
is_unsigned _ = false

-- The sign and the text of `_junos_split`; its indent is used by no caller.
junos_parts : Text → Sign × Text
unfolding strip
junos_parts [] = (unsigned, [])
junos_parts (c ∷ cs) = if is_sign c then (sign_of c, strip cs) else (unsigned, c ∷ cs)

unfoldable pub junos_split : Text → Sign × Text
unfolding lstrip junos_parts
junos_split line = junos_parts (lstrip line)

-- \S+ and then the character `last`, to the end of the text
unfoldable pub solid_then : ℕ → Text → Bool
solid_then last [] = false
solid_then last (c ∷ []) = false
solid_then last (c ∷ d ∷ []) = not (is_space c) && nat_beq d last
solid_then last (c ∷ d ∷ e ∷ cs) = not (is_space c) && solid_then last (d ∷ e ∷ cs)

-- \d+; to the end of the text
unfoldable pub digits_then_semicolon : Text → Bool
digits_then_semicolon [] = false
digits_then_semicolon (c ∷ []) = false
digits_then_semicolon (c ∷ d ∷ []) = is_digit c && nat_beq d b';'
digits_then_semicolon (c ∷ d ∷ e ∷ cs) = is_digit c && digits_then_semicolon (d ∷ e ∷ cs)

abbrev pub holds_after : Option Text → (Text → Bool) → Bool
holds_after none p = false
holds_after (some t) p = p t

-- _JUNOS_COMMIT_STAMPED, at the stripped banner and the statement
unfoldable pub commit_stamped : Text → Text → Bool
unfolding after_prefix solid_then digits_then_semicolon equals
commit_stamped banner text =
    (equals banner (codes "[edit]")
      && holds_after (after_prefix (codes "version ") text) (solid_then b';'))
    || (holds_after (after_prefix (codes "[edit system login user ") banner) (solid_then b']')
        && holds_after (after_prefix (codes "uid ") text) digits_then_semicolon)

-- How many characters stand in front of the next quotation mark, if there is one.
unfoldable pub to_quote : Text → Option ℕ
to_quote [] = none
to_quote (c ∷ cs) =
    let rest = Option.map suc (to_quote cs) in if nat_beq c b'"' then some 0 else rest
