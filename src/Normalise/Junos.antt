-- ===== src/Normalise/Junos.antt =====
-- The Junos family of normalise.py. The password hash `sha_crypt`, which rests on hashlib, is a
-- parameter.
pub mod Reports
mod Matchers
mod Redact
pub use Matchers.{is_minus, is_plus, is_unsigned, Sign, unsigned, plus, minus}
unfoldable pub use Matchers.{
  to_quote, after_prefix, junos_moved, junos_banner, comment_text, junos_comment, junos_split,
  solid_then, digits_then_semicolon, commit_stamped,
}
pub use Redact.{cleartext_leaf, redacted}
unfoldable pub use Redact.{names_cleartext, redact_cleartext, is_set_statement, running_cleartext}
use infrahub_network_field_d.Base.{
  ℕ, zero, suc, ◌+◌, ◌-◌, Bool, true, false, not, ◌&&◌, ◌||◌, Option, none, some, List, [], ◌∷◌,
  ◌++◌, leb, nat_beq, if◌then◌else◌, is_empty, all_of, any_of, take, drop, length, keep_if,
}
use mathlib.Core.List.{map}
use mathlib.Core.Option
use infrahub_network_field_d.Base.Text.{
  Text, codes, is_space, is_word, is_digit, splitlines, lstrip, rstrip, strip, starts_with, equals,
}
use Prim.Native.String

-- sha_crypt(password, setting)
abbrev pub Crypt : Type 0
Crypt = Text → Text → Option Text

abbrev pub secret_leaf : Text
secret_leaf = codes "encrypted-password"

hash_of : Text → Option Text
unfolding to_quote after_prefix lstrip equals
hash_of rest = elim (to_quote rest) [
  | none ↦ none
  | some n ↦ elim (after_prefix (codes "\";") (drop n rest)) [
    | none ↦ none
    | some end ↦
        if not (nat_beq n 0) && equals (lstrip end) (codes "## SECRET-DATA")
        then some (take n rest)
        else none
  ]
]

-- The second group of _JUNOS_SECRET, ^(encrypted-password) "([^"]+)";\s*## SECRET-DATA$
unfoldable pub secret_hash : Text → Option Text
unfolding hash_of
secret_hash text = elim (after_prefix (secret_leaf ++ codes " \"") text) [
  | none ↦ none
  | some rest ↦ hash_of rest
]

abbrev is_hash : Option Text → Text → Bool
is_hash none h = false
is_hash (some g) h = equals g h

-- junos_same_secret
unfoldable pub same_secret : Crypt → Text → Text → List Text → Bool
unfolding equals
same_secret crypt first second passwords =
    equals first second
    || any_of
        (λ p. not (is_empty p) && is_hash (crypt p first) first && is_hash (crypt p second) second)
        passwords

-- An entry of `secrets`.
pub record Secret : Type 0 where
  pub position : ℕ
  pub sign : Sign
  pub leaf : Text
  pub hash : Text

-- The variables of normalise_junos.
pub record Hunk : Type 0 where
  pub kept : List (Option Text)
  pub banner : Text
  pub secrets : List Secret

-- kept[i] = None
abbrev pub clear_at : ℕ → List (Option Text) → List (Option Text)
clear_at i [] = []
clear_at zero (l ∷ ls) = none ∷ ls
clear_at (suc i) (l ∷ ls) = l ∷ clear_at i ls

-- The test of `flush` on the removed and the added secrets, and what it clears.
unfoldable pub flush_pair :
    Crypt → List Text → List Secret → List Secret → List (Option Text) → List (Option Text)
unfolding same_secret equals
flush_pair crypt known (r ∷ []) (a ∷ []) kept =
    if equals r.leaf a.leaf && same_secret crypt r.hash a.hash known
    then clear_at a.position (clear_at r.position kept)
    else kept
flush_pair crypt known _ _ kept = kept

unfoldable pub flush : Crypt → List Text → Hunk → Hunk
unfolding flush_pair
flush crypt known h = record h {
  kept =
      flush_pair crypt known (keep_if (λ s. is_minus s.sign) h.secrets)
        (keep_if (λ s. is_plus s.sign) h.secrets) h.kept;
  secrets = [];
}

-- kept.append(line)
abbrev pub keep_line : Text → Hunk → Hunk
keep_line line h = record h { kept = h.kept ++ some line ∷ [] }

abbrev pub note_secret : Option Text → Sign → Hunk → Hunk
note_secret none sign h = h
note_secret (some g) sign h = record h {
  secrets =
      h.secrets
      ++ record { position = length h.kept; sign = sign; leaf = secret_leaf; hash = g } ∷ [];
}

-- Lines that the loop passes over: blank, moved, unsigned, comments and commit stamps.
unfoldable pub junos_suppressed : Text → Text → Sign → Text → Bool
unfolding junos_moved junos_comment commit_stamped
junos_suppressed banner line sign text =
    is_empty text
    || junos_moved line
    || is_unsigned sign
    || junos_comment line
    || (is_minus sign && commit_stamped banner text)

unfoldable pub junos_cleartext : Text → Bool
unfolding names_cleartext comment_text
junos_cleartext text = names_cleartext text && not (comment_text text)

unfoldable pub junos_statement : Text → Sign → Text → Hunk → Hunk
unfolding redact_cleartext rstrip secret_hash junos_suppressed junos_cleartext
junos_statement line sign text h =
    if junos_cleartext text
    then keep_line (redact_cleartext (rstrip line)) h
    else if junos_suppressed h.banner line sign text
    then h
    else keep_line (rstrip line) (note_secret (secret_hash text) sign h)

-- One round of the loop.
unfoldable pub junos_line : Crypt → List Text → Hunk → Text → Hunk
unfolding junos_split junos_banner flush strip junos_statement
junos_line crypt known h line =
    if junos_banner line
    then record (flush crypt known h) { banner = strip line }
    else let (sign, text) = junos_split line in junos_statement line sign text h

unfoldable pub junos_lines : Crypt → List Text → Hunk → List Text → Hunk
unfolding junos_line
junos_lines crypt known h [] = h
junos_lines crypt known h (line ∷ rest) =
    junos_lines crypt known (junos_line crypt known h line) rest

abbrev pub present : List (Option Text) → List Text
present [] = []
present (none ∷ ls) = present ls
present (some l ∷ ls) = l ∷ present ls

abbrev pub no_hunk : Hunk
no_hunk = record { kept = []; banner = []; secrets = [] }

unfoldable pub normalise_junos : Crypt → Text → List Text → List Text
unfolding splitlines junos_lines flush
normalise_junos crypt raw known =
    present (flush crypt known (junos_lines crypt known no_hunk (splitlines raw))).kept
