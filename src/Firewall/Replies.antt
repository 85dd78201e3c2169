-- ===== src/Firewall/Replies.antt =====
-- What lab/k8s/access/fw-controller/controller.py reads in the firewall's replies, with the regular
-- expressions written out. Letters and digits are ASCII's.
use infrahub_network_field_d.Base.{
  ◌-◌, ℕ, zero, suc, ◌+◌, Bool, true, false, not, ◌&&◌, ◌||◌, Option, none, some, List, [], ◌∷◌,
  ◌++◌, map, if◌then◌else◌, nat_beq, ltb, is_empty, any_of, length, sort, distinct, nat_eq, list_eq,
  ◌==◌,
}
use infrahub_network_field_d.Base.Dict.{Dict, put}
use infrahub_network_field_d.Base.Text.{
  Text, codes, in_range, is_space, is_word, is_digit, starts_with, strip, splitlines,
}

-- str.lower, for ASCII
unfoldable pub lower : Text → Text
lower = map (λ c. if in_range 65 90 c then c + 32 else c)

-- pattern in t
unfoldable pub has_text : Text → Text → Bool
unfolding starts_with
has_text p [] = starts_with p []
has_text p (c ∷ cs) = starts_with p (c ∷ cs) || has_text p cs

-- `^pattern` with re.MULTILINE: at the start of the text or after a line feed
unfoldable pub at_line_start : Text → Text → Bool
unfolding starts_with
at_line_start p [] = starts_with p []
at_line_start p (c ∷ cs) = (nat_beq c 10 && starts_with p cs) || at_line_start p cs

-- Whether the pattern is `^…`, and its letters.
abbrev pub junos_errors : List (Bool × Text)
junos_errors =
    (true, codes "error:")
    ∷ (false, codes "syntax error")
    ∷ (false, codes "unknown command")
    ∷ (false, codes "invalid value")
    ∷ (false, codes "missing argument")
    ∷ (false, codes "commit failed")
    ∷ []

unfoldable pub found_in : Text → Bool × Text → Bool
unfolding starts_with at_line_start has_text lower
found_in out (true, p) = starts_with p (lower out) || at_line_start p (lower out)
found_in out (false, p) = has_text p (lower out)

-- The same in one line of the reply, where `^` is the line's start only.
unfoldable pub found_in_line : Bool × Text → Text → Bool
unfolding starts_with has_text lower
found_in_line (true, p) l = starts_with p (lower l)
found_in_line (false, p) l = has_text p (lower l)

abbrev pub pattern_text : Bool × Text → Text
pattern_text (true, p) = codes "^" ++ p
pattern_text (false, p) = p

abbrev pub first_line : Bool × Text → List Text → Text
first_line p [] = pattern_text p
first_line p (l ∷ ls) = let rest = first_line p ls in if found_in_line p l then strip l else rest

-- The detail of the first pattern that the reply has, if any.
unfoldable pub error_among : List (Bool × Text) → Text → Option Text
unfolding found_in found_in_line splitlines strip
error_among [] out = none
error_among (p ∷ ps) out =
    let rest = error_among ps out in
    if found_in out p then some (first_line p (splitlines out)) else rest

unfoldable pub error_in : Text → Option Text
unfolding error_among
error_in = error_among junos_errors

unfoldable pub is_complete : Text → Bool
unfolding has_text lower
is_complete out = has_text (codes "commit complete") (lower out)

abbrev pub is_diff_line : Text → Bool
is_diff_line l =
    not (is_empty (strip l) || (strip l == codes "[edit]"))
    && (starts_with (codes "+") l || starts_with (codes "-") l || starts_with (codes "!") l)

unfoldable pub shows_change : Text → Bool
unfolding strip starts_with splitlines
shows_change diff = any_of is_diff_line (splitlines diff)

-- `\S+` at the start of a text: what it takes, and the rest.
unfoldable pub solid : Text → Text × Text
solid [] = ([], [])
solid (c ∷ cs) = let rest = solid cs in if is_space c then ([], c ∷ cs) else (c ∷ rest.0, rest.1)

-- What follows a literal that the text starts with.
unfoldable pub after : Text → Text → Option Text
after [] t = some t
after (p ∷ ps) [] = none
after (p ∷ ps) (c ∷ cs) = if nat_beq p c then after ps cs else none

-- A nonempty `\S+` after the literal, and the rest.
unfoldable pub solid_after : Text → Text → Option (Text × Text)
unfolding after solid
solid_after p t = elim (after p t) [
  | none ↦ none
  | some rest ↦ if is_empty (solid rest).0 then none else some (solid rest)
]

-- `from-zone (\S+) to-zone (\S+) policy (aa-\S+)` at the start of the text, and the rest.
unfoldable pub policy_at : Text → Option ((Text × Text × Text) × Text)
unfolding solid_after
policy_at t = elim (solid_after (codes "from-zone ") t) [
  | none ↦ none
  | some (src, r) ↦ elim (solid_after (codes " to-zone ") r) [
    | none ↦ none
    | some (dst, s) ↦ elim (solid_after (codes " policy aa-") s) [
      | none ↦ none
      | some (pol, u) ↦ some ((src, dst, codes "aa-" ++ pol), u)
    ]
  ]
]

-- re.finditer: the text of a match, of `skip` characters more, is not searched again.
unfoldable pub policies_in : ℕ → Text → List (Text × Text × Text)
unfolding policy_at
policies_in skip [] = []
policies_in (suc skip) (c ∷ cs) = policies_in skip cs
policies_in zero (c ∷ cs) = elim (policy_at (c ∷ cs)) [
  | none ↦ policies_in zero cs
  | some (found, rest) ↦ found ∷ policies_in (length cs - length rest) cs
]

abbrev pub policy_ref : Text → Text → Text → Text
policy_ref src dst pol = src ++ (codes "->" ++ (dst ++ (codes "/" ++ pol)))

abbrev pub put_policies : Dict Text Text → List (Text × Text × Text) → Dict Text Text
put_policies found [] = found
put_policies found ((src, dst, pol) ∷ ms) = put_policies (put found pol (policy_ref src dst pol)) ms

unfoldable pub managed_in : Text → Dict Text Text
unfolding policies_in
managed_in out = put_policies [] (policies_in 0 out)

-- `(\S+)/` at the start: what stands before the last slash of the run, if anything.
unfoldable pub before_slash : Text → Option Text
before_slash [] = none
before_slash (c ∷ cs) = elim (is_space c) [
  | true ↦ none
  | false ↦ elim (before_slash cs) [
    | some t ↦ some (c ∷ t)
    | none ↦ elim cs [ [] ↦ none | d ∷ ds ↦ if nat_beq d b'/' then some (c ∷ []) else none ]
  ]
]

-- `(\S+)->(\S+)/` at the start: the first group is as long as it can be.
unfoldable pub zones_in : Text → Option (Text × Text)
unfolding after before_slash
zones_in [] = none
zones_in (c ∷ cs) = elim (is_space c) [
  | true ↦ none
  | false ↦ elim (zones_in cs) [
    | some (src, dst) ↦ some (c ∷ src, dst)
    | none ↦ elim (after (codes "->") cs) [
      | none ↦ none
      | some rest ↦ elim (before_slash rest) [ none ↦ none | some dst ↦ some (c ∷ [], dst) ]
    ]
  ]
]

abbrev pub digit_run : Text → Text
digit_run [] = []
digit_run (c ∷ cs) = let rest = digit_run cs in if is_digit c then c ∷ rest else []

-- The text after the literal, in front of its digits.
abbrev pub application_at : Text → Text → Option Text
application_at prefix t = elim (after (codes "application " ++ prefix) t) [
  | none ↦ none
  | some rest ↦ if is_empty (digit_run rest) then none else some (prefix ++ digit_run rest)
]

-- re.findall of `application (<tag>-p\d+)`: a match holds no second one, since a space ends it.
unfoldable pub applications_in : Text → Text → List Text
unfolding after
applications_in prefix [] = []
applications_in prefix (c ∷ cs) = elim (application_at prefix (c ∷ cs)) [
  | none ↦ applications_in prefix cs
  | some app ↦ app ∷ applications_in prefix cs
]

abbrev pub text_leb : Text → Text → Bool
text_leb [] t = true
text_leb (c ∷ cs) [] = false
text_leb (c ∷ cs) (d ∷ ds) = ltb c d || (nat_beq c d && text_leb cs ds)

-- sorted(set(...))
unfoldable pub sorted_applications : Text → Text → List Text
unfolding sort distinct applications_in
sorted_applications tag out = sort text_leb (distinct (applications_in (tag ++ codes "-p") out))

abbrev pub is_host : ℕ → Bool
is_host c = is_word c || nat_beq c b'.' || nat_beq c b'-'

-- `[\w.\-]+\s*[>#]\s*$` at the start of a text, once a character was read: the classes are disjoint.
unfoldable pub prompt_rest : Bool → Text → Bool
prompt_rest some_read [] = false
prompt_rest some_read (c ∷ cs) = elim (is_host c) [
  | true ↦ prompt_rest true cs
  | false ↦ some_read && elim (strip (c ∷ cs)) [
    | [] ↦ false
    | d ∷ ds ↦ (nat_beq d b'>' || nat_beq d b'#') && is_empty ds
  ]
]

-- re.search of `@[\w.\-]+\s*[>#]\s*$`
unfoldable pub is_prompt : Text → Bool
unfolding prompt_rest strip
is_prompt [] = false
is_prompt (c ∷ cs) = (nat_beq c b'@' && prompt_rest false cs) || is_prompt cs

abbrev pub last_of : List Text → Text
last_of [] = []
last_of (l ∷ []) = l
last_of (l ∷ m ∷ ls) = last_of (m ∷ ls)

-- banner.strip().splitlines()[-1]
unfoldable pub last_line : Text → Text
unfolding strip splitlines
last_line banner = last_of (splitlines (strip banner))
