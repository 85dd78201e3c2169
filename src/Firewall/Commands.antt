-- ===== src/Firewall/Commands.antt =====
-- The texts that lab/k8s/access/fw-controller/controller.py writes: names, numbers, the commands'
-- lines, and the commands that put a grant on the firewall or take it off.
use infrahub_network_field_d.Base.{
  ℕ, zero, suc, ◌+◌, ◌/◌, ◌%◌, Bool, true, false, not, ◌&&◌, ◌||◌, Option, none, some, List, [],
  ◌∷◌, ◌++◌, map, if◌then◌else◌, nat_beq, ltb, any_of, list_eq, nat_eq, ◌==◌,
}
use mathlib.Core.Option
use infrahub_network_field_d.Base.Members.{each}
use infrahub_network_field_d.Base.Text.{Text, codes, is_digit, strip}
use infrahub_network_field_d.Firewall.Schema.{
  Pair, Command, screen_length, screen_width, show_policies, configure_private, show_compare,
  rollback, exit, commit_and_quit, top, show_applications, set_address, set_protocol, set_port,
  match_source, match_destination, match_application, permit, log_init, log_close, edit_pair,
  annotate, delete_policy, delete_address, delete_application,
}

abbrev pub object_prefix : Text
object_prefix = codes "aa-"

abbrev pub finalizer : Text
finalizer = codes "otternet.lab/firewall-cleanup"

abbrev pub obj_name : Text → Text
obj_name name = object_prefix ++ name

-- str(n): the digits, read off from the right; n digits are enough for n.
abbrev pub digits_onto : ℕ → ℕ → Text → Text
digits_onto zero n t = ((48 + n % 10) ∷ t)
digits_onto (suc f) n t = elim (ltb n 10) [
  | true ↦ (48 + n) ∷ t
  | false ↦ digits_onto f (n / 10) ((48 + n % 10) ∷ t)
]

unfoldable pub decimal : ℕ → Text
decimal n = digits_onto n n []

-- sep.join(parts)
unfoldable pub join : Text → List Text → Text
join sep [] = []
join sep (p ∷ []) = p
join sep (p ∷ q ∷ ps) = p ++ (sep ++ join sep (q ∷ ps))

-- The digits of int's argument: single underscores may stand between them.
abbrev pub int_digits : Bool → Text → Option Text
int_digits after_digit [] = if after_digit then some [] else none
int_digits after_digit (c ∷ cs) = elim (is_digit c) [
  | true ↦ elim (int_digits true cs) [ none ↦ none | some ds ↦ some (c ∷ ds) ]
  | false ↦ elim (after_digit && nat_beq c b'_') [ true ↦ int_digits false cs | false ↦ none ]
]

abbrev pub drop_zeros : Text → Text
drop_zeros [] = codes "0"
drop_zeros (c ∷ cs) = elim (nat_beq c b'0') [ true ↦ drop_zeros cs | false ↦ c ∷ cs ]

abbrev pub negated : Text → Text
negated ds = if ds == codes "0" then ds else b'-' ∷ ds

abbrev pub int_signed : Text → Option Text
int_signed [] = none
int_signed (c ∷ cs) = elim (nat_beq c b'-') [
  | true ↦ Option.map (λ ds. negated (drop_zeros ds)) (int_digits false cs)
  | false ↦ Option.map drop_zeros (int_digits false (if nat_beq c b'+' then cs else c ∷ cs))
]

-- str(int(t)), where `t` is a number's text
unfoldable pub int_text : Text → Option Text
unfolding strip
int_text t = int_signed (strip t)

-- t.split("/", 1), where there is a slash
abbrev pub split_slash : Text → Option (Text × Text)
split_slash [] = none
split_slash (c ∷ cs) = elim (nat_beq c b'/') [
  | true ↦ some ([], cs)
  | false ↦ Option.map (λ parts. (c ∷ parts.0, parts.1)) (split_slash cs)
]

abbrev pub with_bits : Text → Option Text → Option (Text × Text)
with_bits addr none = none
with_bits addr (some bits) = some (addr, bits)

-- The address and the prefix length; none where the length is no number.
unfoldable pub subnet_parts : Text → Option (Text × Text)
unfolding int_text
subnet_parts destination = elim (split_slash destination) [
  | none ↦ some (destination, codes "32")
  | some (addr, bits) ↦ with_bits addr (int_text bits)
]

abbrev pub or_else : Option Text → Text → Text
or_else none t = t
or_else (some s) t = s

abbrev hex_digit : ℕ → ℕ
hex_digit n = if ltb n 10 then 48 + n else 87 + n

abbrev pub quote_of : Text → ℕ
quote_of t = if any_of (nat_beq b'\'') t && not (any_of (nat_beq b'"') t) then b'"' else b'\''

abbrev pub repr_code : ℕ → ℕ → Text
repr_code q c =
    if nat_beq c q || nat_beq c 92
    then 92 ∷ c ∷ []
    else if nat_beq c 10
    then codes "\\n"
    else if nat_beq c 13
    then codes "\\r"
    else if nat_beq c 9
    then codes "\\t"
    else if ltb c 32 || nat_beq c 127
    then codes "\\x" ++ (hex_digit (c / 16) ∷ hex_digit (c % 16) ∷ [])
    else c ∷ []

-- repr(t): beyond ASCII every character counts as printable.
unfoldable pub repr : Text → Text
repr t = quote_of t ∷ (each (repr_code (quote_of t)) t ++ (quote_of t ∷ []))

abbrev pair_text : Text → Text → Text
pair_text src dst = codes "security policies from-zone " ++ (src ++ (codes " to-zone " ++ dst))

abbrev policy_text : Pair → Text
policy_text p = pair_text p.source p.destination ++ (codes " policy " ++ p.tag)

abbrev set_policy : Pair → Text → Text
set_policy p t = codes "set " ++ (policy_text p ++ t)

-- The line that is sent.
unfoldable pub line : Command → Text
unfolding decimal
line screen_length = codes "set cli screen-length 0"
line screen_width = codes "set cli screen-width 0"
line show_policies =
    codes "show configuration security policies | display set | match \" policy aa-\""
line (show_applications tag) =
    codes "show configuration applications | display set | match \" " ++ (tag ++ codes "-p\"")
line configure_private = codes "configure private"
line show_compare = codes "show | compare"
line rollback = codes "rollback"
line exit = codes "exit"
line commit_and_quit = codes "commit and-quit"
line top = codes "top"
line (set_address tag address bits) =
    codes "set security address-book global address "
    ++ (tag ++ (codes " " ++ (address ++ (codes "/" ++ bits))))
line (set_protocol app) = codes "set applications application " ++ (app ++ codes " protocol tcp")
line (set_port app port) =
    codes "set applications application " ++ (app ++ (codes " destination-port " ++ decimal port))
line (match_source p address) = set_policy p (codes " match source-address " ++ address)
line (match_destination p) = set_policy p (codes " match destination-address " ++ p.tag)
line (match_application p app) = set_policy p (codes " match application " ++ app)
line (permit p) = set_policy p (codes " then permit")
line (log_init p) = set_policy p (codes " then log session-init")
line (log_close p) = set_policy p (codes " then log session-close")
line (edit_pair src dst) = codes "edit " ++ pair_text src dst
line (annotate tag note) =
    codes "annotate policy " ++ (tag ++ (codes " \"" ++ (note ++ codes "\"")))
line (delete_policy p) = codes "delete " ++ policy_text p
line (delete_address tag) = codes "delete security address-book global address " ++ tag
line (delete_application app) = codes "delete applications application " ++ app

abbrev pub app_name : Text → ℕ → Text
app_name tag port = tag ++ (codes "-p" ++ decimal port)

abbrev pub application_lines : Text → ℕ → List Command
application_lines tag port =
    set_protocol (app_name tag port) ∷ set_port (app_name tag port) port ∷ []

-- The block that puts a grant on the firewall.
unfoldable pub grant_lines : Pair → Text × Text → Text → List ℕ → Text → List Command
grant_lines p (addr, bits) source ports note =
    set_address p.tag addr bits ∷ each (application_lines p.tag) ports
    ++ (match_source p source
          ∷ match_destination p
          ∷ map (λ port. match_application p (app_name p.tag port)) ports
        ++ (permit p
            ∷ log_init p
            ∷ log_close p
            ∷ edit_pair p.source p.destination
            ∷ annotate p.tag note
            ∷ top
            ∷ []))

-- The block that takes it off, with the application objects that are on the firewall.
unfoldable pub revoke_lines : Pair → List Text → List Command
revoke_lines p apps = delete_policy p ∷ delete_address p.tag ∷ map delete_application apps
