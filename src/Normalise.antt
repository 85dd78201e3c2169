-- ===== src/Normalise.antt =====
-- src/solution_arista_avd/deployment/normalise.py: from a device's raw comparison output to the
-- lines that count as a difference.
pub mod Junos
use infrahub_network_field_d.Base.{
  ℕ, String, Bool, true, false, not, ◌&&◌, ◌||◌, List, [], ◌∷◌, map, if◌then◌else◌, ◌==◌, string_eq,
  keep_if, is_empty, all_of, drop, length, nat_beq,
}
use infrahub_network_field_d.Base.Text.{
  Text, codes, is_space, splitlines, rstrip, strip, starts_with,
}
use infrahub_network_field_d.Base.Result.{Result, ok, err}
use Junos.{Crypt, normalise_junos}
use Prim.Native.String

-- ^(---|\+\+\+)\s
unfoldable pub eos_header : Text → Bool
unfolding starts_with
eos_header line =
    (starts_with (codes "---") line || starts_with (codes "+++") line)
    && first_is_space (drop 3 line)
  where
    first_is_space : Text → Bool
    first_is_space [] = false
    first_is_space (c ∷ cs) = is_space c

abbrev pub signed : Text → Bool
signed [] = false
signed (c ∷ cs) = nat_beq c b'+' || nat_beq c b'-'

unfoldable pub eos_significant : Text → Bool
unfolding eos_header
eos_significant line = signed line && not (eos_header line)

unfoldable pub normalise_eos : Text → List Text
unfolding splitlines rstrip eos_significant
normalise_eos raw = map rstrip (keep_if eos_significant (splitlines raw))

abbrev pub srl_status_line : Text
srl_status_line = codes "All changes have been discarded. Leaving candidate mode."

-- ^All changes have been discarded\. Leaving candidate mode\.\s*$
unfoldable pub srl_status : Text → Bool
unfolding starts_with
srl_status line =
    starts_with srl_status_line line && all_of is_space (drop (length srl_status_line) line)

unfoldable pub srl_significant : Text → Bool
unfolding strip srl_status
srl_significant line = not (is_empty (strip line)) && not (srl_status (strip line))

unfoldable pub normalise_srl : Text → List Text
unfolding splitlines rstrip srl_significant
normalise_srl raw = map rstrip (keep_if srl_significant (splitlines raw))

abbrev pub artifact_eos : String
artifact_eos = "AVD EOS Configuration"

abbrev pub artifact_srl : String
artifact_srl = "SR Linux Configuration"

abbrev pub artifact_junos : String
artifact_junos = "Junos Configuration"

-- The lookup in NORMALISERS; a family without a normaliser raises.
unfoldable pub normalise : Crypt → List Text → String → Text → Result (List Text)
unfolding normalise_eos normalise_srl normalise_junos
normalise crypt known artifact_name raw =
    if artifact_name == artifact_eos
    then ok (normalise_eos raw)
    else if artifact_name == artifact_srl
    then ok (normalise_srl raw)
    else if artifact_name == artifact_junos
    then ok (normalise_junos crypt raw known)
    else err "no normaliser for artifact"
