-- ===== src/Tests/Reports.antt =====
-- The normalisers on short captures.
use infrahub_network_field_d.Base.{
  true, none, some, [], ◌∷◌, ◌++◌, ◌≡◌, refl, contains, nat_eq, list_eq,
}
use infrahub_network_field_d.Base.Text.{Text, codes, splitlines, rstrip}
use infrahub_network_field_d.Normalise.{normalise_eos, normalise_srl}
use infrahub_network_field_d.Normalise.Junos.{
  Crypt, normalise_junos, junos_banner, junos_split, junos_cleartext, redact_cleartext,
  running_cleartext, junos_line,
}
use infrahub_network_field_d.Normalise.Junos.Reports.{Reported, cleartext, normalise_junos-reports}

-- A hash that depends on the password only: `x` hashes to `h1` and `h2` at once.
abbrev crypt : Crypt
crypt password setting = some setting

abbrev no_crypt : Crypt
no_crypt password setting = none

abbrev quiet_capture : Text
quiet_capture =
    codes
      "[edit]\n-  version 23.2R1;\n[edit security]\n!    from-zone a {\n-    /* note */\n+    /* note */\n\n[edit system login user admin]\n-   uid 2000;\n-     encrypted-password \"$6$a\"; ## SECRET-DATA\n+     encrypted-password \"$6$b\"; ## SECRET-DATA\n"

junos_in_sync : normalise_junos crypt quiet_capture (codes "x" ∷ []) ≡ []
unfolding normalise_junos junos_line
junos_in_sync = refl

-- The same capture with a password that explains neither hash.
junos_secret_changed :
    normalise_junos no_crypt quiet_capture (codes "x" ∷ [])
    ≡ codes "-     encrypted-password \"$6$a\"; ## SECRET-DATA"
      ∷ codes "+     encrypted-password \"$6$b\"; ## SECRET-DATA"
      ∷ []
unfolding normalise_junos junos_line
junos_secret_changed = refl

abbrev leak : Text
leak = codes "- set system login user admin authentication plain-text-password-value \"admin@123\""

junos_redacts :
    redact_cleartext leak
    ≡ codes "- set system login user admin authentication plain-text-password-value \"<redacted>\""
unfolding redact_cleartext
junos_redacts = refl

junos_probe :
    running_cleartext (
      codes "show | match plain-text-password-value\r\n  set a plain-text-password-value x;y\r\n> ")
    ≡ codes "- set a plain-text-password-value \"<redacted>\";y" ∷ []
unfolding running_cleartext
junos_probe = refl

eos_diff :
    normalise_eos
      (codes "--- system:/running-config\n+++ session\n   interface Et1\n-   shutdown \n+++\n")
    ≡ codes "-   shutdown" ∷ codes "+++" ∷ []
unfolding normalise_eos
eos_diff = refl

srl_diff :
    normalise_srl (
      codes "\n  insert / system name \nAll changes have been discarded. Leaving candidate mode.\n")
    ≡ codes "  insert / system name" ∷ []
unfolding normalise_srl
srl_diff = refl

leak-Reported : Reported leak (redact_cleartext (rstrip leak))
unfolding junos_banner junos_split junos_cleartext
leak-Reported = cleartext refl refl

normalise_junos-reports_example :
    contains (normalise_junos crypt (codes "[edit]\n" ++ leak) []) (redact_cleartext (rstrip leak))
    ≡ true
unfolding splitlines
normalise_junos-reports_example =
    normalise_junos-reports crypt (codes "[edit]\n" ++ leak) [] leak
      (redact_cleartext (rstrip leak)) leak-Reported refl
