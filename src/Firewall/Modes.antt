-- ===== src/Firewall/Modes.antt =====
-- The modes of the firewall's CLI over a pass of lab/k8s/access/fw-controller/controller.py: which
-- command means what it says in which mode, and that each is sent in its own.
use infrahub_network_field_d.Base.{
  Bool, true, false, not, ◌&&◌, ◌||◌, none, List, [], ◌∷◌, ◌≡◌, refl, ap, ◌∙◌, inl, inr,
  if◌then◌else◌, Bool-cases, Option-cases, is_empty, all_of, arith,
}
use infrahub_network_field_d.Base.Text.{Text, codes}
use infrahub_network_field_d.Firewall.Schema
use infrahub_network_field_d.Firewall.Schema.{
  Item, Pair, Command, Call, History, Outcome, returned, http_error, raised, Env, Run, ask,
  continue,
}
use infrahub_network_field_d.Firewall.Replies.{error_in, is_complete, shows_change}
use infrahub_network_field_d.Firewall.Commands.{line}
use infrahub_network_field_d.Firewall.Driver.{
  check, unconfirmed, send_lines, leave, commit, conclude, configure,
}
use infrahub_network_field_d.Firewall.Ends.{Ends, returns, continue-Ends, ask-Ends}

-- A command that changes the candidate configuration, or the place in it.
abbrev pub is_edit : Command → Bool
is_edit Command.screen_length = false
is_edit Command.screen_width = false
is_edit Command.show_policies = false
is_edit (Command.show_applications tag) = false
is_edit Command.configure_private = false
is_edit Command.show_compare = false
is_edit Command.rollback = false
is_edit Command.exit = false
is_edit Command.commit_and_quit = false
is_edit c = true

-- A command of operational mode; the others are of configuration mode.
abbrev pub is_operational : Command → Bool
is_operational Command.screen_length = true
is_operational Command.screen_width = true
is_operational Command.show_policies = true
is_operational (Command.show_applications tag) = true
is_operational Command.configure_private = true
is_operational c = false

abbrev pub confirms : Outcome Text → Bool
confirms (returned out) = is_complete out
confirms o = false

-- What a reply of the firewall means, which the code does not read: whether a `configure private` was
-- accepted, and whether an `exit` led out of configuration mode.
pub record Cli : Type 0 where
  pub enters : Text → Bool
  pub leaves : Text → Bool

abbrev pub entered : Cli → Bool → Outcome Text → Bool
entered cli b (returned out) = cli.enters out || b
entered cli b o = b

abbrev pub remained : Cli → Bool → Outcome Text → Bool
remained cli b (returned out) = not (cli.leaves out) && b
remained cli b o = b

-- Whether a session is in configuration mode after a call: `configure private` enters it if it is
-- accepted, and a commit that is confirmed leaves it.
abbrev pub mode_after : Cli → Bool → Call → Outcome Text → Bool
mode_after cli b Call.open_session o = false
mode_after cli b (Call.send p Command.configure_private) o = entered cli b o
mode_after cli b (Call.send p Command.exit) o = remained cli b o
mode_after cli b (Call.send p Command.commit_and_quit) o = not (confirms o) && b
mode_after cli b c o = b

unfoldable pub in_config : Cli → Env → History → Bool
unfolding is_complete
in_config cli e [] = false
in_config cli e (c ∷ h) = mode_after cli (in_config cli e h) c (e.replied (c ∷ h))

abbrev pub allowed : Bool → Call → Bool
allowed b (Call.send p c) = if is_operational c then not b else b
allowed b c = true

-- Each command of the history was sent in its mode.
unfoldable pub moded : Cli → Env → History → Bool
unfolding in_config
moded cli e [] = true
moded cli e (c ∷ h) = allowed (in_config cli e h) c && moded cli e h

-- Every `configure private` that is answered is accepted: no other session holds the configuration.
-- Every `exit` that is answered leads out of it. And a confirmation of a commit shows no error.
abbrev pub IsHonest : Cli → Env → Type 0
IsHonest cli e =
    ((h : History) (out : Text)
      → e.replied (Call.send Schema.config Command.configure_private ∷ h) ≡ returned out
      → cli.enters out ≡ true)
    × ((h : History) (out : Text)
        → e.replied (Call.send Schema.operational Command.exit ∷ h) ≡ returned out
        → cli.leaves out ≡ true)
    × ((h : History) (out : Text)
        → e.replied (Call.send Schema.either Command.commit_and_quit ∷ h) ≡ returned out
        → is_complete out ≡ true
        → error_in out ≡ none)

abbrev pub Moded : Cli → Env → Bool → History → Type 0
Moded cli e b h = (moded cli e h ≡ true) × (in_config cli e h ≡ b)

abbrev pub Sane : Cli → Env → History → Type 0
Sane cli e h = moded cli e h ≡ true

-- A call that is allowed, and the mode that it leaves.
pub step-Moded :
    {A : Type 0} (cli : Cli) (e : Env) (c : Call) (answer : History → Outcome A) (b b' : Bool)
    (h : History)
    → Moded cli e b h
    → allowed b c ≡ true
    → ((a : A) → answer (c ∷ h) ≡ returned a → mode_after cli b c (e.replied (c ∷ h)) ≡ b')
    → Ends (λ a. Moded cli e b') (Sane cli e) (ask c answer h)
unfolding moded in_config
step-Moded cli e c answer b b' h m k n =
    ask-Ends c answer h (ground (arith, m.0, m.1, k))
      (λ a q. (ground (arith, m.0, m.1, k), ground (arith, m.1, n a q)))

edit-allowed : (c : Command) → is_edit c ≡ true → allowed true (Call.send Schema.config c) ≡ true
edit-allowed c k = ground arith

edit-mode :
    (cli : Cli) (c : Command) (o : Outcome Text)
    → is_edit c ≡ true
    → mode_after cli true (Call.send Schema.config c) o ≡ true
edit-mode cli c o k = ground arith

module _ (cli : Cli) (e : Env) where
  send_lines-Moded :
      (failures : List Text) (lines : List Command) (h : History)
      → all_of is_edit lines ≡ true
      → Moded cli e true h
      → Ends (λ a. Moded cli e true) (Sane cli e) (send_lines e failures lines h)
  unfolding send_lines
  send_lines-Moded failures [] h k m = returns m
  send_lines-Moded failures (c ∷ cs) h k m =
      let (edit, edits) : (is_edit c ≡ true) × (all_of is_edit cs ≡ true) = ground arith in
      continue-Ends
        (step-Moded cli e (Call.send Schema.config c) e.replied true true h m (edit-allowed c edit)
          (λ a q. edit-mode cli c _ edit))
        (λ out g n. send_lines-Moded (check out (line c) failures) cs g edits n)

  leave-Moded :
      IsHonest cli e
      → (failures : List Text) (h : History) → Moded cli e true h
      → Ends (λ a. Moded cli e false) (Sane cli e) (leave e failures h)
  leave-Moded honest failures h m =
      continue-Ends
        (step-Moded cli e (Call.send Schema.config Command.rollback) e.replied true true h m refl
          (λ a q. refl))
        (λ a g n.
          continue-Ends
            (step-Moded cli e (Call.send Schema.operational Command.exit) e.replied true false g n
              refl (λ a q. rw (q, honest.1 g a q) refl))
            (λ a g n. returns n))

-- What is known once the answer to a commit was read.
abbrev Asked : Cli → Env → Text → History → Type 0
Asked cli e out h =
    (moded cli e h ≡ true)
    × (in_config cli e h ≡ not (is_complete out))
    × (is_complete out ≡ true → error_in out ≡ none)

commit-Asked :
    (cli : Cli) (e : Env) (h : History)
    → IsHonest cli e
    → Moded cli e true h
    → Ends
        (Asked cli e)
        (Sane cli e)
        (ask (Call.send Schema.either Command.commit_and_quit) e.replied h)
unfolding moded in_config
commit-Asked cli e h honest m =
    ask-Ends (Call.send Schema.either Command.commit_and_quit) e.replied h
      (ground (arith, m.0, m.1))
      (λ out q. (
        ground (arith, m.0, m.1),
        rw (m.1, q) (and_true (not (is_complete out))),
        honest.2 h out q,
      ))
  where
    and_true : (b : Bool) → (b && true) ≡ b
    and_true b = ground arith

-- A commit that was not confirmed has a failure, and one without an error that was has none.
unconfirmed-nonempty :
    (out : Text)
    → is_complete out ≡ false
    → is_empty (unconfirmed out (check out (codes "commit and-quit") [])) ≡ false
unfolding check
unconfirmed-nonempty out c = elim (Option-cases (error_in out)) [
  | inl n ↦ rw (n, check) (rw c refl)
  | inr (d, s) ↦ rw (s, check) (rw c refl)
]

unconfirmed-empty :
    (out : Text)
    → is_complete out ≡ true
    → error_in out ≡ none
    → unconfirmed out (check out (codes "commit and-quit") []) ≡ []
unfolding check
unconfirmed-empty out c n = rw (n, check) (rw c refl)

module _ (cli : Cli) (e : Env) (honest : IsHonest cli e) where
  commit-Moded :
      (h : History) → Moded cli e true h → Ends (λ a. Moded cli e false) (Sane cli e) (commit e h)
  unfolding commit
  commit-Moded h m = continue-Ends (commit-Asked cli e h honest m) (λ out g a.
      elim (Bool-cases (is_complete out)) [
        | inl t ↦ rw (unconfirmed-empty out t (a.2 t)) (returns (a.0, a.1 ∙ ap not t))
        | inr f ↦
            rw (unconfirmed-nonempty out f) (leave-Moded cli e honest _ g (a.0, a.1 ∙ ap not f))
      ])

  conclude-Moded :
      (failures : List Text) (diff : Text) (h : History)
      → Moded cli e true h
      → Ends (λ a. Moded cli e false) (Sane cli e) (conclude e failures diff h)
  unfolding conclude
  conclude-Moded failures diff h m =
      elim (Bool-cases (not (is_empty failures) || not (shows_change diff))) [
        | inl t ↦ rw t (leave-Moded cli e honest failures h m)
        | inr f ↦ rw f (commit-Moded h m)
      ]

  pub configure-Moded :
      (lines : List Command) (h : History)
      → all_of is_edit lines ≡ true
      → Moded cli e false h
      → Ends (λ a. Moded cli e false) (Sane cli e) (configure e lines h)
  unfolding configure
  configure-Moded lines h k m =
      continue-Ends
        (step-Moded cli e (Call.send Schema.config Command.configure_private) e.replied false true h
          m refl (λ a q. rw (q, honest.0 h a q) refl))
        (λ a g n. continue-Ends (send_lines-Moded cli e [] lines g k n) (λ failures g n.
          continue-Ends
            (step-Moded cli e (Call.send Schema.config Command.show_compare) e.replied true true g n
              refl (λ a q. refl))
            (λ diff g n. conclude-Moded failures diff g n)))
