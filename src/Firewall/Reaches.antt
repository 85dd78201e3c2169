-- ===== src/Firewall/Reaches.antt =====
-- The calls that a block of lines adds in lab/k8s/access/fw-controller/controller.py: what each of
-- them keeps holds throughout, and a block that is done was sent.
use infrahub_network_field_d.Base.{
  not, ◌||◌, List, [], ◌∷◌, refl, inl, inr, subst, sym, Bool-cases, is_empty,
}
use mathlib.Core.List.{Memᴰ}
use mathlib.Core.List.Memᴰ.{head, tail, not-nil}
use infrahub_network_field_d.Base.Text.{Text, codes}
use infrahub_network_field_d.Firewall.Schema
use infrahub_network_field_d.Firewall.Schema.{
  Spec, Item, Pair, Command, Call, History, Outcome, returned, Env, ask,
}
use infrahub_network_field_d.Firewall.Replies.{shows_change}
use infrahub_network_field_d.Firewall.Commands.{line}
use infrahub_network_field_d.Firewall.Driver.{
  check, unconfirmed, send_lines, leave, commit, conclude, configure,
}
use infrahub_network_field_d.Firewall.Ends.{
  Ends, returns, raises, errs, continue-Ends, ask-Ends, weaken-Ends,
}

-- Each call of a history is of a kind.
abbrev pub Only : (Call → Type 0) → History → Type 0
Only P h = (c : Call) → Memᴰ c h → P c

pub Only-cons : (P : Call → Type 0) (c : Call) (h : History) → P c → Only P h → Only P (c ∷ h)
Only-cons P c h p k d (head e) = subst P (sym e) p
Only-cons P c h p k d (tail m) = k d m

-- Each line of the block was sent.
abbrev pub Sent : List Command → History → Type 0
Sent lines h = (c : Command) → Memᴰ c lines → Memᴰ (Call.send Schema.config c) h

module _ (I : History → Type 0) where
  -- A call keeps what holds.
  abbrev pub Keeps : Call → Type 0
  Keeps c = (h : History) → I h → I (c ∷ h)

  pub ask-Keeps :
      {A : Type 0} (c : Call) (answer : History → Outcome A) (h : History)
      → Keeps c
      → I h
      → Ends (λ a. I) I (ask c answer h)
  ask-Keeps c answer h p k = ask-Ends c answer h (p h k) (λ a q. p h k)

  -- Each line of the block keeps it.
  abbrev pub Lines : List Command → Type 0
  Lines lines = (c : Command) → Memᴰ c lines → Keeps (Call.send Schema.config c)

  -- The commands around a block keep it.
  abbrev pub Frame : Type 0
  Frame =
      Keeps (Call.send Schema.config Command.configure_private)
      × Keeps (Call.send Schema.config Command.show_compare)
      × Keeps (Call.send Schema.config Command.rollback)
      × Keeps (Call.send Schema.operational Command.exit)
      × Keeps (Call.send Schema.either Command.commit_and_quit)

  module _ (e : Env) where
    send_lines-Sent :
        (failures : List Text) (lines : List Command) (h : History)
        → Lines lines
        → I h
        → Ends
            (λ a g. I g × Sent lines g × ((c : Call) → Memᴰ c h → Memᴰ c g))
            I
            (send_lines e failures lines h)
    unfolding send_lines
    send_lines-Sent failures [] h l k = returns (k, λ c m. absurd (not-nil m), λ c m. m)
    send_lines-Sent failures (c ∷ cs) h l k =
        continue-Ends
          (ask-Ends
            {Q = λ out g.
              I g × Memᴰ (Call.send Schema.config c) g × ((d : Call) → Memᴰ d h → Memᴰ d g)}
            (Call.send Schema.config c) e.replied h (l c (head refl) h k)
            (λ out q. (l c (head refl) h k, head refl, λ d m. tail m)))
          (λ out g n.
            weaken-Ends
              (send_lines-Sent (check out (line c) failures) cs g (λ d m. l d (tail m)) n.0)
              (λ a i q. (q.0, sent g i n.1 q.1 q.2, λ d m. q.2 d (n.2 d m))))
      where
        sent :
            (g i : History)
            → Memᴰ (Call.send Schema.config c) g
            → Sent cs i
            → ((d : Call) → Memᴰ d g → Memᴰ d i)
            → Sent (c ∷ cs) i
        sent g i m s t d (head q) =
            t (Call.send Schema.config d)
              (subst (λ x. Memᴰ (Call.send Schema.config x) g) (sym q) m)
        sent g i m s t d (tail n) = s d n

    module _ (frame : Frame) where
      leave-Keeps :
          (failures : List Text) (h : History) → I h → Ends (λ a. I) I (leave e failures h)
      leave-Keeps failures h k =
          continue-Ends (ask-Keeps (Call.send Schema.config Command.rollback) e.replied h frame.2 k)
            (λ a g n.
              continue-Ends
                (ask-Keeps (Call.send Schema.operational Command.exit) e.replied g frame.3 n)
                (λ a g n. returns n))

      commit-Keeps : (h : History) → I h → Ends (λ a. I) I (commit e h)
      unfolding commit
      commit-Keeps h k =
          continue-Ends
            (ask-Keeps (Call.send Schema.either Command.commit_and_quit) e.replied h frame.4 k)
            (λ out g n.
              let failures = unconfirmed out (check out (codes "commit and-quit") []) in
              elim (Bool-cases (is_empty failures)) [
                | inl t ↦ rw t (returns n)
                | inr f ↦ rw f (leave-Keeps failures g n)
              ])

      conclude-Keeps :
          (failures : List Text) (diff : Text) (h : History)
          → I h
          → Ends (λ a. I) I (conclude e failures diff h)
      unfolding conclude
      conclude-Keeps failures diff h k =
          elim (Bool-cases (not (is_empty failures) || not (shows_change diff))) [
            | inl t ↦ rw t (leave-Keeps failures h k)
            | inr f ↦ rw f (commit-Keeps h k)
          ]

module _ (I : History → Type 0) (e : Env) (frame : Frame I) where
  -- A block that is done was sent, whatever the firewall said of it.
  pub configure-Sent :
      (lines : List Command) (h : History)
      → Lines I lines
      → I h
      → Ends (λ a g. I g × Sent lines g) I (configure e lines h)
  unfolding configure
  configure-Sent lines h l k =
      continue-Ends
        (ask-Keeps I (Call.send Schema.config Command.configure_private) e.replied h frame.0 k)
        (λ a g n. continue-Ends (send_lines-Sent I e [] lines g l n) (λ failures g n.
          continue-Ends
            (ask-Ends (Call.send Schema.config Command.show_compare) e.replied g (frame.1 g n.0)
              (λ a q. both (Call.send Schema.config Command.show_compare) frame.1 g (n.0, n.1)))
            (λ diff g n. relax (
              conclude-Keeps (λ g. I g × Sent lines g) e
                (both _ frame.0, both _ frame.1, both _ frame.2, both _ frame.3, both _ frame.4)
                failures diff g n))))
    where
      both :
          (c : Call)
          → Keeps I c
          → (h : History) → I h × Sent lines h
          → I (c ∷ h) × Sent lines (c ∷ h)
      both c p h k = (p h k.0, λ d m. tail (k.1 d m))

      relax :
          {A : Type 0} {o : History × Outcome A}
          → Ends (λ a g. I g × Sent lines g) (λ g. I g × Sent lines g) o
          → Ends (λ a g. I g × Sent lines g) I o
      relax (returns q) = returns q
      relax (errs q) = errs q.0
      relax (raises q) = raises q.0
