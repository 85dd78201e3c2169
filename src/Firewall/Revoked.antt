-- ===== src/Firewall/Revoked.antt =====
-- What lab/k8s/access/fw-controller/controller.py does for an object that is being deleted when the
-- firewall refuses.
use infrahub_network_field_d.Base.{
  true, false, not, ◌||◌, Option, List, [], ◌∷◌, ◌≡◌, refl, inl, inr, Bool-cases, is_empty, keep_if,
  list_eq, nat_eq, ◌==◌,
}
use mathlib.Core.List.{Memᴰ}
use mathlib.Core.List.Memᴰ.{head}
use infrahub_network_field_d.Base.Text.{Text, codes}
use infrahub_network_field_d.Firewall.Schema
use infrahub_network_field_d.Firewall.Schema.{
  Item, Command, Call, History, Outcome, returned, Env, ask,
}
use infrahub_network_field_d.Firewall.Replies.{shows_change, sorted_applications}
use infrahub_network_field_d.Firewall.Commands.{finalizer, obj_name, line, revoke_lines}
use infrahub_network_field_d.Firewall.Driver.{
  check, unconfirmed, send_lines, leave, commit, conclude, configure, remove, recorded_pair, tell,
}
use infrahub_network_field_d.Firewall.Pass.{revoke, finalizers_of, current_ref}
use infrahub_network_field_d.Firewall.Ends.{
  Ends, returns, errs, raises, continue-Ends, ask-Ends, Ends-all,
}

-- The firewall answers each command, whatever it says.
abbrev pub Answers : Env → Type 0
Answers e = (h : History) → (out : Text) × (e.replied h ≡ returned out)

-- The record without the controller's finalizer.
abbrev pub unregistering : Item → Call
unregistering item =
    Call.patch_finalizers item.name
      (keep_if (λ f. not (f == finalizer)) (finalizers_of item.finalizers))

abbrev Some : {A : Type 0} → A → History → Type 0
Some a h = Unit {0}

abbrev Never : History → Type 0
Never h = false ≡ true

module _ (e : Env) (answers : Answers e) where
  tell-Some : (p : Schema.Prompt) (c : Command) (h : History) → Ends Some Never (tell e p c h)
  tell-Some p c h = let (out, q) = answers (Call.send p c ∷ h) in rw q (returns tt)

  send_lines-Some :
      (failures : List Text) (lines : List Command) (h : History)
      → Ends Some Never (send_lines e failures lines h)
  unfolding send_lines
  send_lines-Some failures [] h = returns tt
  send_lines-Some failures (c ∷ cs) h =
      continue-Ends (tell-Some Schema.config c h)
        (λ out g n. send_lines-Some (check out (line c) failures) cs g)

  leave-Some : (failures : List Text) (h : History) → Ends Some Never (leave e failures h)
  leave-Some failures h =
      continue-Ends (tell-Some Schema.config Command.rollback h)
        (λ a g n. continue-Ends (tell-Some Schema.operational Command.exit g) (λ a g n. returns tt))

  commit-Some : (h : History) → Ends Some Never (commit e h)
  unfolding commit
  commit-Some h = continue-Ends (tell-Some Schema.either Command.commit_and_quit h) (λ out g n.
      let failures = unconfirmed out (check out (codes "commit and-quit") []) in
      elim (Bool-cases (is_empty failures)) [
        | inl t ↦ rw t (returns tt)
        | inr f ↦ rw f (leave-Some failures g)
      ])

  conclude-Some :
      (failures : List Text) (diff : Text) (h : History)
      → Ends Some Never (conclude e failures diff h)
  unfolding conclude
  conclude-Some failures diff h =
      elim (Bool-cases (not (is_empty failures) || not (shows_change diff))) [
        | inl t ↦ rw t (leave-Some failures h)
        | inr f ↦ rw f (commit-Some h)
      ]

  remove-Some :
      (name : Text) (ref : Option Text) (h : History) → Ends Some Never (remove e name ref h)
  unfolding remove configure
  remove-Some name ref h =
      continue-Ends (tell-Some Schema.either (Command.show_applications (obj_name name)) h)
        (λ out g n.
          continue-Ends
            (continue-Ends (tell-Some Schema.config Command.configure_private g) (λ a g n.
              continue-Ends
                (send_lines-Some []
                  (revoke_lines (recorded_pair name ref) (sorted_applications (obj_name name) out))
                  g)
                (λ failures g n.
                  continue-Ends (tell-Some Schema.config Command.show_compare g)
                    (λ diff g n. conclude-Some failures diff g))))
            (λ failures g n. returns tt))

  surely :
      {A : Type 0} {E : History → Type 0} {o : History × Outcome A}
      → Ends Some Never o
      → Ends Some E o
  surely (returns q) = returns q
  surely (errs q) = cc
  surely (raises q) = cc

  -- Where the firewall answers each command, whatever it says, and also where it refuses each line or
  -- the commit, the controller's finalizer is taken off an object that is being deleted.
  pub revoke-unregisters :
      (item : Item) (h : History) → Memᴰ (unregistering item) (revoke e item h).0
  unfolding revoke
  revoke-unregisters item h =
      Ends-all {E = λ g. Memᴰ (unregistering item) g}
        (continue-Ends (surely (remove-Some item.name (current_ref item.status) h)) (λ a g n.
          ask-Ends {Q = λ a g. Memᴰ (unregistering item) g} (unregistering item) e.patched g
            (head refl) (λ a q. head refl)))
        (λ a g m. m)
