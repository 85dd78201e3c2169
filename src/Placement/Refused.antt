-- ===== src/Placement/Refused.antt =====
-- The requests of generators/generate_server_placement.py that are refused, and those with nothing
-- left to do.
use infrahub_network_field_d.Base.{
  String, true, false, Option, some, List, [], ◌∷◌, ◌≡◌, refl, sym, ap, subst, ◌∙◌, ◌⊎◌, inl, inr,
  map, ◌==◌, string_eq, option_eq,
}
use infrahub_network_field_d.Base.Result.{Result, ok, err, ◌>>=◌}
use mathlib.Core.List.{Memᴰ}
use mathlib.Core.List.Memᴰ.{not-nil}
use infrahub_network_field_d.Placement.{
  Call, upsert_machine, get_service, save_status, World, Run, ◌then◌, set_status, machine_data,
  upsert_server, record_server, place, refuse, build, run_on, run_first, generate,
}
use infrahub_network_field_d.Placement.Request.{
  Machine, Rack, Placement, Query, PlacementContext, validate_placement, context_of, validate_model,
  adopted_id, adopt, matching, machine_id, first_target, is_withdrawn, given, given_text,
  recorded_in, collision,
}
use infrahub_network_field_d.Base.Members.{member-keep_if}
use infrahub_network_field_d.Placement.Calls.{
  refuse-Only, validate_placement-Adopts, validate_model-validate_placement,
}

adopt-err :
    (ms : List Machine) (m : Machine) (r : Option String)
    → Memᴰ m ms
    → recorded_in r (map (λ (x : Machine). x.id) ms) ≡ false
    → adopt ms r ≡ err collision
adopt-err [] m r k h = absurd (not-nil k)
adopt-err (x ∷ xs) m r k h = rw h refl

raises :
    {A : Type 0} (r : Run A) (message : String)
    → (e : String) × ((◌then◌ {B = Unit {0}} r (λ a. ([], err message))).1 ≡ err e)
raises (calls, err e) message = (e, refl)
raises (calls, ok a) message = (message, refl)

refuse-raises :
    (w : World) (p : Placement) (message : String) → (e : String) × ((refuse w p message).1 ≡ err e)
unfolding refuse
refuse-raises w p message = raises (set_status w p.id "error") message

then_eq :
    {A B : Type 0} (r : Result A) (f : A → Result B) (a : A) (b : Result B)
    → r ≡ ok a
    → f a ≡ b
    → (r >>= f) ≡ b
then_eq r f a b p q = ap (λ x. x >>= f) p ∙ q

validate_placement-collision :
    (machines : List Machine) (p : Placement) (m : Machine) (hostname template : String)
    (rack : Rack)
    → p.hostname ≡ some hostname
    → (hostname == "") ≡ false
    → p.rack ≡ some rack
    → p.template ≡ some template
    → Memᴰ m machines
    → m.name ≡ some hostname
    → recorded_in (machine_id p.server) (map (λ (x : Machine). x.id) (matching machines hostname))
      ≡ false
    → validate_placement machines p ≡ err collision
unfolding validate_placement adopted_id
validate_placement-collision machines p m hostname template rack h filled r t on name other =
    let named : (m.name == some hostname) ≡ true =
      (option_eq.beq_iff m.name (some hostname)).1 name in
    let among : Memᴰ m (matching machines hostname) = member-keep_if _ on named in
    let text : given_text p.hostname "the placement states no hostname" ≡ ok hostname =
      ap (λ o. given_text o "the placement states no hostname") h ∙ rw filled refl in
    then_eq _ _ hostname _ text (
      then_eq _ _ rack _ (ap (λ o. given o "the placement names no rack") r) (
        then_eq _ _ template _ (ap (λ o. given o "the placement names no object template") t) (
          ap (λ a. a >>= λ adopted. ok (context_of p hostname rack template adopted))
            (adopt-err (matching machines hostname) m (machine_id p.server) among other))))

generate-refuse :
    (w : World) (parsed : Query) (p : Placement) (message : String)
    → first_target parsed.target ≡ some p
    → is_withdrawn p ≡ false
    → validate_placement parsed.compute_physical_server p ≡ err message
    → generate w parsed ≡ refuse w p message
unfolding generate run_first run_on build
generate-refuse w parsed p message found n v =
    ap (run_first w parsed) found
    ∙ (rw n (ap (build w p) (validate_model-validate_placement parsed p found ∙ v)))

-- A request whose hostname is that of a machine that it does not record is refused: the run raises
-- an error, and its only calls are those that set its status to an error.
pub generate-refuses_collision :
    (w : World) (parsed : Query) (p : Placement) (m : Machine) (hostname template : String)
    (rack : Rack)
    → first_target parsed.target ≡ some p
    → is_withdrawn p ≡ false
    → p.hostname ≡ some hostname
    → (hostname == "") ≡ false
    → p.rack ≡ some rack
    → p.template ≡ some template
    → Memᴰ m parsed.compute_physical_server
    → m.name ≡ some hostname
    → recorded_in
        (machine_id p.server)
        (map (λ (x : Machine). x.id) (matching parsed.compute_physical_server hostname))
      ≡ false
    → ((c : Call)
        → Memᴰ c (generate w parsed).0
        → (c ≡ get_service p.id) ⊎ (c ≡ save_status p.id "error"))
      × ((e : String) × ((generate w parsed).1 ≡ err e))
generate-refuses_collision w parsed p m hostname template rack found n h filled r t on name other =
    let refused = generate-refuse w parsed p collision found n (
      validate_placement-collision parsed.compute_physical_server p m hostname template rack h
        filled r t on name other) in
    let (e, raised) = refuse-raises w p collision in
    let Q : Call → Type 0 = λ c. (c ≡ get_service p.id) ⊎ (c ≡ save_status p.id "error") in
    (
      λ c k.
          refuse-Only Q w p collision (inl refl) (inr refl) c (subst (λ g. Memᴰ c g.0) refused k),
      (e, ap (λ g. g.1) refused ∙ raised),
    )

place-settled :
    (w : World) (c : PlacementContext) (id : String)
    → w.saved (machine_data c) ≡ ok id
    → machine_id c.placement.server ≡ some id
    → w.status c.placement.id ≡ ok (some "active")
    → place w c ≡ (upsert_machine (machine_data c) ∷ get_service c.placement.id ∷ [], ok tt)
unfolding place upsert_server record_server set_status
place-settled w c id saved recorded now =
    let same : (machine_id c.placement.server == some id) ≡ true =
      (option_eq.beq_iff (machine_id c.placement.server) (some id)).1 recorded in
    rw (saved, same, now) refl

-- A valid request whose machine is recorded and whose status is active saves the machine again and
-- writes nothing else.
pub generate-settled :
    (w : World) (parsed : Query) (p : Placement) (c : PlacementContext) (id : String)
    → first_target parsed.target ≡ some p
    → is_withdrawn p ≡ false
    → validate_model parsed ≡ ok c
    → w.saved (machine_data c) ≡ ok id
    → machine_id p.server ≡ some id
    → w.status p.id ≡ ok (some "active")
    → generate w parsed ≡ (upsert_machine (machine_data c) ∷ get_service p.id ∷ [], ok tt)
unfolding generate run_first run_on build
generate-settled w parsed p c id found n v saved recorded now =
    let own : c.placement ≡ p =
      (validate_placement-Adopts parsed.compute_physical_server p c
        (sym (validate_model-validate_placement parsed p found) ∙ v)).0 in
    ap (run_first w parsed) found
    ∙ (rw n (
        ap (build w p) v
        ∙ place-settled w c id saved
            (subst (λ (q : Placement). machine_id q.server ≡ some id) (sym own) recorded)
            (subst (λ (q : Placement). w.status q.id ≡ ok (some "active")) (sym own) now)
        ∙ ap (λ (q : Placement). (upsert_machine (machine_data c) ∷ get_service q.id ∷ [], ok tt))
            own))
