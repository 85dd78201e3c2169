-- ===== src/Placement/Kept.antt =====
-- What generators/generate_server_placement.py leaves alone: the machines that its request does
-- not record.
use infrahub_network_field_d.Base.{
  String, true, Option, none, some, List, [], ◌∷◌, ◌≡◌, refl, sym, ap, subst, ◌∙◌, ◌⊎◌, inl, inr,
  map, string_eq, option_eq, Bool-cases, contains, false≢true,
}
use infrahub_network_field_d.Base.Result.{ok}
use mathlib.Core.List.{Memᴰ}
use infrahub_network_field_d.Placement.{
  MachineData, Call, upsert_machine, delete_machine, World, machine_data, generate,
}
use infrahub_network_field_d.Placement.Request.{
  Machine, Placement, Query, adopted_id, adopt, matching, machine_id, first_target, is_withdrawn,
}
use infrahub_network_field_d.Placement.Calls.{place-Only, generate-run_on, run_on-Only, ok_eq}

-- A machine is deleted only for a placement that is withdrawn, and only the one that it records.
pub generate-deletes :
    (w : World) (parsed : Query) (id : String)
    → Memᴰ (delete_machine id) (generate w parsed).0
    → (p : Placement) × (first_target parsed.target ≡ some p)
      × (is_withdrawn p ≡ true)
      × (machine_id p.server ≡ some id)
generate-deletes w parsed id m =
    let (p, e, k) = generate-run_on w parsed (delete_machine id) m in
    let Q : Call → Type 0 =
      λ c. c ≡ delete_machine id → (is_withdrawn p ≡ true) × (machine_id p.server ≡ some id) in
    let (t, r) =
      run_on-Only Q w parsed p e (λ q. cc) (λ status q. cc) (λ t q. cc)
        (λ i t r q. let same : i ≡ id = cc in (t, r ∙ ap some same))
        (λ c n a. place-Only Q w c (λ q. cc) (λ q. cc) (λ server q. cc) (λ q. cc))
        (delete_machine id) k refl in
    (p, e, t, r)

-- What an upsert may be given as the machine's id.
abbrev pub IsOwn : List Machine → Placement → MachineData → Type 0
IsOwn machines p saved =
    ((saved.id ≡ none) × (matching machines saved.name ≡ []))
    ⊎ ((id : String) × (saved.id ≡ some id) × (machine_id p.server ≡ some id))

upsert_eq : (a b : MachineData) → upsert_machine a ≡ upsert_machine b → a ≡ b
upsert_eq a b q = cc

adopted_id-IsOwn :
    (machines : List Machine) (hostname : String) (recorded a : Option String)
    → adopted_id machines hostname recorded ≡ ok a
    → ((a ≡ none) × (matching machines hostname ≡ []))
      ⊎ ((id : String) × (a ≡ some id) × (recorded ≡ some id))
unfolding adopted_id
adopted_id-IsOwn machines hostname recorded a h = go (matching machines hostname) recorded h
  where
    go :
        (ms : List Machine) (r : Option String)
        → adopt ms r ≡ ok a
        → ((a ≡ none) × (ms ≡ [])) ⊎ ((id : String) × (a ≡ some id) × (r ≡ some id))
    go [] r k = inl (ok_eq a none (sym k), refl)
    go (m ∷ ms) none k = cc
    go (m ∷ ms) (some id) k =
        elim (Bool-cases (contains (map (λ (x : Machine). x.id) (m ∷ ms)) id)) [
          | inl t ↦ inr (id, ok_eq a (some id) (sym (rw t at k)), refl)
          | inr n ↦ absurd (false≢true (let q = rw n at k in cc))
        ]

-- A machine that is saved is the one that the placement records, or a new one: then no machine has
-- its name.
pub generate-IsOwn :
    (w : World) (parsed : Query) (saved : MachineData)
    → Memᴰ (upsert_machine saved) (generate w parsed).0
    → (p : Placement) × (first_target parsed.target ≡ some p)
      × IsOwn parsed.compute_physical_server p saved
unfolding machine_data
generate-IsOwn w parsed saved m =
    let (p, e, k) = generate-run_on w parsed (upsert_machine saved) m in
    let Q : Call → Type 0 =
      λ c. c ≡ upsert_machine saved → IsOwn parsed.compute_physical_server p saved in
    let own =
      run_on-Only Q w parsed p e (λ q. cc) (λ status q. cc) (λ t q. cc) (λ i t r q. cc)
        (λ c n a.
          place-Only Q w c
            (λ q.
              subst (IsOwn parsed.compute_physical_server p) (upsert_eq (machine_data c) saved q) (
                adopted_id-IsOwn parsed.compute_physical_server c.hostname (machine_id p.server)
                  c.adopted a.1))
            (λ q. cc) (λ server q. cc) (λ q. cc))
        (upsert_machine saved) k refl in
    (p, e, own)
