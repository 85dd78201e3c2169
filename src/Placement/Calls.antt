-- ===== src/Placement/Calls.antt =====
-- The calls that a run of generators/generate_server_placement.py makes, part by part.
use infrahub_network_field_d.Base.{
  String, Bool, true, false, Option, none, some, List, ◌≡◌, refl, sym, ap, subst, ◌∙◌, inl, inr,
  if◌then◌else◌, ◌==◌, string_eq, option_eq, Bool-cases,
}
use infrahub_network_field_d.Base.Result.{Result, ok, err, ◌>>=◌, bind-elim}
use mathlib.Core.List.{Memᴰ}
use mathlib.Core.List.Memᴰ.{head, tail, append_cases, not-nil}
use infrahub_network_field_d.Placement.{
  Call, upsert_machine, get_service, save_server, save_status, delete_machine, World, Run, call,
  done, ◌then◌, set_status, machine_data, withdraw_server, upsert_server, point_service,
  record_server, withdraw, place, refuse, build, run_on, run_first, generate,
}
use infrahub_network_field_d.Placement.Request.{
  Machine, Placement, Query, PlacementContext, validate_placement, context_of, validate_model,
  adopted_id, machine_id, first_target, is_withdrawn, given, given_text, no_target,
}

-- Each call of the run is of a kind.
abbrev pub Only : {A : Type 0} → (Call → Type 0) → Run A → Type 0
Only Q r = (c : Call) → Memᴰ c r.0 → Q c

module _ (Q : Call → Type 0) where
  pub then-Only :
      {A B : Type 0} (r : Run A) (f : A → Run B)
      → Only Q r
      → ((a : A) → Only Q (f a))
      → Only Q (r then f)
  then-Only (calls, err e) f h k c m = h c m
  then-Only (calls, ok a) f h k c m = elim (append_cases calls m) [
    | inl p ↦ h c p
    | inr p ↦ k a c p
  ]

  pub call-Only : {A : Type 0} (d : Call) (answer : Result A) → Q d → Only Q (call d answer)
  call-Only d answer q c (head e) = subst Q (sym e) q
  call-Only d answer q c (tail m) = absurd (not-nil m)

  if-Only :
      {A : Type 0} (b : Bool) (r s : Run A) → Only Q r → Only Q s → Only Q (if b then r else s)
  if-Only true r s h k = h
  if-Only false r s h k = k

  done-Only : Only Q done
  done-Only c m = absurd (not-nil m)

  pub set_status-Only :
      (w : World) (id status : String)
      → Q (get_service id)
      → Q (save_status id status)
      → Only Q (set_status w id status)
  unfolding set_status
  set_status-Only w id status g s =
      then-Only _ _ (call-Only (get_service id) (w.status id) g) (λ now.
        if-Only (now == some status) _ _ done-Only
          (call-Only (save_status id status) (w.written (save_status id status)) s))

  point_service-Only :
      (w : World) (id : String) (server : Option String)
      → Q (get_service id)
      → Q (save_server id server)
      → Only Q (point_service w id server)
  unfolding point_service
  point_service-Only w id server g s =
      then-Only _ _ (call-Only (get_service id) (w.status id) g)
        (λ now. call-Only (save_server id server) (w.written (save_server id server)) s)

  pub place-Only :
      (w : World) (c : PlacementContext)
      → Q (upsert_machine (machine_data c))
      → Q (get_service c.placement.id)
      → ((server : Option String) → Q (save_server c.placement.id server))
      → Q (save_status c.placement.id "active")
      → Only Q (place w c)
  unfolding place upsert_server record_server
  place-Only w c u g r s =
      then-Only _ _ (call-Only (upsert_machine (machine_data c)) (w.saved (machine_data c)) u)
        (λ id.
          then-Only _ _
            (if-Only (machine_id c.placement.server == some id) _ _ done-Only
              (point_service-Only w c.placement.id (some id) g (r (some id))))
            (λ a. set_status-Only w c.placement.id "active" g s))

  pub refuse-Only :
      (w : World) (p : Placement) (message : String)
      → Q (get_service p.id)
      → Q (save_status p.id "error")
      → Only Q (refuse w p message)
  unfolding refuse
  refuse-Only w p message g s =
      then-Only _ _ (set_status-Only w p.id "error" g s) (λ a c m. absurd (not-nil m))

  withdraw_server-Only :
      (w : World) (p : Placement) (server : Option Machine)
      → Q (get_service p.id)
      → Q (save_server p.id none)
      → ((id : String) → machine_id server ≡ some id → Q (delete_machine id))
      → Q (save_status p.id "decommissioned")
      → Only Q (withdraw_server w p server)
  unfolding withdraw_server
  withdraw_server-Only w p none g r d s = set_status-Only w p.id "decommissioned" g s
  withdraw_server-Only w p (some m) g r d s =
      then-Only _ _ (point_service-Only w p.id none g r) (λ a.
        then-Only _ _
          (call-Only (delete_machine m.id) (w.written (delete_machine m.id)) (d m.id refl))
          (λ b. set_status-Only w p.id "decommissioned" g s))

-- What a valid request knows of the machine that it takes over, if any.
abbrev pub Adopts : List Machine → Placement → PlacementContext → Type 0
Adopts machines p c =
    (c.placement ≡ p) × (adopted_id machines c.hostname (machine_id p.server) ≡ ok c.adopted)

pub ok_eq : {A : Type 0} (a b : A) → ok a ≡ ok b → a ≡ b
ok_eq a b h = cc

pub validate_placement-Adopts :
    (machines : List Machine) (p : Placement) (c : PlacementContext)
    → validate_placement machines p ≡ ok c
    → Adopts machines p c
unfolding validate_placement
validate_placement-Adopts machines p c h =
    bind-elim (given_text p.hostname "the placement states no hostname") _ c h λ hostname e1 h1.
      bind-elim (given p.rack "the placement names no rack") _ c h1 λ rack e2 h2.
        bind-elim (given p.template "the placement names no object template") _ c h2
          λ template e3 h3.
            bind-elim (adopted_id machines hostname (machine_id p.server)) _ c h3 λ adopted e4 h4.
              subst (Adopts machines p) (ok_eq (context_of p hostname rack template adopted) c h4)
                (refl, e4)

build-Only :
    (Q : Call → Type 0) (w : World) (p : Placement) (r : Result PlacementContext)
    → ((c : PlacementContext) → r ≡ ok c → Only Q (place w c))
    → Q (get_service p.id)
    → Q (save_status p.id "error")
    → Only Q (build w p r)
unfolding build
build-Only Q w p (ok c) h g s = h c refl
build-Only Q w p (err e) h g s = refuse-Only Q w p e g s

-- A run that makes a call has found a placement.
pub generate-run_on :
    (w : World) (parsed : Query) (c : Call)
    → Memᴰ c (generate w parsed).0
    → (p : Placement) × (first_target parsed.target ≡ some p) × Memᴰ c (run_on w parsed p).0
unfolding generate run_first
generate-run_on w parsed c m = go (first_target parsed.target) refl m
  where
    go :
        (o : Option Placement)
        → first_target parsed.target ≡ o
        → Memᴰ c (run_first w parsed o).0
        → (p : Placement) × (first_target parsed.target ≡ some p) × Memᴰ c (run_on w parsed p).0
    go none e k = absurd (not-nil k)
    go (some p) e k = (p, e, k)

pub validate_model-validate_placement :
    (parsed : Query) (p : Placement)
    → first_target parsed.target ≡ some p
    → validate_model parsed ≡ validate_placement parsed.compute_physical_server p
unfolding validate_model
validate_model-validate_placement parsed p e =
    ap (λ o. given o no_target >>= validate_placement parsed.compute_physical_server) e

-- The calls on behalf of a placement.
module _ (Q : Call → Type 0) (w : World) (parsed : Query) (p : Placement)
    (found : first_target parsed.target ≡ some p) where
  pub run_on-Only :
      Q (get_service p.id)
      → ((status : String) → Q (save_status p.id status))
      → (is_withdrawn p ≡ true → Q (save_server p.id none))
      → ((id : String)
          → is_withdrawn p ≡ true
          → machine_id p.server ≡ some id
          → Q (delete_machine id))
      → ((c : PlacementContext)
          → is_withdrawn p ≡ false
          → Adopts parsed.compute_physical_server p c
          → Only Q (place w c))
      → Only Q (run_on w parsed p)
  unfolding run_on withdraw
  run_on-Only g s r d b = elim (Bool-cases (is_withdrawn p)) [
    | inl t ↦ rw t (withdraw_server-Only Q w p p.server g (r t) (λ id. d id t) (s "decommissioned"))
    | inr n ↦ rw n (
        build-Only Q w p (validate_model parsed)
          (λ c v. b c n (
            validate_placement-Adopts parsed.compute_physical_server p c
              (sym (validate_model-validate_placement parsed p found) ∙ v)))
          g (s "error"))
  ]
