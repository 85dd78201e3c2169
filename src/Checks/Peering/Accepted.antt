-- ===== src/Checks/Peering/Accepted.antt =====
-- What checks/peering_consistency_check.py refuses, and what holds of a branch that it lets
-- through.
use infrahub_network_field_d.Base.{
  String, Bool, true, false, Option, none, some, List, [], ◌∷◌, ◌++◌, ◌≡◌, refl, sym, ap, subst,
  ◌∙◌, ◌↔◌, inl, inr, if◌then◌else◌, ◌==◌, string_eq, nat_eq, option_eq, Bool-cases, arith, map,
  Option-cases, keep_if, append-nil, append_singleton, any_of, any_of-append, contains, Eq,
  false≢true,
}
use infrahub_network_field_d.Base.Dict.{Dict}
use infrahub_network_field_d.Base.Groups.{append_to, group, group-put_same, group-put_other}
use mathlib.Core.List.{Memᴰ}
use mathlib.Core.List.Memᴰ.{head, tail, append_right, append_cases, not-nil}
use infrahub_network_field_d.Base.Members.{each-member}
use infrahub_network_field_d.Checks.Peering.{
  validate, collect_findings, rules, Entry, log_error, log_advisory, log_consistent, entry_of, log,
}
use infrahub_network_field_d.Checks.Peering.Schema.{
  Query, Device, Session, Virtual, Finding, fabric_roles, Message, records_other_asn,
  records_other_address,
}
use infrahub_network_field_d.Checks.Peering.Rules.{
  asn_findings, check_asn_matches_device, svis_by_device, peering_address, address_findings,
  check_address_matches_svi, role_findings, check_peer_role, flat, differing, off_role, with_device,
  on_session,
}

abbrev is_error : Entry → Bool
is_error (log_error f) = true
is_error (log_advisory f) = false
is_error log_consistent = false

-- A merge that the check blocks.
abbrev pub is_blocked : List Entry → Bool
is_blocked = any_of is_error

abbrev blocks : Finding → Bool
blocks f = f.is_error

entry_of-blocks : (f : Finding) → is_error (entry_of f) ≡ f.is_error
entry_of-blocks f = elim (Bool-cases f.is_error) [ inl t ↦ rw t refl | inr n ↦ rw n refl ]

entries-blocked : (fs : List Finding) → is_blocked (map entry_of fs) ≡ any_of blocks fs
entries-blocked [] = refl
entries-blocked (f ∷ fs) = rw (entry_of-blocks f, entries-blocked fs) refl

log-blocked : (fs : List Finding) → is_blocked (log fs) ≡ any_of blocks fs
log-blocked fs =
    any_of-append is_error (map entry_of fs) _
    ∙ (rw (entries-blocked fs)
        (elim (Bool-cases (any_of blocks fs)) [ inl t ↦ rw t refl | inr n ↦ rw n refl ]))

entry_of-speaks : (f : Finding) → log_consistent ≡ entry_of f → false ≡ true
entry_of-speaks f p = elim (Bool-cases f.is_error) [
  | inl t ↦ let q : log_consistent ≡ log_error f = p ∙ rw t refl in cc
  | inr n ↦ let q : log_consistent ≡ log_advisory f = p ∙ rw n refl in cc
]

no_entry : (fs : List Finding) → Memᴰ log_consistent (map entry_of fs) → false ≡ true
no_entry [] m = absurd (not-nil m)
no_entry (f ∷ fs) (head p) = entry_of-speaks f p
no_entry (f ∷ fs) (tail m) = no_entry fs m

log-consistent : (fs : List Finding) → Memᴰ log_consistent (log fs) → any_of blocks fs ≡ false
log-consistent fs m = elim (append_cases (map entry_of fs) m) [
  | inl k ↦ absurd (false≢true (no_entry fs k))
  | inr k ↦ elim (Bool-cases (any_of blocks fs)) [
    | inl t ↦ absurd (not-nil (rw t at k))
    | inr n ↦ n
  ]
]

consistent-log : (fs : List Finding) → any_of blocks fs ≡ false → Memᴰ log_consistent (log fs)
consistent-log fs n = append_right (map entry_of fs) (rw n (head refl))

-- The check logs that the model is consistent just where it logs no error.
pub validate-consistent_iff :
    (parsed : Query)
    → Memᴰ log_consistent (validate parsed) ↔ (is_blocked (validate parsed) ≡ false)
unfolding validate
validate-consistent_iff parsed =
    let fs = collect_findings parsed in
    (λ m. log-blocked fs ∙ log-consistent fs m, λ h. consistent-log fs (sym (log-blocked fs) ∙ h))

any_of-none :
    {A : Type 0} (p : A → Bool) (xs : List A) {a : A}
    → any_of p xs ≡ false
    → Memᴰ a xs
    → p a ≡ false
any_of-none p [] h m = absurd (not-nil m)
any_of-none p (x ∷ xs) h (head e) = ap p e ∙ ground arith
any_of-none p (x ∷ xs) h (tail m) = any_of-none p xs (ground arith) m

-- A rule of a branch that is let through finds no error.
rule-silent :
    (parsed : Query) (rule : Query → List Finding) (f : Finding)
    → is_blocked (validate parsed) ≡ false
    → Memᴰ rule rules
    → Memᴰ f (rule parsed)
    → f.is_error ≡ false
unfolding validate collect_findings
rule-silent parsed rule f h on m =
    any_of-none blocks (collect_findings parsed) (sym (log-blocked (collect_findings parsed)) ∙ h)
      (each-member (λ (r : Query → List Finding). r parsed) on m)

-- A list without an error has no finding on a session.
abbrev Silent : List Finding → Type 0
Silent fs = (f : Finding) → Memᴰ f fs → f.is_error ≡ false

-- The value that the fabric has, if it has one, is the value recorded.
abbrev pub agrees {ℓ} : {A : Type ℓ} ⦃same : Eq A⦄ → Option A → Option A → Bool
agrees none recorded = true
agrees (some a) recorded = recorded == some a

abbrev pub is_fabric_role : Option String → Bool
is_fabric_role none = true
is_fabric_role (some role) = contains fabric_roles role

if_Silent :
    (test : Bool) (s : Session) (m : Message)
    → Silent (if test then [] else on_session s m)
    → test ≡ true
if_Silent true s m h = refl
if_Silent false s m h = absurd (false≢true (sym (h _ (head refl))))

differing-agrees :
    {A : Type 0} ⦃same : Eq A⦄ (authoritative recorded : Option A) (s : Session)
    (message : A → Message)
    → Silent (differing authoritative recorded s message)
    → agrees authoritative recorded ≡ true
differing-agrees none recorded s message h = refl
differing-agrees (some a) recorded s message h = if_Silent (recorded == some a) s (message a) h

off_role-is_fabric_role :
    (role : Option String) (s : Session) → Silent (off_role role s) → is_fabric_role role ≡ true
off_role-is_fabric_role none s h = refl
off_role-is_fabric_role (some role) s h = if_Silent (contains fabric_roles role) s _ h

abbrev pub of_device : String → List Virtual → List Virtual
of_device id = keep_if (λ v. v.device == some id)

-- The virtual interfaces of a device, as they are indexed and as they are chosen from the list.
svis_by_device-group :
    (d : Dict String (List Virtual)) (vs : List Virtual) (id : String)
    → group (svis_by_device d vs) id ≡ group d id ++ of_device id vs
unfolding svis_by_device
svis_by_device-group d [] id = sym (append-nil _)
svis_by_device-group d (v ∷ vs) id = elim (Option-cases v.device) [
  | inl e ↦ simp e (svis_by_device-group d vs id)
  | inr (device, e) ↦ simp e (
      svis_by_device-group (append_to d device v) vs id ∙ (elim (Bool-cases (device == id)) [
        | inl t ↦
            let q : device ≡ id = (string_eq.beq_iff device id).0 t in
            let same = group-put_same d device id (group d device ++ v ∷ []) q in
            let all = same ∙ ap (λ z. group d z ++ v ∷ []) q in
            rw t (ap (λ xs. xs ++ of_device id vs) all ∙ append_singleton (group d id) _ v)
        | inr n ↦ rw n (ap (λ xs. xs ++ of_device id vs) (group-put_other d device id _ n))
      ]))
]

Silent-on_device :
    (o : Option Device) (d : Device) (findings : Device → List Finding)
    → o ≡ some d
    → Silent (with_device o findings)
    → Silent (findings d)
Silent-on_device o d findings p h f m = h f (subst (λ q. Memᴰ f (with_device q findings)) (sym p) m)

asn_findings-agrees :
    (s : Session) (d : Device)
    → s.peer_device ≡ some d
    → Silent (asn_findings s)
    → agrees (flat d.asn) s.peer_asn ≡ true
unfolding asn_findings
asn_findings-agrees s d p h = differing-agrees (flat d.asn) s.peer_asn s (records_other_asn s) (
    Silent-on_device s.peer_device d
      (λ device. differing (flat device.asn) s.peer_asn s (records_other_asn s)) p h)

address_findings-agrees :
    (svis : Dict String (List Virtual)) (s : Session) (d : Device)
    → s.peer_device ≡ some d
    → Silent (address_findings svis s)
    → agrees (peering_address (group svis d.id)) (flat s.peer_address) ≡ true
unfolding address_findings
address_findings-agrees svis s d p h =
    differing-agrees (peering_address (group svis d.id)) (flat s.peer_address) s
      (records_other_address s)
      (Silent-on_device s.peer_device d
        (λ device.
          differing (peering_address (group svis device.id)) (flat s.peer_address) s
            (records_other_address s))
        p h)

role_findings-is_fabric_role :
    (s : Session) (d : Device)
    → s.peer_device ≡ some d
    → Silent (role_findings s)
    → is_fabric_role d.role ≡ true
unfolding role_findings
role_findings-is_fabric_role s d p h =
    off_role-is_fabric_role d.role s
      (Silent-on_device s.peer_device d (λ device. off_role device.role s) p h)

-- Where the check logs no error, a session with a device has the number of that device and the
-- address of its peering interface, as far as these are known, and the device has a fabric role, if
-- its role is known.
pub validate-accepts_session :
    (parsed : Query) (s : Session) (d : Device)
    → is_blocked (validate parsed) ≡ false
    → Memᴰ s parsed.cluster_fabric_peering
    → s.peer_device ≡ some d
    → (agrees (flat d.asn) s.peer_asn ≡ true)
      × (agrees (peering_address (of_device d.id parsed.interface_virtual)) (flat s.peer_address)
          ≡ true)
      × (is_fabric_role d.role ≡ true)
unfolding check_asn_matches_device check_address_matches_svi check_peer_role rules
validate-accepts_session parsed s d h m p = (
  asn_findings-agrees s d p (λ f k.
      rule-silent parsed check_asn_matches_device f h (head refl) (each-member asn_findings m k)),
  subst (λ vs. agrees (peering_address vs) (flat s.peer_address) ≡ true)
      (svis_by_device-group [] parsed.interface_virtual d.id)
      (address_findings-agrees (svis_by_device [] parsed.interface_virtual) s d p (λ f k.
        rule-silent parsed check_address_matches_svi f h (tail (head refl))
          (each-member (address_findings (svis_by_device [] parsed.interface_virtual)) m k))),
  role_findings-is_fabric_role s d p (λ f k.
      rule-silent parsed check_peer_role f h (tail (tail (tail (tail (head refl)))))
        (each-member role_findings m k)),
)
