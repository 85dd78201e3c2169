-- ===== src/State/Records.antt =====
-- What an upsert of an outcome does to the deployment records.
use infrahub_network_field_d.Base.{
  String, false, not, ◌||◌, ◌&&◌, Option, none, some, List, [], ◌∷◌, ◌≡◌, inl, inr, refl, ◌∙◌,
  arith, if◌then◌else◌, ◌==◌, string_eq, contains, Bool-cases, Option-cases,
}
use infrahub_network_field_d.State.{
  never_deployed, Record, Outcome, Graph, Stamps, names, is_found, is_set, write_fields, fresh,
  updated, record_after, record_outcome, last_checksum, sweep_records, sweep_orphans,
}

module _ (graph : Graph) where
  open graph use {Store, find, all, save, delete, find_name, find-save, find-delete, all_lists}

  sweep_records-find :
      (live : List String) (rs : List Record) (s : Store) (k : String)
      → find (sweep_records graph live rs s).0 k
        ≡ (if contains (names rs) k && not (contains live k) then none else find s k)
  unfolding sweep_records
  sweep_records-find live [] s k = refl
  sweep_records-find live (r ∷ rs) s k = elim (Bool-cases (contains live r.name)) [
    | inl t ↦ rw t (ground (arith, string_eq.beq_iff r.name k, sweep_records-find live rs s k))
    | inr f ↦ rw f (
        ground (
          arith,
          string_eq.beq_iff r.name k,
          find-delete s r.name k,
          sweep_records-find live rs (delete s r.name) k,
        ))
  ]

  -- After a sweep a name has the record that it had, if it is the name of a live device, and no
  -- record otherwise.
  pub find-sweep_orphans :
      (live : List String) (s : Store) (k : String)
      → find (sweep_orphans graph live s).0 k ≡ (if contains live k then find s k else none)
  unfolding sweep_orphans
  find-sweep_orphans live s k = sweep_records-find live (all s) s k ∙ ground (arith, all_lists s k)

  sweep_records-removed :
      (live : List String) (rs : List Record) (s : Store) (k : String)
      → contains (sweep_records graph live rs s).1 k
        ≡ (contains (names rs) k && not (contains live k))
  unfolding sweep_records
  sweep_records-removed live [] s k = refl
  sweep_records-removed live (r ∷ rs) s k = elim (Bool-cases (contains live r.name)) [
    | inl t ↦ rw t (ground (arith, string_eq.beq_iff r.name k, sweep_records-removed live rs s k))
    | inr f ↦ rw f (
        ground
          (arith, string_eq.beq_iff r.name k, sweep_records-removed live rs (delete s r.name) k))
  ]

  -- The sweep reports exactly the names that it deleted: those that had a record and are not the
  -- name of a live device.
  pub removed-sweep_orphans :
      (live : List String) (s : Store) (k : String)
      → contains (sweep_orphans graph live s).1 k
        ≡ (is_found (find s k) && not (is_found (find (sweep_orphans graph live s).0 k)))
  unfolding sweep_orphans
  removed-sweep_orphans live s k = ground (
    arith,
    sweep_records-removed live (all s) s k,
    sweep_records-find live (all s) s k,
    all_lists s k,
  )

  record_after-name :
      (now : Stamps) (o : Outcome) (s : Store)
      → (record_after now o (find s o.device)).name ≡ o.device
  unfolding updated write_fields fresh
  record_after-name now o s = elim (Option-cases (find s o.device)) [
    | inl e ↦ rw e
    | inr (r, e) ↦ rw e (find_name s o.device r e)
  ]

  pub find-record_outcome :
      (now : Stamps) (o : Outcome) (s : Store) (k : String)
      → find (record_outcome graph now o s) k
        ≡ (if o.device == k then some (record_after now o (find s o.device)) else find s k)
  unfolding record_outcome
  find-record_outcome now o s k = rw find-save (rw (record_after-name now o s))

-- A field of a name's record, or what it is where there is no record.
abbrev pub field_of {ℓ} : {A : Type ℓ} → A → (Record → A) → Option Record → A
field_of a f none = a
field_of a f (some r) = f r

module _ (graph : Graph) (now : Stamps) (o : Outcome) (s : graph.Store) (k : String) where
  abbrev before : Option Record
  before = graph.find s k

  abbrev after : Option Record
  after = graph.find (record_outcome graph now o s) k

  after_lem : after ≡ (if o.device == k then some (record_after now o before) else before)
  after_lem = elim (Bool-cases (o.device == k)) [
    | inl t ↦
        let e : o.device ≡ k = (string_eq.beq_iff o.device k).0 t in
        find-record_outcome graph now o s k ∙ rw (t, e)
    | inr f ↦ find-record_outcome graph now o s k ∙ rw f
  ]

  -- Recording an outcome writes to the record of its device alone, creates it if it is missing,
  -- and leaves the operator's `suspend` and `suspend_reason` of every record as they were.
  pub record_outcome-suspend :
      (field_of false (λ r. r.suspend) after ≡ field_of false (λ r. r.suspend) before)
      × (field_of none (λ r. r.suspend_reason) after ≡ field_of none (λ r. r.suspend_reason) before)
      × (is_found after ≡ (is_found before || o.device == k))
  unfolding updated write_fields fresh
  record_outcome-suspend = ground (arith, after_lem)

  -- The time of the last comparison moves for the outcome's device whatever the outcome, the time
  -- of the last confirmation only if the device was confirmed, and that of the last attempt only
  -- if a push was sent; no other device's times move.
  pub record_outcome-times :
      (field_of none (λ r. r.last_checked_at) after ≡ (
        if o.device == k then some now.checked else field_of none (λ r. r.last_checked_at) before))
      × (field_of none (λ r. r.last_confirmed_at) after ≡ (
          if o.device == k && o.confirmed
          then some now.confirmed
          else field_of none (λ r. r.last_confirmed_at) before))
      × (field_of none (λ r. r.last_attempt_at) after ≡ (
          if o.device == k && o.pushed
          then some now.attempted
          else field_of none (λ r. r.last_attempt_at) before))
  unfolding updated write_fields fresh
  record_outcome-times = ground (arith, after_lem)

  abbrev or_else : Option String → Option String → Option String
  or_else none old = old
  or_else (some c) old = if c == "" then none else some c

  -- The recorded status is the outcome's; an outcome without an error clears the error of its
  -- device, and one with an error records it; the checksum that a later cycle reads back is the
  -- outcome's, if it has one, and the earlier one otherwise.
  pub record_outcome-verdict :
      (field_of never_deployed (λ r. r.status) after
        ≡ (if o.device == k then o.status else field_of never_deployed (λ r. r.status) before))
      × (is_set (field_of none (λ r. r.last_error) after) ≡ (
          if o.device == k
          then is_set o.error
          else is_set (field_of none (λ r. r.last_error) before)))
      × (last_checksum graph k (record_outcome graph now o s) ≡ (
          if o.device == k
          then or_else o.checksum (last_checksum graph k s)
          else last_checksum graph k s))
  unfolding updated write_fields fresh last_checksum
  record_outcome-verdict = ground (arith, after_lem)
