-- ===== src/Normalise/Junos/Reports.antt =====
-- What the Junos normaliser can never hide: a line that every state of the loop keeps is in the
-- result.
use infrahub_network_field_d.Base.{
  ℕ, zero, suc, ◌<◌, ◌≤◌, length-append, contains_here, contains_there, Bool, true, false, ◌&&◌,
  Option, none, some, List, [], ◌∷◌, ◌++◌, ◌≡◌, ◌≢◌, inl, inr, refl, ap, arith, if◌then◌else◌, ◌==◌,
  nat_eq, list_eq, Bool-cases, contains, get_elem?, length, keep_if,
}
use infrahub_network_field_d.Base.Text.{Text, splitlines, rstrip, equals}
use infrahub_network_field_d.Normalise.Junos.{
  Crypt, Sign, Secret, Hunk, clear_at, flush_pair, flush, keep_line, note_secret, junos_banner,
  junos_split, junos_suppressed, junos_cleartext, junos_statement, junos_line, junos_lines, present,
  no_hunk, normalise_junos, redact_cleartext, secret_hash, same_secret, is_minus, is_plus,
}

-- No secret of the list stands at position `i`.
abbrev Avoids : ℕ → List Secret → Type 0
Avoids i [] = Unit
Avoids i (s ∷ ss) = (s.position ≢ i) × Avoids i ss

-- The line `l` is kept at position `i`, where no secret stands.
abbrev Holds : ℕ → Text → Hunk → Type 0
Holds i l h = (get_elem? h.kept i ≡ some (some l)) × Avoids i h.secrets

get_elem?-clear_at :
    (j i : ℕ) (ls : List (Option Text)) (l : Text)
    → j ≢ i
    → get_elem? ls i ≡ some (some l)
    → get_elem? (clear_at j ls) i ≡ some (some l)
get_elem?-clear_at j i [] l n e = cc
get_elem?-clear_at zero zero (x ∷ ls) l n e = absurd (n refl)
get_elem?-clear_at zero (suc i) (x ∷ ls) l n e = e
get_elem?-clear_at (suc j) zero (x ∷ ls) l n e = e
get_elem?-clear_at (suc j) (suc i) (x ∷ ls) l n e =
    get_elem?-clear_at j i ls l (λ q. n (ap suc q)) e

get_elem?-append :
    (i : ℕ) (ls ms : List (Option Text)) (l : Text)
    → get_elem? ls i ≡ some (some l)
    → get_elem? (ls ++ ms) i ≡ some (some l)
get_elem?-append i [] ms l e = cc
get_elem?-append zero (x ∷ ls) ms l e = e
get_elem?-append (suc i) (x ∷ ls) ms l e = get_elem?-append i ls ms l e

get_elem?-last :
    (ls : List (Option Text)) (l : Text) → get_elem? (ls ++ some l ∷ []) (length ls) ≡ some (some l)
get_elem?-last [] l = refl
get_elem?-last (x ∷ ls) l = get_elem?-last ls l

get_elem?-lt :
    (i : ℕ) (ls : List (Option Text)) (l : Text) → get_elem? ls i ≡ some (some l) → i < length ls
get_elem?-lt i [] l e = cc
get_elem?-lt zero (x ∷ ls) l e = omega arith
get_elem?-lt (suc i) (x ∷ ls) l e = omega (arith, get_elem?-lt i ls l e)

Avoids-keep_if :
    (p : Secret → Bool) (i : ℕ) (ss : List Secret) → Avoids i ss → Avoids i (keep_if p ss)
Avoids-keep_if p i [] a = tt
Avoids-keep_if p i (s ∷ ss) a = elim (Bool-cases (p s)) [
  | inl t ↦ rw t (a.0, Avoids-keep_if p i ss a.1)
  | inr f ↦ rw f (Avoids-keep_if p i ss a.1)
]

Avoids-append :
    (i : ℕ) (ss : List Secret) (s : Secret) → Avoids i ss → s.position ≢ i → Avoids i (ss ++ s ∷ [])
Avoids-append i [] s a n = (n, tt)
Avoids-append i (x ∷ ss) s a n = (a.0, Avoids-append i ss s a.1 n)

module _ (crypt : Crypt) (known : List Text) (i : ℕ) (l : Text) where
  flush_pair-keeps :
      (rs as' : List Secret) (kept : List (Option Text))
      → Avoids i rs
      → Avoids i as'
      → get_elem? kept i ≡ some (some l)
      → get_elem? (flush_pair crypt known rs as' kept) i ≡ some (some l)
  unfolding flush_pair
  flush_pair-keeps (r ∷ []) (a ∷ []) kept p q e =
      if_cases (equals r.leaf a.leaf && same_secret crypt r.hash a.hash known)
        (get_elem?-clear_at a.position i (clear_at r.position kept) l q.0
          (get_elem?-clear_at r.position i kept l p.0 e))
        e
    where
      if_cases :
          (b : Bool)
          → get_elem? (clear_at a.position (clear_at r.position kept)) i ≡ some (some l)
          → get_elem? kept i ≡ some (some l)
          → get_elem? (if b then clear_at a.position (clear_at r.position kept) else kept) i
            ≡ some (some l)
      if_cases true x y = x
      if_cases false x y = y
  flush_pair-keeps rs as' kept p q e = e

  flush-Holds : (h : Hunk) → Holds i l h → Holds i l (flush crypt known h)
  unfolding flush
  flush-Holds h (e, a) = (
    flush_pair-keeps (keep_if (λ s. is_minus s.sign) h.secrets)
        (keep_if (λ s. is_plus s.sign) h.secrets) h.kept
        (Avoids-keep_if (λ s. is_minus s.sign) i h.secrets a)
        (Avoids-keep_if (λ s. is_plus s.sign) i h.secrets a) e,
    tt,
  )

  keep_line-Holds : (m : Text) (h : Hunk) → Holds i l h → Holds i l (keep_line m h)
  keep_line-Holds m h (e, a) = (get_elem?-append i h.kept (some m ∷ []) l e, a)

  note_secret-Holds :
      (o : Option Text) (sign : Sign) (h : Hunk) → Holds i l h → Holds i l (note_secret o sign h)
  note_secret-Holds none sign h k = k
  note_secret-Holds (some g) sign h (e, a) =
      (e, Avoids-append i h.secrets _ a (λ q. absurd (omega (arith, get_elem?-lt i h.kept l e))))

  statement-Holds :
      (line : Text) (sign : Sign) (text : Text) (h : Hunk)
      → Holds i l h
      → Holds i l (junos_statement line sign text h)
  unfolding junos_statement
  statement-Holds line sign text h k = elim (Bool-cases (junos_cleartext text)) [
    | inl t ↦ rw t (keep_line-Holds (redact_cleartext (rstrip line)) h k)
    | inr f ↦ rw f (elim (Bool-cases (junos_suppressed h.banner line sign text)) [
      | inl t ↦ rw t k
      | inr g ↦ rw g (
          keep_line-Holds (rstrip line) (note_secret (secret_hash text) sign h)
            (note_secret-Holds (secret_hash text) sign h k))
    ])
  ]

  line-Holds : (line : Text) (h : Hunk) → Holds i l h → Holds i l (junos_line crypt known h line)
  unfolding junos_line
  line-Holds line h k = elim (Bool-cases (junos_banner line)) [
    | inl t ↦ rw t (flush-Holds h k)
    | inr f ↦ rw f (statement-Holds line (junos_split line).0 (junos_split line).1 h k)
  ]

  lines-Holds :
      (lines : List Text) (h : Hunk) → Holds i l h → Holds i l (junos_lines crypt known h lines)
  unfolding junos_lines
  lines-Holds [] h k = k
  lines-Holds (line ∷ lines) h k =
      lines-Holds lines (junos_line crypt known h line) (line-Holds line h k)

-- Every secret stands at a position below `n`.
abbrev Below : ℕ → List Secret → Type 0
Below n [] = Unit
Below n (s ∷ ss) = (s.position < n) × Below n ss

abbrev IsBounded : Hunk → Type 0
IsBounded h = Below (length h.kept) h.secrets

Below-le : (m n : ℕ) (ss : List Secret) → m ≤ n → Below m ss → Below n ss
Below-le m n [] l b = tt
Below-le m n (s ∷ ss) l b = (omega arith, Below-le m n ss l b.1)

Below-append :
    (n : ℕ) (ss : List Secret) (s : Secret) → Below n ss → s.position < n → Below n (ss ++ s ∷ [])
Below-append n [] s b l = (l, tt)
Below-append n (x ∷ ss) s b l = (b.0, Below-append n ss s b.1 l)

Below-Avoids : (n : ℕ) (ss : List Secret) → Below n ss → Avoids n ss
Below-Avoids n [] b = tt
Below-Avoids n (s ∷ ss) b = (omega arith, Below-Avoids n ss b.1)

keep_line-IsBounded :
    (l : Text) (o : Option Text) (sign : Sign) (h : Hunk)
    → IsBounded h
    → IsBounded (keep_line l (note_secret o sign h))
keep_line-IsBounded l none sign h b =
    Below-le (length h.kept) _ h.secrets (omega (arith, length-append h.kept (some l ∷ []))) b
keep_line-IsBounded l (some g) sign h b =
    Below-append _ h.secrets _
      (Below-le (length h.kept) _ h.secrets (omega (arith, length-append h.kept (some l ∷ []))) b)
      (omega (arith, length-append h.kept (some l ∷ [])))

statement-IsBounded :
    (line : Text) (sign : Sign) (text : Text) (h : Hunk)
    → IsBounded h
    → IsBounded (junos_statement line sign text h)
unfolding junos_statement
statement-IsBounded line sign text h b = elim (Bool-cases (junos_cleartext text)) [
  | inl t ↦ rw t (keep_line-IsBounded (redact_cleartext (rstrip line)) none sign h b)
  | inr f ↦ rw f (elim (Bool-cases (junos_suppressed h.banner line sign text)) [
    | inl t ↦ rw t b
    | inr g ↦ rw g (keep_line-IsBounded (rstrip line) (secret_hash text) sign h b)
  ])
]

line-IsBounded :
    (crypt : Crypt) (known : List Text) (line : Text) (h : Hunk)
    → IsBounded h
    → IsBounded (junos_line crypt known h line)
unfolding junos_line flush
line-IsBounded crypt known line h b = elim (Bool-cases (junos_banner line)) [
  | inl t ↦ rw t tt
  | inr f ↦ rw f (statement-IsBounded line (junos_split line).0 (junos_split line).1 h b)
]

-- A line that no state of the loop can pass over, with the line that it reports.
pub data Reported (line : Text) : Text → Type 0 where
  -- A cleartext secret, redacted, whatever its sign and whatever rule would match it.
  cleartext :
      junos_banner line ≡ false
      → junos_cleartext (junos_split line).1 ≡ true
      → Reported line (redact_cleartext (rstrip line))
  -- A statement that no rule names under any banner, and that is no hashed secret.
  unrecognised :
      junos_banner line ≡ false
      → junos_cleartext (junos_split line).1 ≡ false
      → ((banner : Text)
          → junos_suppressed banner line (junos_split line).0 (junos_split line).1 ≡ false)
      → secret_hash (junos_split line).1 ≡ none
      → Reported line (rstrip line)

line-reports :
    (crypt : Crypt) (known : List Text) (line out : Text) (h : Hunk)
    → Reported line out
    → IsBounded h
    → Holds (length h.kept) out (junos_line crypt known h line)
unfolding junos_line junos_statement
line-reports crypt known line out h (cleartext nb c) b =
    rw (nb, c) (get_elem?-last h.kept _, Below-Avoids (length h.kept) h.secrets b)
line-reports crypt known line out h (unrecognised nb nc s n) b =
    rw (nb, nc, s h.banner, n) (get_elem?-last h.kept _, Below-Avoids (length h.kept) h.secrets b)

contains-present :
    (i : ℕ) (ls : List (Option Text)) (l : Text)
    → get_elem? ls i ≡ some (some l)
    → contains (present ls) l ≡ true
contains-present i [] l e = cc
contains-present zero (none ∷ ls) l e = cc
contains-present zero (some m ∷ ls) l e = contains_here m l (present ls) (cc)
contains-present (suc i) (none ∷ ls) l e = contains-present i ls l e
contains-present (suc i) (some m ∷ ls) l e =
    contains_there m l (present ls) (contains-present i ls l e)

lines-report :
    (crypt : Crypt) (known : List Text) (line out : Text) (lines : List Text) (h : Hunk)
    → Reported line out
    → IsBounded h
    → contains lines line ≡ true
    → (i : ℕ) × Holds i out (junos_lines crypt known h lines)
unfolding junos_lines
lines-report crypt known line out [] h r b m = cc
lines-report crypt known line out (x ∷ lines) h r b m = elim (Bool-cases (x == line)) [
  | inl t ↦
      let e : x ≡ line = (list_eq.beq_iff x line).0 t in
      (
        length h.kept,
        lines-Holds crypt known (length h.kept) out lines (junos_line crypt known h x)
            (rw e (line-reports crypt known line out h r b)),
      )
  | inr f ↦
      lines-report crypt known line out lines (junos_line crypt known h x) r
        (line-IsBounded crypt known x h b) (rw f at m)
]

-- The normaliser fails noisy: whatever else the device printed, a line with a cleartext secret is
-- reported, redacted, and so is every line that no rule recognises. No password and no pairing
-- of hashed secrets can hide either.
pub normalise_junos-reports :
    (crypt : Crypt) (raw : Text) (known : List Text) (line out : Text)
    → Reported line out
    → contains (splitlines raw) line ≡ true
    → contains (normalise_junos crypt raw known) out ≡ true
unfolding normalise_junos
normalise_junos-reports crypt raw known line out r m =
    let (i, k) = lines-report crypt known line out (splitlines raw) no_hunk r tt m in
    let last = junos_lines crypt known no_hunk (splitlines raw) in
    contains-present i (flush crypt known last).kept out (flush-Holds crypt known i out last k).0
