-- ===== src/Firewall/Zones.antt =====
-- The reference that lab/k8s/access/fw-controller/controller.py records of a policy, read back.
use infrahub_network_field_d.Base.{
  ℕ, Bool, true, false, not, ◌&&◌, Option, none, some, [], ◌∷◌, ◌++◌, ◌≡◌, refl, ap, all_of, arith,
  is_empty, nat_beq, if◌then◌else◌,
}
use infrahub_network_field_d.Base.Text.{Text, codes, is_space}
use infrahub_network_field_d.Firewall.Replies.{after, before_slash, zones_in}
use infrahub_network_field_d.Firewall.Commands.{obj_name}
use infrahub_network_field_d.Firewall.Driver.{recorded_pair, ref_of, zones_of}

-- No character is space, and none is the given one.
abbrev pub solid_without : ℕ → Text → Bool
solid_without k = all_of (λ c. not (is_space c) && not (nat_beq c k))

abbrev pub is_solid : Text → Bool
is_solid = all_of (λ c. not (is_space c))

before_slash-none : (t : Text) → solid_without b'/' t ≡ true → before_slash t ≡ none
unfolding before_slash
before_slash-none [] h = refl
before_slash-none (c ∷ []) h = ground arith
before_slash-none (c ∷ d ∷ ds) h =
    let ih = before_slash-none (d ∷ ds) (ground arith) in
    let s : is_space c ≡ false = ground arith in
    let n : nat_beq d b'/' ≡ false = ground arith in rw (s, before_slash) (rw ih (rw n refl))

slash-none : (tag : Text) → solid_without b'/' tag ≡ true → before_slash (b'/' ∷ tag) ≡ none
unfolding before_slash
slash-none [] t = refl
slash-none (d ∷ ds) t =
    let ih = before_slash-none (d ∷ ds) t in
    let n : nat_beq d b'/' ≡ false = ground arith in rw (ih, before_slash) (rw n refl)

before_slash-append :
    (dst tag : Text)
    → is_empty dst ≡ false
    → is_solid dst ≡ true
    → solid_without b'/' tag ≡ true
    → before_slash (dst ++ b'/' ∷ tag) ≡ some dst
unfolding before_slash
before_slash-append [] tag n s t = cc
before_slash-append (c ∷ []) tag n s t =
    let k : is_space c ≡ false = ground arith in rw (k, before_slash) (rw (slash-none tag t) refl)
before_slash-append (c ∷ d ∷ ds) tag n s t =
    let ih = before_slash-append (d ∷ ds) tag refl (ground arith) t in
    let k : is_space c ≡ false = ground arith in rw (k, before_slash) (rw ih refl)

parts_of : (a b r : Bool) → ((not a && not b) && r) ≡ true → (a ≡ false) × (b ≡ false) × (r ≡ true)
parts_of a b r h = ground arith

apart : (k c : ℕ) → nat_beq c k ≡ false → nat_beq k c ≡ false
apart k c h = ground arith

either-none : (b : Bool) (ds : Text) → ◌≡◌ {A = Option Text} (if b then none else none) none
either-none true ds = refl
either-none false ds = refl

after-none : (t : Text) → solid_without b'>' t ≡ true → after (codes "->") t ≡ none
unfolding after
after-none [] h = refl
after-none (c ∷ []) h = either-none (nat_beq b'-' c) []
after-none (c ∷ d ∷ ds) h =
    let rest = (parts_of (is_space c) (nat_beq c b'>') (solid_without b'>' (d ∷ ds)) h).2 in
    let n = (parts_of (is_space d) (nat_beq d b'>') (solid_without b'>' ds) rest).1 in
    rw (apart b'>' d n) (either-none (nat_beq b'-' c) ds)

-- A character with which no match begins.
zones_in-step :
    (c : ℕ) (cs : Text)
    → is_space c ≡ false
    → zones_in cs ≡ none
    → after (codes "->") cs ≡ none
    → zones_in (c ∷ cs) ≡ none
unfolding zones_in
zones_in-step c cs s z a = rw (s, zones_in) (rw z (rw a refl))

zones_in-none : (t : Text) → solid_without b'>' t ≡ true → zones_in t ≡ none
unfolding zones_in
zones_in-none [] h = refl
zones_in-none (c ∷ cs) h =
    let (s, n, r) = parts_of (is_space c) (nat_beq c b'>') (solid_without b'>' cs) h in
    zones_in-step c cs s (zones_in-none cs r) (after-none cs r)

arrow-none : (rest : Text) → solid_without b'>' rest ≡ true → zones_in (b'-' ∷ b'>' ∷ rest) ≡ none
unfolding after
arrow-none rest r =
    zones_in-step b'-' (b'>' ∷ rest) refl
      (zones_in-step b'>' rest refl (zones_in-none rest r) (after-none rest r)) refl

zones_in-ref :
    (src rest dst : Text)
    → is_empty src ≡ false
    → is_solid src ≡ true
    → solid_without b'>' rest ≡ true
    → before_slash rest ≡ some dst
    → zones_in (src ++ (codes "->" ++ rest)) ≡ some (src, dst)
unfolding zones_in after
zones_in-ref [] rest dst n s r b = cc
zones_in-ref (c ∷ []) rest dst n s r b =
    let k : is_space c ≡ false = ground arith in
    rw (k, zones_in) (rw (arrow-none rest r, zones_in) (rw (b, before_slash) refl))
zones_in-ref (c ∷ d ∷ ds) rest dst n s r b =
    let k : is_space c ≡ false = ground arith in
    rw (k, zones_in) (rw (zones_in-ref (d ∷ ds) rest dst refl (ground arith) r b) refl)

weaken-solid : (k : ℕ) (t : Text) → solid_without k t ≡ true → is_solid t ≡ true
weaken-solid k [] h = refl
weaken-solid k (c ∷ cs) h = ground (arith, weaken-solid k cs)

solid-append :
    (dst tag : Text)
    → solid_without b'>' dst ≡ true
    → solid_without b'>' tag ≡ true
    → solid_without b'>' (dst ++ b'/' ∷ tag) ≡ true
solid-append [] tag h k = ground arith
solid-append (c ∷ cs) tag h k = ground (arith, solid-append cs tag)

-- The reference that is recorded of a policy leads back to the policy: to its zones and, with the
-- object's name, to its tag. The zones are not empty and have no white space, the second zone and the
-- name have no `>`, and the name has no white space and no slash.
pub recorded_pair-ref_of :
    (src dst name : Text)
    → is_empty src ≡ false
    → is_solid src ≡ true
    → is_empty dst ≡ false
    → solid_without b'>' dst ≡ true
    → solid_without b'>' name ≡ true
    → solid_without b'/' name ≡ true
    → recorded_pair name
        (some (ref_of (record { source = src; destination = dst; tag = obj_name name })))
      ≡ record { source = src; destination = dst; tag = obj_name name }
unfolding recorded_pair
recorded_pair-ref_of src dst name n s m d k l =
    ap
      (λ o.
        let zones = zones_of o in
        record { source = zones.0; destination = zones.1; tag = obj_name name })
      (zones_in-ref src (dst ++ b'/' ∷ obj_name name) dst n s
        (solid-append dst (obj_name name) d (ground (arith, k)))
        (before_slash-append dst (obj_name name) m (weaken-solid b'>' dst d) (ground (arith, l))))
