-- ===== src/Firewall/Ends.antt =====
-- Where a part of a pass of lab/k8s/access/fw-controller/controller.py may end: what holds of its
-- result and of the calls when it returns, and of the calls when it raises.
use infrahub_network_field_d.Base.{◌≡◌, refl, ◌∷◌}
use infrahub_network_field_d.Base.Text.{Text}
use infrahub_network_field_d.Firewall.Schema.{
  Call, History, Outcome, returned, http_error, raised, Run, continue, ask,
}
use infrahub_network_field_d.Firewall.Pass.{tolerate}

pub data Ends {A : Type 0} (Q : A → History → Type 0) (E : History → Type 0)
    : History × Outcome A → Type 0 where
  returns : {a : A} {h : History} → Q a h → Ends Q E (h, returned a)
  errs : {t : Text} {h : History} → E h → Ends Q E (h, http_error t)
  raises : {t : Text} {h : History} → E h → Ends Q E (h, raised t)

pub continue-Ends :
    {A B : Type 0} {Q : A → History → Type 0} {R : B → History → Type 0} {E : History → Type 0}
    {o : History × Outcome A} {f : A → Run B}
    → Ends Q E o
    → ((a : A) (h : History) → Q a h → Ends R E (f a h))
    → Ends R E (continue o f)
continue-Ends (returns {a} {h} q) k = k a h q
continue-Ends (errs q) k = errs q
continue-Ends (raises q) k = raises q

pub ask-Ends :
    {A : Type 0} {Q : A → History → Type 0} {E : History → Type 0} (c : Call)
    (answer : History → Outcome A) (h : History)
    → E (c ∷ h)
    → ((a : A) → answer (c ∷ h) ≡ returned a → Q a (c ∷ h))
    → Ends Q E (ask c answer h)
ask-Ends {A} {Q} {E} c answer h fails answers = go (answer (c ∷ h)) refl
  where
    go : (o : Outcome A) → answer (c ∷ h) ≡ o → Ends Q E (c ∷ h, o)
    go (returned a) q = returns (answers a q)
    go (http_error t) q = errs fails
    go (raised t) q = raises fails

-- What holds wherever it ends.
pub Ends-all :
    {A : Type 0} {Q : A → History → Type 0} {E : History → Type 0} {o : History × Outcome A}
    → Ends Q E o
    → ((a : A) (h : History) → Q a h → E h)
    → E o.0
Ends-all (returns {a} {h} q) k = k a h q
Ends-all (errs q) k = q
Ends-all (raises q) k = q

-- A call whose HTTP error is let pass.
pub tolerate-Ends :
    {K E : History → Type 0} {o : History × Outcome (Unit {0})}
    → Ends (λ a. K) K o
    → ((h : History) → K h → E h)
    → Ends (λ a. K) E (tolerate o)
tolerate-Ends (returns q) k = returns q
tolerate-Ends (errs q) k = returns q
tolerate-Ends (raises {t} {h} q) k = raises (k h q)

pub weaken-Ends :
    {A : Type 0} {Q R : A → History → Type 0} {E : History → Type 0} {o : History × Outcome A}
    → Ends Q E o
    → ((a : A) (h : History) → Q a h → R a h)
    → Ends R E o
weaken-Ends (returns {a} {h} q) k = returns (k a h q)
weaken-Ends (errs q) k = errs q
weaken-Ends (raises q) k = raises q

-- What holds of a run that returned.
pub Ends-returned :
    {A : Type 0} {Q : A → History → Type 0} {E : History → Type 0} {a : A} {h : History}
    → Ends Q E (h, returned a)
    → Q a h
Ends-returned (returns q) = q
