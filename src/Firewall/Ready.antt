-- ===== src/Firewall/Ready.antt =====
-- The status that lab/k8s/access/fw-controller/controller.py reports.
use infrahub_network_field_d.Base.{
  true, some, List, [], ◌∷◌, ◌++◌, ◌≡◌, refl, beq_refl, take, list_eq, nat_eq, option_eq,
}
use infrahub_network_field_d.Base.Text.{Text, codes}
use infrahub_network_field_d.Firewall.Schema.{Status, Item, Pair, Written, History, returned, Env}
use infrahub_network_field_d.Firewall.Driver.{ref_of}
use infrahub_network_field_d.Firewall.Pass.{
  Report, set_ready, is_current, status_of, report_of, nonempty, truth,
}

-- The status of an object on which a status was written, as the cluster keeps it.
abbrev pub stored : Written → Status
stored w = record {
  conditions =
      record {
        kind = some (codes "Ready");
        status = some w.status;
        reason = some w.reason;
        message = some w.message;
      }
      ∷ [];
  policy_ref = w.policy_ref;
  observed_generation = some w.observed_generation;
}

nonempty-ref :
    (src : Text) (rest : Text)
    → nonempty (some (src ++ (codes "->" ++ rest))) ≡ some (src ++ (codes "->" ++ rest))
nonempty-ref [] rest = refl
nonempty-ref (c ∷ src) rest = refl

stored-is_current :
    (now : Text) (r : Report)
    → nonempty r.policy_ref ≡ r.policy_ref
    → is_current (record r { current = some (stored (status_of now r)) }) ≡ true
unfolding is_current status_of
stored-is_current now r q = rw q (
    rw
      (
        beq_refl (truth r.good),
        beq_refl r.reason,
        beq_refl (take 1024 r.message),
        beq_refl r.policy_ref,
        beq_refl r.generation,
      )
      refl)

-- What a pass reported of an object is not written again by a pass that finds the same: a report of
-- it makes no call.
pub set_ready-report_of :
    (e : Env) (h : History) (now : Text) (item : Item) (p : Pair) (failures : List Text)
    → set_ready e
        (record (report_of item (ref_of p) failures) {
          current = some (stored (status_of now (report_of item (ref_of p) failures)));
        })
        h
      ≡ (h, returned tt)
unfolding set_ready report_of
set_ready-report_of e h now item p failures =
    rw
      (stored-is_current now (report_of item (ref_of p) failures)
        (nonempty-ref p.source (p.destination ++ (codes "/" ++ p.tag))))
      refl
