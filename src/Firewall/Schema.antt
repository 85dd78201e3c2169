-- ===== src/Firewall/Schema.antt =====
-- What lab/k8s/access/fw-controller/controller.py reads and sends: FirewallAccess objects, the
-- commands of the firewall's CLI, and the calls of a pass. The cluster's API and the firewall are
-- parameters, which answer a call by what was called so far. A command is kept apart from its line.
use infrahub_network_field_d.Base.{ℕ, Bool, Option, List, ◌∷◌}
use infrahub_network_field_d.Base.Text.{Text}

pub record Condition : Type 0 where
  pub kind : Option Text
  pub status : Option Text
  pub reason : Option Text
  pub message : Option Text

-- A missing or empty list of conditions is [].
pub record Status : Type 0 where
  pub conditions : List Condition
  pub policy_ref : Option Text
  pub observed_generation : Option ℕ

pub record Spec : Type 0 where
  pub source_zone : Option Text
  pub destination_zone : Option Text
  pub source_address : Option Text
  pub destination : Option Text
  pub requester : Option Text
  pub ports : Option (List ℕ)

-- `deletion_timestamp` is whether the object has one.
pub record Item : Type 0 where
  pub name : Text
  pub generation : Option ℕ
  pub deletion_timestamp : Bool
  pub finalizers : Option (List Text)
  pub spec : Option Spec
  pub status : Option Status

-- The `from-zone … to-zone … policy …` that a policy's statements begin with.
pub record Pair : Type 0 where
  pub source : Text
  pub destination : Text
  pub tag : Text

pub data Command : Type 0 where
  screen_length screen_width show_policies configure_private show_compare rollback : Command
  exit commit_and_quit top : Command
  show_applications : (tag : Text) → Command
  set_address : (tag address bits : Text) → Command
  set_protocol : (app : Text) → Command
  set_port : (app : Text) (port : ℕ) → Command
  match_source : Pair → (address : Text) → Command
  match_destination : Pair → Command
  match_application : Pair → (app : Text) → Command
  permit log_init log_close : Pair → Command
  edit_pair : (source destination : Text) → Command
  annotate : (tag note : Text) → Command
  delete_policy : Pair → Command
  delete_address : (tag : Text) → Command
  delete_application : (app : Text) → Command

-- The status that set_ready writes.
pub record Written : Type 0 where
  pub status : Text
  pub reason : Text
  pub message : Text
  pub last_transition_time : Text
  pub observed_generation : ℕ
  pub port_summary : Text
  pub policy_ref : Option Text

-- The prompt at which a command's output ends.
pub data Prompt : Type 0 where
  operational config either : Prompt

pub data Call : Type 0 where
  list_access open_session read_banner close_session sleep : Call
  send : Prompt → Command → Call
  patch_finalizers : (name : Text) (finalizers : List Text) → Call
  patch_status : (name : Text) → Written → Call

-- The calls made so far, the last one first.
abbrev pub History : Type 0
History = List Call

-- A call returns or raises; an HTTP error is told from the other exceptions.
pub data Outcome (A : Type 0) : Type 0 where
  returned : A → Outcome A
  http_error : Text → Outcome A
  raised : Text → Outcome A

pub record Env : Type 0 where
  pub listed : History → Outcome (List Item)
  pub opened : History → Outcome (Unit {0})
  pub replied : History → Outcome Text
  pub patched : History → Outcome (Unit {0})
  pub now : History → Text

-- Part of a pass: from the calls so far, the calls after it and its outcome.
abbrev pub Run : Type 0 → Type 0
Run A = History → History × Outcome A

abbrev pub continue : {A B : Type 0} → History × Outcome A → (A → Run B) → History × Outcome B
continue (h, returned a) f = f a h
continue (h, http_error t) f = (h, http_error t)
continue (h, raised t) f = (h, raised t)

infixl 5 ◌>>=◌ ◌>>◌
abbrev pub ◌>>=◌ : {A B : Type 0} → Run A → (A → Run B) → Run B
◌>>=◌ m f h = continue (m h) f

abbrev pub ◌>>◌ : {A B : Type 0} → Run A → Run B → Run B
◌>>◌ m k h = continue (m h) (λ _. k)

abbrev pub pure : {A : Type 0} → A → Run A
pure a h = (h, returned a)

abbrev pub fail : {A : Type 0} → Text → Run A
fail t h = (h, raised t)

-- Make a call: the answer is to the calls with this one.
abbrev pub ask : {A : Type 0} → Call → (History → Outcome A) → Run A
ask c answer h = (c ∷ h, answer (c ∷ h))
