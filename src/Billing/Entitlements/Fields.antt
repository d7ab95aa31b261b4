-- ===== src/Billing/Entitlements/Fields.antt =====
-- The parameters and the facts of a trigger, and the field changes that several triggers share
-- (billing/entitlements.py: `_need`, `_reset_lifecycle`, `_clear_comp`, `_enter_dunning`).
use osds.Prelude.{
  ℕ, ◌+◌, String, Bool, false, Option, none, some, List, [], ◌∷◌, ◌==◌, if◌then◌else◌, is_empty,
  Result, require,
}
use osds.Prelude.Time.{ℤ}
use osds.Billing.Model.{Status, BillingMode, Entitlement, Tier, PaymentRef}
use osds.Billing.Machine.{Error, missing_parameters, dunning_window}

-- The keyword arguments of `apply_trigger`; `none`, "" and [] stand for what is not given.
pub record Params : Type 0 where
  pub tier : Option Tier
  pub trial_ends_at : Option ℕ
  pub period_end : Option ℕ
  pub billing_mode : Option BillingMode
  pub term_days : Option ℕ
  pub payment_ref : PaymentRef
  pub failure_code : String
  pub attempt : Option ℕ
  pub canceled_by : String
  pub reason : Option String
  pub operator : Option ℕ
  pub expires_at : Option ℕ
  pub to_status : Option String

abbrev pub no_params : Params
no_params = record {
  tier = none;
  trial_ends_at = none;
  period_end = none;
  billing_mode = none;
  term_days = none;
  payment_ref = [];
  failure_code = "";
  attempt = none;
  canceled_by = "";
  reason = none;
  operator = none;
  expires_at = none;
  to_status = none;
}

-- The `facts` dict: a key that is not set is `none`.
pub record Facts : Type 0 where
  pub from_tier : String
  pub days_in_dunning : Option ℤ
  pub days_in_grace : Option ℤ
  pub attempt : Option ℕ
  pub dunning_ends_at : Option ℕ
  pub failure_code : Option String
  pub grace_ends_at : Option ℕ
  pub canceled_by : Option String
  pub reason : Option String
  pub at_period_end : Option Bool
  pub to_status : Option Status
  pub to_tier : Option String

abbrev pub base_facts : Entitlement → Facts
base_facts ent = record {
  from_tier = ent.tier.key;
  days_in_dunning = none;
  days_in_grace = none;
  attempt = none;
  dunning_ends_at = none;
  failure_code = none;
  grace_ends_at = none;
  canceled_by = none;
  reason = none;
  at_period_end = none;
  to_status = none;
  to_tier = none;
}

-- `_need`
abbrev pub missing : List (Bool × String) → List String
missing [] = []
missing ((given, name) ∷ l) = if given then missing l else name ∷ missing l

abbrev pub need_all : List (Bool × String) → Result Error (Unit {0})
need_all l = require (is_empty (missing l)) (missing_parameters (missing l))

unfoldable pub reset_lifecycle : Entitlement → Entitlement
reset_lifecycle ent = record ent {
  dunning_started_at = none;
  dunning_ends_at = none;
  grace_ends_at = none;
  failed_attempts = 0;
  last_failure_code = "";
  cancel_at_period_end = false;
  canceled_at = none;
  canceled_by = "";
  renewal_notified_at = none;
}

unfoldable pub clear_comp : Entitlement → Entitlement
clear_comp ent = record ent { comp_granted_by = none; comp_reason = ""; comp_expires_at = none }

-- `int(attempt) if attempt else ent.failed_attempts + 1`
abbrev pub next_attempts : Entitlement → Option ℕ → ℕ
next_attempts ent none = ent.failed_attempts + 1
next_attempts ent (some n) = if n == 0 then ent.failed_attempts + 1 else n

unfoldable pub enter_dunning : Entitlement → ℕ → String → Option ℕ → Entitlement
enter_dunning ent now code attempt = record ent {
  dunning_started_at = some now;
  dunning_ends_at = some (now + dunning_window);
  failed_attempts = next_attempts ent attempt;
  last_failure_code = code;
}

abbrev pub Mutated : Type 0
Mutated = Result Error (Entitlement × Facts)
