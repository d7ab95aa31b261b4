-- ===== src/Billing/Tiers/State.antt =====
-- The rows and errors of the administration of tiers (billing/tiers.py). The regular expressions, Python's text functions, the test for an object and the width of a row's columns are parameters.
use osds.Prelude.{ℕ, String, Bool, Option, List}
use osds.Prelude.Time.{ℤ}
use osds.Audit.CommandLog.{Log}
use osds.Billing.Model.{Tier}

-- what the code calls
pub record Shop : Type 0 where
  pub matches_key : String → Bool
  pub matches_currency : String → Bool
  pub strip : String → String
  pub upper : String → String
  pub is_object : String → Bool
  pub fits : Tier → Bool

-- the columns that an operator sets, as they are submitted. A text that is missing is empty, and perks
-- that are missing are an empty object.
pub record Fields : Type 0 where
  pub name : String
  pub rank : Option ℤ
  pub purchasable : Bool
  pub uses_slot : Bool
  pub price_minor : Option ℤ
  pub currency : String
  pub interval : String
  pub trial_days : Option ℤ
  pub badge_label : String
  pub perks : String

-- what `_validate` finds
pub data Fault : Type 0 where
  bad_key no_name bad_rank slot_backed bad_perks free_for_sale no_price bad_currency : Fault
  bad_interval bad_trial price_without_sale : Fault

-- `TierError` by its cause; `data_error` is the database's, which nothing catches, and `gone` the caller's
-- for a tier that is not there
pub data TierError : Type 0 where
  invalid : List Fault → TierError
  key_or_rank_taken rank_taken key_changed has_entitlements is_shown : TierError
  data_error gone : TierError

pub data ChangeOp : Type 0 where
  add replace remove : ChangeOp

-- `tenant.settings_changed`, with the tier for its value
pub record TierChange : Type 0 where
  pub op : ChangeOp
  pub value : Tier
  pub changed_by : ℕ

-- The tables in reach: of an entitlement and of a listing the key of its tier.
pub record Shelf : Type 0 where
  pub tiers : List Tier
  pub next_pk : ℕ
  pub entitled : List ℕ
  pub shown : List ℕ
  pub changes : List TierChange
  pub log : Log
