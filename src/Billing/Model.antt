-- ===== src/Billing/Model.antt =====
-- The rows that billing reads and writes (billing/models.py), with the part of a listing's row
-- (directory/models.py) that it touches. One tenant is in scope throughout, so no row carries it.
-- Ids, primary and public, are numbers. The `created_at` and `updated_at` columns are left out.
use osds.Prelude.{ℕ, String, Bool, Option, List}

-- `Tier`. `perks` is the text of its JSON document.
pub record Tier : Type 0 where
  pub pk : ℕ
  pub key : String
  pub name : String
  pub rank : ℕ
  pub purchasable : Bool
  pub uses_slot : Bool
  pub price_minor : Option ℕ
  pub currency : String
  pub interval : String
  pub trial_days : Option ℕ
  pub badge_label : String
  pub perks : String

-- `Entitlement.Status`
pub data Status : Type 0 where
  none trialing active past_due grace expired canceled comped : Status

-- `Entitlement.BillingMode`
pub data BillingMode : Type 0 where
  recurring term comp none : BillingMode

-- A JSON object whose values are texts: the provider's reference to a subscription.
abbrev pub PaymentRef : Type 0
PaymentRef = List (String × String)

-- `Entitlement`, joined with its tier (`select_related("tier")`).
pub record Entitlement : Type 0 where
  pub pk : ℕ
  pub public_id : ℕ
  pub listing_id : ℕ
  pub tier : Tier
  pub status : Status
  pub billing_mode : BillingMode
  pub term_days : Option ℕ
  pub started_at : Option ℕ
  pub current_period_end : Option ℕ
  pub trial_ends_at : Option ℕ
  pub dunning_started_at : Option ℕ
  pub grace_ends_at : Option ℕ
  pub cancel_at_period_end : Bool
  pub dunning_ends_at : Option ℕ
  pub failed_attempts : ℕ
  pub last_failure_code : String
  pub canceled_at : Option ℕ
  pub canceled_by : String
  pub renewal_notified_at : Option ℕ
  pub hidden_by_expiry : Bool
  pub comp_granted_by : Option ℕ
  pub comp_reason : String
  pub comp_expires_at : Option ℕ
  pub payment_ref : PaymentRef

-- `Listing.Visibility`
pub data Visibility : Type 0 where
  draft published hidden : Visibility

-- `Listing.Status`
pub data ListingStatus : Type 0 where
  unclaimed claimed suspended : ListingStatus

-- The owner's user row.
pub record Owner : Type 0 where
  pub pk : ℕ
  pub public_id : ℕ
  pub email : String

-- `Listing`, joined with its tier and its owner.
pub record Listing : Type 0 where
  pub pk : ℕ
  pub public_id : ℕ
  pub status : ListingStatus
  pub visibility : Visibility
  pub current_tier : Option Tier
  pub owner : Option Owner

-- Equality of the enumerations, as Python compares their values.
abbrev pub status_code : Status → ℕ
status_code Status.none = 0
status_code trialing = 1
status_code active = 2
status_code past_due = 3
status_code grace = 4
status_code expired = 5
status_code canceled = 6
status_code comped = 7

-- `Trigger` (billing/machine.py)
pub data Trigger : Type 0 where
  start start_trial payment_succeeded payment_failed refund subscription_ended : Trigger
  cancel : Trigger
  term_ended dunning_elapsed grace_elapsed period_elapsed comp_expired trial_overdue : Trigger
  grant revoke override : Trigger

abbrev pub trigger_code : Trigger → ℕ
trigger_code start = 0
trigger_code start_trial = 1
trigger_code payment_succeeded = 2
trigger_code payment_failed = 3
trigger_code refund = 4
trigger_code subscription_ended = 5
trigger_code cancel = 6
trigger_code term_ended = 7
trigger_code dunning_elapsed = 8
trigger_code grace_elapsed = 9
trigger_code period_elapsed = 10
trigger_code comp_expired = 11
trigger_code trial_overdue = 12
trigger_code grant = 13
trigger_code revoke = 14
trigger_code override = 15

-- the `entitlement.*` events that a rule emits
pub data EventName : Type 0 where
  ev_started ev_converted ev_dunning_started ev_recovered ev_downgraded : EventName
  ev_restored ev_expired ev_canceled ev_overridden : EventName

-- `Rule.expired_cause`; `none` is the empty text
pub data Cause : Type 0 where
  none term_ended grace_elapsed canceled period_ended comp_expired revoked refund : Cause

-- `Rule.tier_cause`, and the cause that a `listing.tier_changed` event carries
pub data TierCause : Type 0 where
  none purchase upgrade downgrade expiry grace restore revoke refund comp override : TierCause
