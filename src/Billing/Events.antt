-- ===== src/Billing/Events.antt =====
-- What billing writes besides its rows: outbox events (audit/outbox.py `emit`, with the `data` that
-- billing/entitlements.py, directory/services.py and billing/payments.py give them) and the owner's
-- mail (billing/notices.py). A time in an event is the number that `isoformat` prints.
use osds.Prelude.{ℕ, String, Bool, Option}
use osds.Prelude.Time.{ℤ}
use osds.Audit.Actor.{Actor}
use osds.Billing.Model.{Status, BillingMode, Visibility, Cause, TierCause}

-- The type of an event with its `data`. The first two numbers of an `entitlement.*` event are the
-- entitlement's and the listing's public ids.
pub data EventData : Type 0 where
  entitlement_started : ℕ → ℕ → String → BillingMode → Option ℕ → Option ℕ → EventData
  entitlement_trial_converted : ℕ → ℕ → String → Option ℕ → EventData
  entitlement_dunning_started : ℕ → ℕ → ℕ → ℕ → String → EventData
  entitlement_recovered : ℕ → ℕ → ℤ → EventData
  entitlement_downgraded : ℕ → ℕ → String → Option String → ℕ → EventData
  entitlement_restored : ℕ → ℕ → String → ℤ → EventData
  entitlement_expired : ℕ → ℕ → String → Cause → EventData
  entitlement_canceled : ℕ → ℕ → Bool → String → String → EventData
  entitlement_overridden : ℕ → ℕ → ℕ → String → Status → Status → EventData
  entitlement_renewal_due : ℕ → ℕ → ℕ → Option ℕ → EventData
  -- the key of the tier before, the key after, the time, the cause
  listing_tier_changed : Option String → Option String → ℕ → TierCause → EventData
  -- The first number of a `billing.*` event is the listing's public id.
  billing_checkout_started : ℕ → String → Option ℕ → String → EventData
  -- the provider's subscription, the tier, the end of the period
  billing_subscription_started : ℕ → String → String → Option ℕ → EventData
  -- the amount, the currency, the invoice
  billing_payment_succeeded : ℕ → Option ℕ → String → String → EventData
  -- the attempt, the failure code, the next retry
  billing_payment_failed : ℕ → Option ℕ → String → Option ℕ → EventData
  -- the amount, the currency, the reason
  billing_refund_issued : ℕ → Option ℕ → String → String → EventData
  -- the tier before and the tier after
  billing_subscription_changed : ℕ → Option String → String → EventData
  -- whether at the period's end, the reason, by whom
  billing_subscription_canceled : ℕ → Bool → String → String → EventData
  -- without the projection of the listing's own fields
  listing_published : Visibility → EventData
  listing_unpublished : Visibility → Visibility → String → EventData

pub record Event : Type 0 where
  pub subject : ℕ
  pub actor : Actor
  pub origin : String
  pub content : EventData

pub data MailKind : Type 0 where
  mail_failed mail_downgraded mail_expired mail_canceled : MailKind

-- What a message says, by its template, with the date that it prints.
pub data Body : Type 0 where
  pay_before restore_until active_until : ℕ → Body
  has_ended back_to_free : Body

-- `audit.mail.enqueue`
pub record Mail : Type 0 where
  pub kind : MailKind
  pub to_address : String
  pub body : Body
  pub expires_at : ℕ
