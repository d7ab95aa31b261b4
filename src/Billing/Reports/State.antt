-- ===== src/Billing/Reports/State.antt =====
-- The rows and the messages of a payment report (billing/models.py, osds/adapter_api.py).
use osds.Prelude.{ℕ, zero, suc, String, Bool, Option, List, [], ◌∷◌, if◌then◌else◌}
use text.Mathlib.Text.{◌==◌ as str_eq}
use osds.Billing.Model.{Tier, PaymentRef}
use osds.Billing.Machine.{Error}
use osds.Billing.Entitlements.Database.{Db}
use osds.Audit.CommandLog.{Log}

-- `REPORT_KINDS`, and any other text
pub data ReportKind : Type 0 where
  checkout_completed payment_succeeded payment_failed refunded subscription_changed : ReportKind
  subscription_canceled : ReportKind
  other : String → ReportKind

-- `PaymentReport`. `none` stands for an empty id.
pub record PaymentReport : Type 0 where
  pub kind : ReportKind
  pub external_event_id : String
  pub checkout_attempt_id : Option ℕ
  pub listing_id : Option ℕ
  pub tier_key : String
  pub period_end : Option ℕ
  pub trial_ends_at : Option ℕ
  pub payment_ref : PaymentRef
  pub amount_minor : Option ℕ
  pub currency : String
  pub invoice_ref : String
  pub failure_code : String
  pub attempt : Option ℕ
  pub next_retry_at : Option ℕ
  pub at_period_end : Bool
  pub canceled_by : String
  pub reason : String

-- `CheckoutAttempt.Status`
pub data CheckoutStatus : Type 0 where
  started completed failed : CheckoutStatus

-- `CheckoutAttempt`, joined with its tier
pub record CheckoutAttempt : Type 0 where
  pub pk : ℕ
  pub public_id : ℕ
  pub listing_pk : ℕ
  pub tier : Tier
  pub status : CheckoutStatus
  pub external_ref : String
  pub completed_at : Option ℕ

-- The reasons of `ReportRefused`.
pub data Refusal : Type 0 where
  unknown_checkout unknown_listing checkout_mismatch unknown_tier : Refusal
  checkout_already_completed bad_report no_entitlement unknown_kind invalid_transition : Refusal

-- `PaymentReceipt.Outcome`, with the reason of an ignored one
pub data ReceiptOutcome : Type 0 where
  applied : ReceiptOutcome
  ignored : Refusal → ReceiptOutcome

-- `PaymentReceipt`
pub record PaymentReceipt : Type 0 where
  pub adapter_id : String
  pub external_event_id : String
  pub kind : ReportKind
  pub listing_pk : Option ℕ
  pub outcome : ReceiptOutcome

-- What the command reads and writes.
pub record World : Type 0 where
  pub db : Db
  pub checkouts : List CheckoutAttempt
  pub receipts : List PaymentReceipt
  pub log : Log

-- What leaves `_apply`: a refusal with the attempt to finish, a lost race for the receipt, or an
-- exception that nobody catches.
pub data ReportError : Type 0 where
  refused : Refusal → Option ℕ → ReportError
  integrity : ReportError
  uncaught : Error → ReportError

-- `s[:n]`
unfoldable pub first_chars : ℕ → String → String
first_chars zero s = ""
first_chars (suc n) String.[] = ""
first_chars (suc n) (String.◌∷◌ c s) = String.◌∷◌ c (first_chars n s)

-- `d.get(key, "")`
abbrev pub get_text : String → PaymentRef → String
get_text key [] = ""
get_text key ((k, v) ∷ d) = if str_eq k key then v else get_text key d
