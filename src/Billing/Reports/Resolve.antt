-- ===== src/Billing/Reports/Resolve.antt =====
-- The listing that a report is about, and the trigger that it means (billing/reports.py `_resolve`,
-- `_tier`, `_trigger`).
use osds.Prelude.{
  ℕ, String, Bool, true, false, Option, none, some, List, [], ◌∷◌, find, ◌==◌, if◌then◌else◌,
  is_some, or_else, has_text, text_or, Result, ok, err, ◌>>=◌, ◌>>◌, require, need,
}
use text.Mathlib.Text.{◌==◌ as str_eq}
use osds.Billing.Model.{
  Status, expired, Entitlement, Tier, Listing, Trigger, start, start_trial, cancel, refund,
  subscription_ended,
}
use osds.Billing.Events.{
  EventData, billing_subscription_started, billing_payment_succeeded, billing_payment_failed,
  billing_refund_issued, billing_subscription_changed, billing_subscription_canceled,
}
use osds.Billing.Machine.{is_in}
use osds.Billing.Entitlements.Fields.{Params, no_params}
use osds.Billing.Entitlements.Database.{Db, listing_of}
use osds.Billing.Reports.State.{
  ReportKind, checkout_completed, refunded, subscription_changed, subscription_canceled, other,
  PaymentReport, CheckoutStatus, started, CheckoutAttempt, Refusal, unknown_checkout,
  unknown_listing, checkout_mismatch, unknown_tier, checkout_already_completed, bad_report,
  no_entitlement, unknown_kind, get_text,
}

abbrev pub is_started : CheckoutStatus → Bool
is_started started = true
is_started _ = false

-- the attempt that the report names, if it names one
find_attempt : List CheckoutAttempt → Option ℕ → Result Refusal (Option CheckoutAttempt)
find_attempt checkouts none = ok none
find_attempt checkouts (some id) = do
  attempt ← need (find (λ a. a.public_id == id) checkouts) unknown_checkout
  ok (some attempt)

-- the listing that the report names, if it names one
find_listing : Db → Option ℕ → Result Refusal (Option Listing)
find_listing db none = ok none
find_listing db (some id) = do
  listing ← need (find (λ l. l.public_id == id) db.listings) unknown_listing
  ok (some listing)

-- the attempt's listing, which is the report's if it names one
attempted_listing : Db → CheckoutAttempt → Option Listing → Result Refusal Listing
attempted_listing db attempt none = need (listing_of db attempt.listing_pk) unknown_listing
attempted_listing db attempt (some listing) = do
  require (listing.pk == attempt.listing_pk) checkout_mismatch
  need (listing_of db attempt.listing_pk) unknown_listing

-- `_resolve`
unfoldable pub resolve :
    Db → List CheckoutAttempt → PaymentReport → Result Refusal (Listing × Option CheckoutAttempt)
unfolding find_attempt find_listing attempted_listing
resolve db checkouts report = do
  attempt ← find_attempt checkouts report.checkout_attempt_id
  listing ← find_listing db report.listing_id
  elim attempt [
    | none ↦ do l ← need listing unknown_listing; ok (l, none)
    | some a ↦ do l ← attempted_listing db a listing; ok (l, some a)
  ]

-- `_tier`
unfoldable pub report_tier : List Tier → String → Result Refusal (Option Tier)
report_tier tiers key =
    if has_text key
    then (do tier ← need (find (λ t. str_eq t.key key) tiers) unknown_tier; ok (some tier))
    else ok none

-- The trigger, its parameters and the money fact.
pub record Meaning : Type 0 where
  pub trigger : Trigger
  pub params : Params
  pub billing : EventData

abbrev currency_of : PaymentReport → Option CheckoutAttempt → String
currency_of report none = text_or report.currency ""
currency_of report (some a) = text_or report.currency a.tier.currency

abbrev plan_of : Option Entitlement → Option String
plan_of none = none
plan_of (some ent) = some ent.tier.key

-- `checkout_completed`, with the attempt
completed_meaning : ℕ → CheckoutAttempt → PaymentReport → Result Refusal Meaning
completed_meaning lid attempt report = do
  require (is_started attempt.status) checkout_already_completed
  let data_of =
      billing_subscription_started lid (get_text "external_id" report.payment_ref) attempt.tier.key
        (or_else report.period_end report.trial_ends_at)
  elim report.trial_ends_at [
    | some ends ↦ ok (record {
      trigger = start_trial;
      params = record no_params {
        tier = some attempt.tier;
        trial_ends_at = some ends;
        payment_ref = report.payment_ref;
      };
      billing = data_of;
    })
    | none ↦ do
      require (is_some report.period_end) bad_report
      ok (record {
        trigger = start;
        params = record no_params {
          tier = some attempt.tier;
          period_end = report.period_end;
          payment_ref = report.payment_ref;
        };
        billing = data_of;
      })
  ]

-- `payment_succeeded`: the first invoice can arrive before the checkout completion
paid_meaning :
    List Tier → ℕ → Status → Option CheckoutAttempt → PaymentReport → Result Refusal Meaning
unfolding report_tier
paid_meaning tiers lid status attempt report = do
  require (is_some report.period_end) bad_report
  let data_of =
      billing_payment_succeeded lid report.amount_minor (currency_of report attempt)
        report.invoice_ref
  if is_in (Status.none ∷ expired ∷ []) status
      then (do
        a ← need attempt no_entitlement
        require (is_started a.status) no_entitlement
        ok (record {
          trigger = start;
          params = record no_params {
            tier = some a.tier;
            period_end = report.period_end;
            payment_ref = report.payment_ref;
          };
          billing = data_of;
        }))
      else (do
        tier ← report_tier tiers report.tier_key
        ok (record {
          trigger = Trigger.payment_succeeded;
          params = record no_params {
            tier = tier;
            period_end = report.period_end;
            payment_ref = report.payment_ref;
          };
          billing = data_of;
        }))

changed_meaning : List Tier → ℕ → Option Entitlement → PaymentReport → Result Refusal Meaning
unfolding report_tier
changed_meaning tiers lid ent report = do
  require (has_text report.tier_key) bad_report
  require (is_some report.period_end) bad_report
  found ← report_tier tiers report.tier_key
  new ← need found unknown_tier
  ok (record {
    trigger = Trigger.payment_succeeded;
    params = record no_params {
      tier = some new;
      period_end = report.period_end;
      payment_ref = report.payment_ref;
    };
    billing = billing_subscription_changed lid (plan_of ent) new.key;
  })

canceled_meaning : ℕ → PaymentReport → Meaning
canceled_meaning lid report =
    let data_of =
      billing_subscription_canceled lid report.at_period_end report.reason
        (text_or report.canceled_by "provider") in
    if report.at_period_end
    then record {
      trigger = cancel;
      params = record no_params {
        canceled_by = text_or report.canceled_by "owner";
        reason = some report.reason;
      };
      billing = data_of;
    }
    else record { trigger = subscription_ended; params = no_params; billing = data_of }

abbrev status_of : Option Entitlement → Status
status_of none = Status.none
status_of (some ent) = ent.status

-- `_trigger`, by the report's kind
meaning_of :
    ReportKind
    → List Tier
    → ℕ
    → Option Entitlement
    → Option CheckoutAttempt
    → PaymentReport
    → Result Refusal Meaning
unfolding completed_meaning paid_meaning changed_meaning canceled_meaning
meaning_of checkout_completed tiers lid ent attempt report = do
  a ← need attempt unknown_checkout
  completed_meaning lid a report
meaning_of ReportKind.payment_succeeded tiers lid ent attempt report =
    paid_meaning tiers lid (status_of ent) attempt report
meaning_of ReportKind.payment_failed tiers lid ent attempt report = ok (record {
  trigger = Trigger.payment_failed;
  params = record no_params { failure_code = report.failure_code; attempt = report.attempt };
  billing = billing_payment_failed lid report.attempt report.failure_code report.next_retry_at;
})
meaning_of refunded tiers lid ent attempt report = ok (record {
  trigger = refund;
  params = no_params;
  billing =
      billing_refund_issued lid report.amount_minor (currency_of report attempt) report.reason;
})
meaning_of subscription_changed tiers lid ent attempt report = changed_meaning tiers lid ent report
meaning_of subscription_canceled tiers lid ent attempt report = ok (canceled_meaning lid report)
meaning_of (other s) tiers lid ent attempt report = err unknown_kind

unfoldable pub trigger_of :
    Db
    → Listing
    → Option Entitlement
    → Option CheckoutAttempt
    → PaymentReport
    → Result Refusal Meaning
unfolding meaning_of
trigger_of db listing ent attempt report =
    meaning_of report.kind db.tiers listing.public_id ent attempt report
