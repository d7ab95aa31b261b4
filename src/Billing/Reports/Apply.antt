-- ===== src/Billing/Reports/Apply.antt =====
-- The transaction of a payment report (billing/reports.py `_apply`): the receipt, the move and the
-- money fact land together or not at all.
use osds.Prelude.{
  ℕ, String, Bool, true, false, ◌&&◌, Option, none, some, List, [], ◌∷◌, ◌++◌, any, length, ◌==◌,
  if◌then◌else◌, has_text, text_or, Result, ok, err, ◌>>=◌, ◌>>◌, require,
}
use text.Mathlib.Text.{◌==◌ as str_eq}
use osds.Audit.Actor.{adapter}
use osds.Billing.Model.{Trigger, start, start_trial}
use osds.Billing.Machine.{Error, missing_parameters, unknown_status, is_trigger}
use osds.Billing.Entitlements.Apply.{Outcome}
use osds.Billing.Entitlements.Database.{Db, entitlement_of, apply_trigger}
use osds.Billing.Reports.State.{
  ReportKind, checkout_completed, other, PaymentReport, completed, CheckoutAttempt, Refusal,
  bad_report, unknown_kind, ReceiptOutcome, PaymentReceipt, World, ReportError, refused, integrity,
  uncaught, first_chars, get_text,
}
use osds.Billing.Reports.Resolve.{resolve, trigger_of}

abbrev pub is_known : ReportKind → Bool
is_known (other s) = false
is_known _ = true

-- `kind[:40]`; the known kinds are shorter
abbrev pub stored_kind : ReportKind → ReportKind
stored_kind (other s) = other (first_chars 40 s)
stored_kind k = k

-- the unique constraint on (tenant, adapter, event id)
abbrev pub is_receipt_of : String → String → PaymentReceipt → Bool
is_receipt_of adapter_id event_id r =
    str_eq r.adapter_id adapter_id && str_eq r.external_event_id event_id

abbrev pub new_receipt : String → PaymentReport → ReceiptOutcome → PaymentReceipt
new_receipt adapter_id report outcome = record {
  adapter_id = adapter_id;
  external_event_id = first_chars 200 report.external_event_id;
  kind = stored_kind report.kind;
  listing_pk = none;
  outcome = outcome;
}

-- `PaymentReceipt.objects.create(...)`
unfoldable pub create_receipt :
    List PaymentReceipt
    → String
    → PaymentReport
    → ReceiptOutcome
    → Result ReportError (List PaymentReceipt)
create_receipt receipts adapter_id report outcome =
    if any (is_receipt_of adapter_id (first_chars 200 report.external_event_id)) receipts
    then err integrity
    else ok (receipts ++ new_receipt adapter_id report outcome ∷ [])

-- `receipt.listing = listing; receipt.save(...)`
unfoldable pub name_listing : String → String → ℕ → List PaymentReceipt → List PaymentReceipt
name_listing adapter_id event_id pk [] = []
name_listing adapter_id event_id pk (r ∷ rows) =
    (if is_receipt_of adapter_id event_id r then record r { listing_pk = some pk } else r)
    ∷ name_listing adapter_id event_id pk rows

-- the attempt is finished, and keeps its reference or gets the report's
unfoldable pub complete :
    CheckoutAttempt → PaymentReport → ℕ → List CheckoutAttempt → List CheckoutAttempt
complete attempt report now [] = []
complete attempt report now (a ∷ rows) =
    (if a.pk == attempt.pk
      then record a {
        status = completed;
        completed_at = some now;
        external_ref =
            text_or attempt.external_ref
              (first_chars 200 (get_text "external_id" report.payment_ref));
      }
      else a)
    ∷ complete attempt report now rows

abbrev lift_refusal : {A : Type 0} → Result Refusal A → Result ReportError A
lift_refusal (ok a) = ok a
lift_refusal (err r) = err (refused r none)

-- the attempt that a refused purchase still finishes
abbrev finished : ReportKind → Option CheckoutAttempt → Option ℕ
finished kind none = none
finished checkout_completed (some a) = some a.pk
finished ReportKind.payment_succeeded (some a) = some a.pk
finished _ (some a) = none

-- `except (machine.InvalidTransition, entitlements.EntitlementError)`
abbrev pub applied_or :
    ReportKind
    → Option CheckoutAttempt
    → Result Error (Db × Outcome)
    → Result ReportError (Db × Outcome)
applied_or kind attempt (ok r) = ok r
applied_or kind attempt (err (Error.invalid_transition s t)) =
    err (refused Refusal.invalid_transition (finished kind attempt))
applied_or kind attempt (err (missing_parameters l)) = err (refused bad_report none)
applied_or kind attempt (err (unknown_status v)) = err (refused bad_report none)
applied_or kind attempt (err e) = err (uncaught e)

abbrev completes : Trigger → Bool
completes t = any (is_trigger t) (start ∷ start_trial ∷ [])

abbrev checkouts_after :
    Trigger
    → Option CheckoutAttempt
    → PaymentReport
    → ℕ
    → List CheckoutAttempt
    → List CheckoutAttempt
checkouts_after t none report now rows = rows
checkouts_after t (some a) report now rows =
    if completes t then complete a report now rows else rows

-- The world after the report, and the id of the money event: its place in the outbox.
unfoldable pub apply_report : World → String → PaymentReport → ℕ → Result ReportError (World × ℕ)
unfolding name_listing complete
apply_report w adapter_id report now = do
  require (is_known report.kind) (refused unknown_kind none)
  require (has_text report.external_event_id) (refused bad_report none)
  receipts ← create_receipt w.receipts adapter_id report ReceiptOutcome.applied
  (listing, attempt) ← lift_refusal (resolve w.db w.checkouts report)
  meaning ← lift_refusal (trigger_of w.db listing (entitlement_of w.db listing.pk) attempt report)
  (db, out) ← applied_or report.kind attempt (
      apply_trigger w.db listing.pk meaning.trigger
        (record { now = now; actor = adapter adapter_id; origin = adapter_id }) meaning.params)
  ok (
    record w {
      db = record db {
        outbox =
            db.outbox
            ++ (record {
              subject = listing.public_id;
              actor = adapter adapter_id;
              origin = adapter_id;
              content = meaning.billing;
            }
                ∷ []);
      };
      checkouts = checkouts_after meaning.trigger attempt report now w.checkouts;
      receipts =
          name_listing adapter_id (first_chars 200 report.external_event_id) listing.pk receipts;
    },
    length db.outbox,
  )
