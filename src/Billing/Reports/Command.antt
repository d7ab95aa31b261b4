-- ===== src/Billing/Reports/Command.antt =====
-- The command around a payment report (billing/reports.py `report_payment`, `_ignore`): it applies a
-- report once, and acknowledges what it cannot apply.
use Prim.Native.String.{◌++◌ as append}
use osds.Prelude.{
  ℕ, String, Bool, true, false, ◌&&◌, Option, none, some, List, [], ◌∷◌, find, any, ◌==◌,
  if◌then◌else◌, Result, ok, err,
}
use text.Mathlib.Text.{◌==◌ as str_eq}
use osds.Audit.Actor.{adapter}
use osds.Audit.CommandLog.{
  LogOutcome, rejected, reason, idempotent_replay, CommandRow, log_received, log_conclude,
  log_replay,
}
use osds.Billing.Machine.{Error}
use osds.Billing.Reports.State.{
  PaymentReport, completed, CheckoutAttempt, Refusal, unknown_checkout, unknown_listing,
  checkout_mismatch, unknown_tier, checkout_already_completed, bad_report, no_entitlement,
  unknown_kind, invalid_transition, ReceiptOutcome, World, ReportError, refused, integrity,
  uncaught,
}
use osds.Billing.Reports.Resolve.{is_started}
use osds.Billing.Reports.Apply.{is_receipt_of, create_receipt, apply_report}

abbrev pub command : String
command = "entitlement.reportPayment"

-- `ReportResult`, or an exception that the caller sees
pub data ReportEnd : Type 0 where
  applied replayed : ReportEnd
  ignored : Refusal → ReportEnd
  raised : Error → ReportEnd

abbrev refusal_code : Refusal → String
refusal_code unknown_checkout = "unknown_checkout"
refusal_code unknown_listing = "unknown_listing"
refusal_code checkout_mismatch = "checkout_mismatch"
refusal_code unknown_tier = "unknown_tier"
refusal_code checkout_already_completed = "checkout_already_completed"
refusal_code bad_report = "bad_report"
refusal_code no_entitlement = "no_entitlement"
refusal_code unknown_kind = "unknown_kind"
refusal_code invalid_transition = "invalid_transition"

-- f"{adapter_id}:{event_id}"
abbrev pub key_of : String → PaymentReport → String
key_of adapter_id report = append adapter_id (append ":" report.external_event_id)

abbrev has_idempotency_key : String → CommandRow → Bool
has_idempotency_key key row = elim row.idempotency_key [ none ↦ false | some k ↦ str_eq k key ]

abbrev is_applied_outcome : LogOutcome → Bool
is_applied_outcome LogOutcome.applied = true
is_applied_outcome _ = false

abbrev is_applied : CommandRow → Bool
is_applied row = elim row.outcome [ none ↦ false | some o ↦ is_applied_outcome o ]

-- the applied row of the same key
abbrev pub is_prior : String → CommandRow → Bool
is_prior key row = str_eq row.command command && (has_idempotency_key key row && is_applied row)

-- `_ignore`: the receipt of a report that was refused, unless there is one
unfoldable pub ignore : World → String → PaymentReport → Refusal → World
ignore w adapter_id report why =
    elim (create_receipt w.receipts adapter_id report (ReceiptOutcome.ignored why)) [
      | ok receipts ↦ record w { receipts = receipts }
      | err e ↦ w
    ]

-- a purchase already in force finishes its attempt
unfoldable pub finish_attempt : Option ℕ → ℕ → List CheckoutAttempt → List CheckoutAttempt
finish_attempt none now rows = rows
finish_attempt (some pk) now [] = []
finish_attempt (some pk) now (a ∷ rows) =
    (if a.pk == pk && is_started a.status
      then record a { status = completed; completed_at = some now }
      else a)
    ∷ finish_attempt (some pk) now rows

-- the command's end, on the world with its received row
unfoldable pub conclude :
    World → ℕ → String → PaymentReport → ℕ → Result ReportError (World × ℕ) → World × ReportEnd
unfolding ignore finish_attempt
conclude w pk adapter_id report now (ok (w', event)) =
    (record w' { log = log_conclude w'.log pk LogOutcome.applied (some event) none }, applied)
conclude w pk adapter_id report now (err integrity) = (
  record w { log = log_conclude w.log pk LogOutcome.applied none (some idempotent_replay) },
  replayed,
)
conclude w pk adapter_id report now (err (refused why attempt)) =
    let logged = record w {
      log = log_conclude w.log pk rejected none (some (reason (refusal_code why)));
    } in
    let w' = ignore logged adapter_id report why in
    (record w' { checkouts = finish_attempt attempt now w'.checkouts }, ignored why)
conclude w pk adapter_id report now (err (uncaught e)) = (w, raised e)

-- a report that was not seen before
unfoldable pub report_new : World → String → PaymentReport → ℕ → World × ReportEnd
unfolding conclude
report_new w adapter_id report now =
    let (log, pk) =
      log_received w.log command (some (key_of adapter_id report)) (adapter adapter_id)
        adapter_id in
    let received = record w { log = log } in
    conclude received pk adapter_id report now (apply_report received adapter_id report now)

-- on the applied row of the same key, and whether the event has a receipt
unfoldable pub deliver :
    Option CommandRow → Bool → World → String → PaymentReport → ℕ → World × ReportEnd
deliver (some prior) seen w adapter_id report now = (
  record w {
    log = log_replay w.log command (some (key_of adapter_id report)) (adapter adapter_id) prior;
  },
  replayed,
)
deliver none true w adapter_id report now = (w, replayed)
deliver none false w adapter_id report now = report_new w adapter_id report now

unfoldable pub report_payment : World → String → PaymentReport → ℕ → World × ReportEnd
unfolding deliver
report_payment w adapter_id report now =
    deliver (find (is_prior (key_of adapter_id report)) w.log)
      (any (is_receipt_of adapter_id report.external_event_id) w.receipts) w adapter_id report now
