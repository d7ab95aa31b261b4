-- ===== src/Billing/ReportExamples.antt =====
-- Tests of a payment report on a concrete world, and an instance of its theorem.
use osds.Prelude.{◌≡◌, refl, true, none, some, [], ◌∷◌, length}
use osds.Prelude.Time.{days}
use osds.Audit.CommandLog.{log_received, log_conclude, log_replay}
use osds.Billing.Machine.{rule_for, is_due}
use osds.Billing.Entitlements.Mutate.{mutate}
use osds.Billing.Entitlements.Display.{effective_tier, set_tier, visibility_after}
use osds.Billing.Entitlements.Emit.{event_data, emit_all}
use osds.Billing.Entitlements.Apply.{tier_cause, settled, emit_rule, move}
use osds.Billing.Entitlements.Database.{apply_trigger, save_entitlement, save_listing}
use osds.Billing.Notices.{after_transition}
use osds.Billing.Reports.State.{
  PaymentReport, checkout_completed, CheckoutAttempt, started, World, first_chars,
}
use osds.Billing.Reports.Resolve.{resolve, trigger_of}
use osds.Billing.Reports.Apply.{create_receipt, apply_report}
use osds.Billing.Reports.Command.{ReportEnd, applied, replayed, report_new, report_payment}
use osds.Billing.Reports.Once.{report_payment_once}
use osds.Billing.Examples.{gold, tiers, shop}

abbrev started_attempt : CheckoutAttempt
started_attempt = record {
  pk = 1;
  public_id = 11;
  listing_pk = 7;
  tier = gold;
  status = started;
  external_ref = "";
  completed_at = none;
}

-- a listing that nobody has paid for, and a checkout that was started
abbrev pub world : World
world = record {
  db = record {
    tiers = tiers;
    entitlements = [];
    listings = record shop { current_tier = none } ∷ [];
    outbox = [];
    mail = [];
    next_pk = 1;
  };
  checkouts = started_attempt ∷ [];
  receipts = [];
  log = [];
}

abbrev report : PaymentReport
report = record {
  kind = checkout_completed;
  external_event_id = "evt_1";
  checkout_attempt_id = some 11;
  listing_id = some 7;
  tier_key = "gold";
  period_end = none;
  trial_ends_at = some (days 14);
  payment_ref = ("external_id", "sub_1") ∷ [];
  amount_minor = none;
  currency = "USD";
  invoice_ref = "";
  failure_code = "";
  attempt = none;
  next_retry_at = none;
  at_period_end = true;
  canceled_by = "";
  reason = "";
}

report_steps : World × ReportEnd
unfolding report_payment apply_report create_receipt resolve trigger_of apply_trigger move rule_for
    is_due mutate emit_rule emit_all event_data effective_tier set_tier visibility_after tier_cause
    after_transition settled log_received log_conclude log_replay first_chars save_entitlement
    save_listing report_new
report_steps = report_payment world "stripe" report 5

-- the trial starts, the attempt is finished, and two entitlement events and the money event go out
report_runs :
    let (w, end) = report_payment world "stripe" report 5 in
    (end ≡ applied)
    × (length w.db.entitlements ≡ 1)
    × (length w.db.outbox ≡ 3)
    × (length w.receipts ≡ 1)
unfolding report_steps
report_runs = (refl, refl, refl, refl)

report_payment_once_example :
    let first = (report_payment world "stripe" report 5).0 in
    let (second, end) = report_payment first "stripe" report 9 in
    (end ≡ replayed)
    × (second.db ≡ first.db)
    × (second.checkouts ≡ first.checkouts)
    × (second.receipts ≡ first.receipts)
unfolding report_steps
report_payment_once_example = report_payment_once world "stripe" report 5 9 refl (λ e h. cc)
