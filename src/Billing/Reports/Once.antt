-- ===== src/Billing/Reports/Once.antt =====
-- A report is applied at most once (billing/reports.py `report_payment`).
use osds.Prelude.{
  ℕ, ◌≡◌, refl, ◌⊎◌, ◌≢◌, inl, inr, String, Bool, true, false, Option, none, some, List, [], ◌∷◌,
  ◌++◌, any, find, Bool-cases, Result-cases, Result, ok, err, arith, find_of_any, any_of_find,
  any-append_left, any-append_last, ==_refl,
}
use text.Mathlib.TextPositions.{eq_refl}
use osds.Audit.CommandLog.{
  Log, applied, Problem, CommandRow, idempotent_replay, log_received, log_conclude, log_replay,
}
use osds.Billing.Machine.{Error}
use osds.Billing.Reports.State.{
  PaymentReport, Refusal, PaymentReceipt, ReceiptOutcome, World, ReportError, refused, integrity,
  uncaught, first_chars,
}
use osds.Billing.Reports.Apply.{new_receipt, is_receipt_of, create_receipt, apply_report}
use osds.Billing.Reports.Command.{
  command, ReportEnd, replayed, raised, key_of, is_prior, ignore, conclude, deliver, report_new,
  report_payment,
}

-- The report has been seen: its key has an applied row, or its event has a receipt.
abbrev pub Seen : String → PaymentReport → World → Type 0
Seen adapter_id report w =
    (any (is_prior (key_of adapter_id report)) w.log ≡ true)
    ⊎ (any (is_receipt_of adapter_id report.external_event_id) w.receipts ≡ true)

log_conclude-prior :
    (key : String) (log : Log) (row : CommandRow) (event : Option ℕ) (problem : Option Problem)
    → row.command ≡ command
    → row.idempotency_key ≡ some key
    → any (is_prior key) (log_conclude (log ++ row ∷ []) row.pk applied event problem) ≡ true
unfolding log_conclude
log_conclude-prior key [] row event problem c k =
    rw (==_refl row.pk) (rw (c, k) (ground (arith, eq_refl command, eq_refl key)))
log_conclude-prior key (r ∷ log) row event problem c k =
    ground (arith, log_conclude-prior key log row event problem c k)

abbrev Replays : String → PaymentReport → World → World × ReportEnd → Type 0
Replays adapter_id report w (w', end) =
    (end ≡ replayed)
    × (w'.db ≡ w.db)
    × (w'.checkouts ≡ w.checkouts)
    × (w'.receipts ≡ w.receipts)
    × Seen adapter_id report w'

deliver-Replays :
    (w : World) (adapter_id : String) (report : PaymentReport) (now : ℕ) (prior : Option CommandRow)
    (receipt : Bool)
    → find (is_prior (key_of adapter_id report)) w.log ≡ prior
    → any (is_receipt_of adapter_id report.external_event_id) w.receipts ≡ receipt
    → Seen adapter_id report w
    → Replays adapter_id report w (deliver prior receipt w adapter_id report now)
unfolding deliver log_replay
deliver-Replays w adapter_id report now (some row) receipt e r seen =
    (refl, refl, refl, refl, inl (any-append_left _ w.log _ (any_of_find _ w.log e)))
deliver-Replays w adapter_id report now none true e r seen = (refl, refl, refl, refl, inr r)
deliver-Replays w adapter_id report now none false e r (inl l) =
    let (row, f) = find_of_any _ w.log l in cc (e, f)
deliver-Replays w adapter_id report now none false e r (inr s) = cc (r, s)

-- A report that was seen is replayed: only the log moves, and it stays seen.
pub report_payment-Replays :
    (w : World) (adapter_id : String) (report : PaymentReport) (now : ℕ)
    → Seen adapter_id report w
    → Replays adapter_id report w (report_payment w adapter_id report now)
unfolding report_payment
report_payment-Replays w adapter_id report now seen =
    deliver-Replays w adapter_id report now _ _ refl refl seen

create_receipt-seen :
    (receipts : List PaymentReceipt) (adapter_id : String) (report : PaymentReport)
    (outcome : ReceiptOutcome) {rows : List PaymentReceipt}
    → first_chars 200 report.external_event_id ≡ report.external_event_id
    → create_receipt receipts adapter_id report outcome ≡ ok rows
    → any (is_receipt_of adapter_id report.external_event_id) rows ≡ true
unfolding create_receipt
create_receipt-seen receipts adapter_id report outcome {rows} short h =
    elim (Bool-cases
      (any (is_receipt_of adapter_id (first_chars 200 report.external_event_id)) receipts)) [
        | inl old ↦ absurd (ground arith)
        | inr new ↦
            let added : rows ≡ receipts ++ new_receipt adapter_id report outcome ∷ [] =
              ground arith in
            rw added (
              any-append_last _ receipts _
                (rw short (ground (arith, eq_refl adapter_id, eq_refl report.external_event_id))))
      ]

create_receipt_err :
    (receipts : List PaymentReceipt) (adapter_id : String) (report : PaymentReport)
    (outcome : ReceiptOutcome) {x : ReportError}
    → first_chars 200 report.external_event_id ≡ report.external_event_id
    → create_receipt receipts adapter_id report outcome ≡ err x
    → (any (is_receipt_of adapter_id report.external_event_id) receipts ≡ true) × (x ≡ integrity)
unfolding create_receipt
create_receipt_err receipts adapter_id report outcome short h =
    elim (Bool-cases
      (any (is_receipt_of adapter_id (first_chars 200 report.external_event_id)) receipts)) [
        | inl old ↦ (rw short at old, ground arith)
        | inr new ↦ absurd (ground arith)
      ]

ignore-seen :
    (w : World) (adapter_id : String) (report : PaymentReport) (why : Refusal)
    → first_chars 200 report.external_event_id ≡ report.external_event_id
    → any
        (is_receipt_of adapter_id report.external_event_id)
        (ignore w adapter_id report why).receipts
      ≡ true
unfolding ignore
ignore-seen w adapter_id report why short =
    elim (Result-cases (create_receipt w.receipts adapter_id report (ReceiptOutcome.ignored why))) [
      | inl (rows, e) ↦ rw (e, ignore) (create_receipt-seen w.receipts adapter_id report _ short e)
      | inr (x, e) ↦ rw (e, ignore) (create_receipt_err w.receipts adapter_id report _ short e).0
    ]

conclude-Seen :
    (w : World) (row : CommandRow) (log : Log) (adapter_id : String) (report : PaymentReport)
    (now : ℕ) (r : Result ReportError (World × ℕ))
    → first_chars 200 report.external_event_id ≡ report.external_event_id
    → row.command ≡ command
    → row.idempotency_key ≡ some (key_of adapter_id report)
    → w.log ≡ log ++ row ∷ []
    → ((w' : World) (event : ℕ) → r ≡ ok (w', event) → w'.log ≡ w.log)
    → ((e : Error) → r ≢ err (uncaught e))
    → Seen adapter_id report (conclude w row.pk adapter_id report now r).0
unfolding conclude
conclude-Seen w row log adapter_id report now (ok (w', event)) short c k l same u = inl (
    rw (same w' event refl, l)
      (log_conclude-prior (key_of adapter_id report) log row (some event) none c k))
conclude-Seen w row log adapter_id report now (err integrity) short c k l same u =
    inl (
      rw l
        (log_conclude-prior (key_of adapter_id report) log row none (some idempotent_replay) c k))
conclude-Seen w row log adapter_id report now (err (refused why a)) short c k l same u =
    inr (ignore-seen _ adapter_id report why short)
conclude-Seen w row log adapter_id report now (err (uncaught e)) short c k l same u =
    absurd (u e refl)

apply_report-log :
    (w : World) (adapter_id : String) (report : PaymentReport) (now : ℕ) {w' : World} {event : ℕ}
    → apply_report w adapter_id report now ≡ ok (w', event)
    → w'.log ≡ w.log
unfolding apply_report
apply_report-log w adapter_id report now h = ground arith

conclude-raised :
    (w : World) (pk : ℕ) (adapter_id : String) (report : PaymentReport) (now : ℕ)
    (r : Result ReportError (World × ℕ)) (e : Error)
    → (conclude w pk adapter_id report now r).1 ≢ raised e
    → r ≢ err (uncaught e)
unfolding conclude
conclude-raised w pk adapter_id report now (ok (w', event)) e n h = cc
conclude-raised w pk adapter_id report now (err integrity) e n h = cc
conclude-raised w pk adapter_id report now (err (refused why a)) e n h = cc
conclude-raised w pk adapter_id report now (err (uncaught x)) e n h = n (ground arith)

report_new-Seen :
    (w : World) (adapter_id : String) (report : PaymentReport) (now : ℕ)
    → first_chars 200 report.external_event_id ≡ report.external_event_id
    → ((e : Error) → (report_new w adapter_id report now).1 ≢ raised e)
    → Seen adapter_id report (report_new w adapter_id report now).0
unfolding report_new log_received
report_new-Seen w adapter_id report now short n =
    conclude-Seen _ _ w.log adapter_id report now _ short refl refl refl
      (λ w' event h. apply_report-log _ adapter_id report now h)
      (λ e. conclude-raised _ _ adapter_id report now _ e (n e))

deliver-Seen :
    (w : World) (adapter_id : String) (report : PaymentReport) (now : ℕ) (prior : Option CommandRow)
    (receipt : Bool)
    → find (is_prior (key_of adapter_id report)) w.log ≡ prior
    → any (is_receipt_of adapter_id report.external_event_id) w.receipts ≡ receipt
    → first_chars 200 report.external_event_id ≡ report.external_event_id
    → ((e : Error) → (deliver prior receipt w adapter_id report now).1 ≢ raised e)
    → Seen adapter_id report (deliver prior receipt w adapter_id report now).0
unfolding deliver log_replay
deliver-Seen w adapter_id report now (some row) receipt e r short n =
    inl (any-append_left _ w.log _ (any_of_find _ w.log e))
deliver-Seen w adapter_id report now none true e r short n = inr r
deliver-Seen w adapter_id report now none false e r short n =
    report_new-Seen w adapter_id report now short n

report_payment-Seen :
    (w : World) (adapter_id : String) (report : PaymentReport) (now : ℕ)
    → first_chars 200 report.external_event_id ≡ report.external_event_id
    → ((e : Error) → (report_payment w adapter_id report now).1 ≢ raised e)
    → Seen adapter_id report (report_payment w adapter_id report now).0
unfolding report_payment
report_payment-Seen w adapter_id report now short n =
    deliver-Seen w adapter_id report now _ _ refl refl short n

-- A report that was handled, whatever its end but an uncaught exception, has no effect when it is
-- delivered again: it is answered `replayed`, and the database, the checkout attempts and the
-- receipts stay as they were. Its event id has 200 characters at most.
pub report_payment_once :
    (w : World) (adapter_id : String) (report : PaymentReport) (now again : ℕ)
    → first_chars 200 report.external_event_id ≡ report.external_event_id
    → ((e : Error) → (report_payment w adapter_id report now).1 ≢ raised e)
    → let first = (report_payment w adapter_id report now).0 in
      let (second, end) = report_payment first adapter_id report again in
      (end ≡ replayed)
      × (second.db ≡ first.db)
      × (second.checkouts ≡ first.checkouts)
      × (second.receipts ≡ first.receipts)
report_payment_once w adapter_id report now again short n =
    let seen : Seen adapter_id report (report_payment w adapter_id report now).0 =
      report_payment-Seen w adapter_id report now short n in
    let r = report_payment-Replays _ adapter_id report again seen in (r.0, r.1, r.2, r.3)
