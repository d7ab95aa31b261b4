-- ===== src/Audit/MailExamples.antt =====
-- Tests of the mail drain on a concrete table, and instances of its theorems.
use osds.Prelude.{ℕ, ◌≡◌, refl, none, some, List, [], ◌∷◌, arith, false}
use osds.Prelude.Time.{seconds}
use osds.Audit.Drain.State.{HandleStatus}
use osds.Audit.Drain.Attempt.{backoff}
use osds.Audit.MailDrain.{
  MessageStatus, OutboundMessage, MailMessage, SendEnd, returned, Disposition, stamp, claim,
  record_row, record_rows, record_as, message_outcome, attempt_message, attempt_all,
  mail_drain_once,
}
use osds.Audit.MailDrain.Private.{Private, mail_drain_once-Private, attempt_message_late}

abbrev code_mail : OutboundMessage
code_mail = record {
  pk = 1;
  message_id = "m1";
  kind = "claim.verification_code";
  to_address = some "a@example.org";
  subject = "Your code";
  body_text = some "123456";
  status = MessageStatus.pending;
  attempt = 0;
  next_attempt_at = 5;
  expires_at = seconds 600;
  created_at = 5;
  first_attempted_at = none;
  last_attempted_at = none;
  last_error = "";
  sent_at = none;
}

abbrev sender : MailMessage → ℕ → SendEnd
sender mail now =
    returned
      (record { status = HandleStatus.ok; reason = ""; retry_after_ms = none; permanent = false })

abbrev table : List OutboundMessage
table = code_mail ∷ record code_mail { pk = 2; expires_at = 7 } ∷ []

mail_steps : List OutboundMessage × List Disposition
unfolding mail_drain_once attempt_all attempt_message message_outcome record_as record_rows
    record_row claim stamp backoff
mail_steps = mail_drain_once (some sender) seconds 9 100 table

-- the first is sent, and the second is past its deadline
mail_runs :
    (mail_drain_once (some sender) seconds 9 100 table).1
    ≡ Disposition.sent ∷ Disposition.expired ∷ []
unfolding mail_steps
mail_runs = refl

mail_drain_once-Private_example : Private (mail_drain_once (some sender) seconds 9 100 table).0
mail_drain_once-Private_example = mail_drain_once-Private (some sender) seconds 9 100 table refl

attempt_message_late_example :
    (attempt_message (some sender) seconds (record code_mail { expires_at = 7 }) table 9
      ≡ attempt_message none seconds (record code_mail { expires_at = 7 }) table 9)
    × ¬ (
        (attempt_message (some sender) seconds (record code_mail { expires_at = 7 }) table 9).1
        ≡ Disposition.sent)
attempt_message_late_example =
    attempt_message_late (some sender) none seconds (record code_mail { expires_at = 7 }) table 9
      (omega arith)
