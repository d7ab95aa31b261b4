-- ===== src/Audit/MailDrain.antt =====
-- The mail drain (audit/worker/mail_drain.py, audit/models.py `OutboundMessage`). The provider is a
-- parameter, null where none is registered; the context that it is given is left out, and so is the
-- log line of a pass.
pub mod Private
use osds.Prelude.{
  ℕ, ◌+◌, String, Bool, true, false, ◌&&◌, Option, none, some, List, [], ◌∷◌, map, take, find,
  select, any, ◌==◌, leb, if◌then◌else◌,
}
use osds.Prelude.Time.{seconds}
use text.Mathlib.Text.{◌==◌ as str_eq}
use osds.Audit.Drain.State.{HandleStatus, HandleResult}
use osds.Audit.Drain.Attempt.{backoff, reason_of, is_failed}

-- `OutboundMessage.Status`
pub data MessageStatus : Type 0 where
  pending sent dead expired : MessageStatus

-- `OutboundMessage`
pub record OutboundMessage : Type 0 where
  pub pk : ℕ
  pub message_id : String
  pub kind : String
  pub to_address : Option String
  pub subject : String
  pub body_text : Option String
  pub status : MessageStatus
  pub attempt : ℕ
  pub next_attempt_at : ℕ
  pub expires_at : ℕ
  pub created_at : ℕ
  pub first_attempted_at : Option ℕ
  pub last_attempted_at : Option ℕ
  pub last_error : String
  pub sent_at : Option ℕ

-- `MailMessage` (osds/adapter_api.py)
pub record MailMessage : Type 0 where
  pub message_id : String
  pub kind : String
  pub to_address : String
  pub subject : String
  pub body_text : String

-- How a provider's `send` ends: it returns, it raises `CapabilityUnconfigured` with a text, or it
-- raises another exception of the named class.
pub data SendEnd : Type 0 where
  returned : HandleResult → SendEnd
  unconfigured threw : String → SendEnd

abbrev claim_visibility : ℕ
claim_visibility = seconds 90

abbrev pub unconfigured_recheck : ℕ
unconfigured_recheck = seconds 60

abbrev pub is_pending : MessageStatus → Bool
is_pending MessageStatus.pending = true
is_pending _ = false

abbrev is_due : ℕ → OutboundMessage → Bool
is_due now row = is_pending row.status && leb row.next_attempt_at now

abbrev pk_of : OutboundMessage → ℕ
pk_of row = row.pk

-- the update of the claimed rows
unfoldable pub stamp : List ℕ → ℕ → List OutboundMessage → List OutboundMessage
stamp pks now [] = []
stamp pks now (row ∷ rows) =
    (if any (λ k. k == row.pk) pks
      then record row { next_attempt_at = now + claim_visibility }
      else row)
    ∷ stamp pks now rows

-- `_claim`: the table, and the keys of the claimed rows
unfoldable pub claim : List OutboundMessage → ℕ → ℕ → List OutboundMessage × List ℕ
claim rows now batch =
    let pks = map pk_of (take batch (select (is_due now) rows)) in (stamp pks now rows, pks)

-- the keyword arguments of `_record`; `sent` is whether the status is
pub record Fields : Type 0 where
  pub status : MessageStatus
  pub attempt : Option ℕ
  pub next_attempt_at : Option ℕ
  pub error : String

abbrev value_or : {A : Type 0} → Option A → A → A
value_or none x = x
value_or (some y) x = y

abbrev kept_body : MessageStatus → Option String → Option String
kept_body MessageStatus.pending body = body
kept_body _ body = none

abbrev sent_time : MessageStatus → ℕ → Option ℕ → Option ℕ
sent_time MessageStatus.sent now old = some now
sent_time _ now old = old

abbrev pub is_claimed : OutboundMessage → OutboundMessage → Bool
is_claimed claimed row = row.pk == claimed.pk && row.next_attempt_at == claimed.next_attempt_at

-- the update of `_record` on its row
unfoldable pub record_row : ℕ → Fields → OutboundMessage → OutboundMessage
record_row now f row = record row {
  status = f.status;
  last_attempted_at = some now;
  last_error = f.error;
  first_attempted_at = some (value_or row.first_attempted_at now);
  attempt = value_or f.attempt row.attempt;
  next_attempt_at = value_or f.next_attempt_at row.next_attempt_at;
  body_text = kept_body f.status row.body_text;
  sent_at = sent_time f.status now row.sent_at;
}

unfoldable pub record_rows :
    List OutboundMessage → OutboundMessage → ℕ → Fields → List OutboundMessage
record_rows [] claimed now f = []
record_rows (row ∷ rows) claimed now f =
    (if is_claimed claimed row then record_row now f row else row) ∷ record_rows rows claimed now f

-- what `attempt_message` answers
pub data Disposition : Type 0 where
  sent retried dead expired unconfigured discarded : Disposition

-- `_record`, and the answer of its caller
unfoldable pub record_as :
    List OutboundMessage
    → OutboundMessage
    → ℕ
    → Fields × Disposition
    → List OutboundMessage × Disposition
record_as rows claimed now (f, answer) = (
  record_rows rows claimed now f,
  if any (is_claimed claimed) rows then answer else Disposition.discarded,
)

abbrev text_or_empty : Option String → String
text_or_empty none = ""
text_or_empty (some text) = text

abbrev pub mail_of : OutboundMessage → MailMessage
mail_of m = record {
  message_id = m.message_id;
  kind = m.kind;
  to_address = text_or_empty m.to_address;
  subject = m.subject;
  body_text = text_or_empty m.body_text;
}

abbrev is_ok_status : HandleStatus → Bool
is_ok_status HandleStatus.ok = true
is_ok_status _ = false

-- an unconfigured provider is asked again, at no attempt's cost
abbrev recheck : ℕ → String → Fields × Disposition
recheck now error = (
  record {
    status = MessageStatus.pending;
    attempt = none;
    next_attempt_at = some (now + unconfigured_recheck);
    error = error;
  },
  Disposition.unconfigured,
)

abbrev outcome_of : (ℕ → ℕ) → HandleResult → ℕ → ℕ → Fields × Disposition
outcome_of jitter r completed now =
    if is_ok_status r.status
    then (
      record {
        status = MessageStatus.sent;
        attempt = some completed;
        next_attempt_at = none;
        error = "";
      },
      Disposition.sent,
    )
    else if is_failed r.status && r.permanent
    then (
      record {
        status = MessageStatus.dead;
        attempt = some completed;
        next_attempt_at = none;
        error = reason_of r;
      },
      Disposition.dead,
    )
    else (
      record {
        status = MessageStatus.pending;
        attempt = some completed;
        next_attempt_at = some (now + backoff jitter completed);
        error = reason_of r;
      },
      Disposition.retried,
    )

abbrev send_outcome : (ℕ → ℕ) → SendEnd → ℕ → ℕ → Fields × Disposition
send_outcome jitter (returned r) completed now = outcome_of jitter r completed now
send_outcome jitter (SendEnd.unconfigured text) completed now =
    recheck now (if str_eq text "" then "email.send is not configured" else text)
send_outcome jitter (threw name) completed now =
    outcome_of jitter
      (record {
        status = HandleStatus.failed;
        reason = name;
        retry_after_ms = none;
        permanent = false;
      })
      completed now

-- what an attempt writes and answers
unfoldable pub message_outcome :
    Option (MailMessage → ℕ → SendEnd) → (ℕ → ℕ) → OutboundMessage → ℕ → Fields × Disposition
message_outcome provider jitter m now =
    if leb m.expires_at now
    then (
      record { status = MessageStatus.expired; attempt = none; next_attempt_at = none; error = "" },
      Disposition.expired,
    )
    else elim provider [
      | none ↦ recheck now "no email.send provider registered"
      | some send ↦ send_outcome jitter (send (mail_of m) now) (m.attempt + 1) now
    ]

-- `attempt_message` on the claimed row's copy, and the table when the provider is done
unfoldable pub attempt_message :
    Option (MailMessage → ℕ → SendEnd)
    → (ℕ → ℕ)
    → OutboundMessage
    → List OutboundMessage
    → ℕ
    → List OutboundMessage × Disposition
unfolding message_outcome record_as
attempt_message provider jitter m rows now =
    record_as rows m now (message_outcome provider jitter m now)

abbrev pub is_row : ℕ → OutboundMessage → Bool
is_row pk m = m.pk == pk

-- the loop of `mail_drain_once`: the table, and the answers in order, which `MailDrainStats` counts
unfoldable pub attempt_all :
    Option (MailMessage → ℕ → SendEnd)
    → (ℕ → ℕ)
    → ℕ
    → List ℕ
    → List OutboundMessage
    → List OutboundMessage × List Disposition
attempt_all provider jitter now [] rows = (rows, [])
attempt_all provider jitter now (pk ∷ pks) rows = elim (find (is_row pk) rows) [
  | none ↦ attempt_all provider jitter now pks rows
  | some m ↦
      let (after, answer) = attempt_message provider jitter m rows now in
      let (last, answers) = attempt_all provider jitter now pks after in (last, answer ∷ answers)
]

-- `mail_drain_once`
unfoldable pub mail_drain_once :
    Option (MailMessage → ℕ → SendEnd)
    → (ℕ → ℕ)
    → ℕ
    → ℕ
    → List OutboundMessage
    → List OutboundMessage × List Disposition
mail_drain_once provider jitter now batch rows =
    let (stamped, pks) = claim rows now batch in attempt_all provider jitter now pks stamped
