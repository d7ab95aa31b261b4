-- ===== src/Audit/MailDrain/Private.antt =====
-- What the mail drain keeps private (audit/worker/mail_drain.py).
use osds.Prelude.{
  ℕ, ◌≤◌, ◌≡◌, Bool, true, ◌||◌, Option, List, [], ◌∷◌, all, find, is_none, arith, inl, inr,
  Option-cases,
}
use osds.Audit.MailDrain.{
  OutboundMessage, MailMessage, SendEnd, Fields, Disposition, is_pending, is_row, stamp, claim,
  record_row, record_rows, record_as, message_outcome, attempt_message, attempt_all,
  mail_drain_once,
}

-- A message that no longer waits has no body.
abbrev is_private : OutboundMessage → Bool
is_private m = is_pending m.status || is_none m.body_text

-- It holds of every row of the table.
abbrev pub Private : List OutboundMessage → Type 0
Private rows = all is_private rows ≡ true

stamp-Private :
    (pks : List ℕ) (now : ℕ) (rows : List OutboundMessage)
    → Private rows
    → Private (stamp pks now rows)
unfolding stamp
stamp-Private pks now [] p = p
stamp-Private pks now (row ∷ rows) p = ground (arith, stamp-Private pks now rows)

record_row-is_private :
    (now : ℕ) (f : Fields) (row : OutboundMessage) → is_private (record_row now f row) ≡ true
unfolding record_row
record_row-is_private now f row = ground arith

record_rows-Private :
    (m : OutboundMessage) (now : ℕ) (f : Fields) (rows : List OutboundMessage)
    → Private rows
    → Private (record_rows rows m now f)
unfolding record_rows
record_rows-Private m now f [] p = p
record_rows-Private m now f (row ∷ rows) p =
    ground (arith, record_rows-Private m now f rows, record_row-is_private now f row)

attempt_all-Private :
    (provider : Option (MailMessage → ℕ → SendEnd)) (jitter : ℕ → ℕ) (now : ℕ) (pks : List ℕ)
    (rows : List OutboundMessage)
    → Private rows
    → Private (attempt_all provider jitter now pks rows).0
unfolding attempt_all attempt_message record_as
attempt_all-Private provider jitter now [] rows p = p
attempt_all-Private provider jitter now (pk ∷ pks) rows p =
    elim (Option-cases (find (is_row pk) rows)) [
      | inl e ↦ rw (e, attempt_all) (attempt_all-Private provider jitter now pks rows p)
      | inr (m, e) ↦
          rw (e, attempt_all)
            (attempt_all-Private provider jitter now pks _ (record_rows-Private m now _ rows p))
    ]

-- If no message that has left the queue, sent, dead or expired, has its body, this is so after a pass.
pub mail_drain_once-Private :
    (provider : Option (MailMessage → ℕ → SendEnd)) (jitter : ℕ → ℕ) (now batch : ℕ)
    (rows : List OutboundMessage)
    → Private rows
    → Private (mail_drain_once provider jitter now batch rows).0
unfolding mail_drain_once claim
mail_drain_once-Private provider jitter now batch rows p =
    attempt_all-Private provider jitter now _ _ (stamp-Private _ now rows p)

-- Past a message's deadline the provider is out of play: an attempt does the same with any two
-- providers, and is not answered `sent`.
pub attempt_message_late :
    (provider other : Option (MailMessage → ℕ → SendEnd)) (jitter : ℕ → ℕ) (m : OutboundMessage)
    (rows : List OutboundMessage) (now : ℕ)
    → m.expires_at ≤ now
    → (attempt_message provider jitter m rows now ≡ attempt_message other jitter m rows now)
      × ¬ ((attempt_message provider jitter m rows now).1 ≡ Disposition.sent)
unfolding attempt_message message_outcome record_as
attempt_message_late provider other jitter m rows now late = ground arith
