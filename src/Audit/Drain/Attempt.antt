-- ===== src/Audit/Drain/Attempt.antt =====
-- One attempt of a delivery (audit/worker/drain.py `backoff`, `_subscriber_for`, `_record`,
-- `attempt_delivery`). The table is the one at the time of the write, which may have moved since the
-- claim; the jitter of `backoff` and the adapters' pattern match are parameters.
use osds.Prelude.{
  ℕ, ◌+◌, ◌-◌, ◌*◌, ◌^◌, min, max, String, Bool, true, false, ◌&&◌, ◌||◌, Option, none, some, List,
  [], ◌∷◌, find, any, ◌==◌, leb, if◌then◌else◌,
}
use osds.Prelude.Time.{seconds}
use text.Mathlib.Text.{◌==◌ as str_eq}
use osds.Audit.Drain.State.{
  OutboxEvent, DeliveryStatus, Delivery, HandleStatus, HandleResult, HandlerEnd, returned, threw,
  Subscriber,
}

abbrev pub max_attempts : ℕ
max_attempts = 12

abbrev pub backoff_cap_seconds : ℕ
backoff_cap_seconds = 3600

-- `backoff`, where the jitter of `base` seconds is a duration
unfoldable pub backoff : (ℕ → ℕ) → ℕ → ℕ
backoff jitter attempt = jitter (min (2 ^ (attempt - 1)) backoff_cap_seconds)

-- `subscribes or ("*",)`
abbrev patterns_of : Subscriber → List String
patterns_of s = elim s.subscribes [ [] ↦ "*" ∷ [] | p ∷ ps ↦ p ∷ ps ]

-- `matches`, on `fnmatch.fnmatchcase`
abbrev matches : (String → String → Bool) → List String → String → Bool
matches fnmatch patterns type = any (fnmatch type) patterns

-- `subscribers_for`
unfoldable pub subscribers_for :
    (String → String → Bool) → List Subscriber → String → List Subscriber
subscribers_for fnmatch [] type = []
subscribers_for fnmatch (s ∷ registry) type =
    let rest = subscribers_for fnmatch registry type in
    if matches fnmatch (patterns_of s) type then s ∷ rest else rest

-- `_subscriber_for`
unfoldable pub subscriber_for :
    (String → String → Bool) → List Subscriber → String → Delivery → Option Subscriber
subscriber_for fnmatch registry type d =
    find (λ s. str_eq s.id d.adapter_id) (subscribers_for fnmatch registry type)

-- the keyword arguments of `_record`
pub record Fields : Type 0 where
  pub status : DeliveryStatus
  pub attempt : Option ℕ
  pub next_attempt_at : Option ℕ
  pub error : String

abbrev value_or : {A : Type 0} → Option A → A → A
value_or none x = x
value_or (some y) x = y

abbrev delivered_time : DeliveryStatus → ℕ → Option ℕ → Option ℕ
delivered_time DeliveryStatus.delivered now old = some now
delivered_time _ now old = old

-- the row is where the claim left it
abbrev pub is_claimed : Delivery → Delivery → Bool
is_claimed claimed row = row.pk == claimed.pk && row.next_attempt_at == claimed.next_attempt_at

-- the two updates of `_record` on its row
unfoldable pub record_row : ℕ → Fields → Delivery → Delivery
record_row now f row = record row {
  status = f.status;
  last_attempted_at = some now;
  last_error = f.error;
  attempt = value_or f.attempt row.attempt;
  next_attempt_at = value_or f.next_attempt_at row.next_attempt_at;
  delivered_at = delivered_time f.status now row.delivered_at;
  first_attempted_at = some (value_or row.first_attempted_at now);
}

unfoldable pub record_rows : List Delivery → Delivery → ℕ → Fields → List Delivery
record_rows [] claimed now f = []
record_rows (row ∷ rows) claimed now f =
    (if is_claimed claimed row then record_row now f row else row) ∷ record_rows rows claimed now f

-- what `attempt_delivery` answers
pub data Disposition : Type 0 where
  delivered retried dead discarded : Disposition

-- `_record`, and the answer of its caller
unfoldable pub record_as :
    List Delivery → Delivery → ℕ → Fields → Disposition → List Delivery × Disposition
record_as rows claimed now f answer = (
  record_rows rows claimed now f,
  if any (is_claimed claimed) rows then answer else Disposition.discarded,
)

abbrev status_text : HandleStatus → String
status_text HandleStatus.ok = "ok"
status_text HandleStatus.skipped = "skipped"
status_text HandleStatus.retry = "retry"
status_text HandleStatus.failed = "failed"

-- `result.reason or result.status`
abbrev pub reason_of : HandleResult → String
reason_of r = if str_eq r.reason "" then status_text r.status else r.reason

-- `max(backoff, hint)` up to the cap, or the backoff where there is no hint
abbrev pub delay_of : (ℕ → ℕ) → HandleResult → ℕ → ℕ
delay_of jitter r completed = elim r.retry_after_ms [
  | none ↦ backoff jitter completed
  | some ms ↦
      if ms == 0
      then backoff jitter completed
      else min (max (backoff jitter completed) (ms * 1000)) (seconds backoff_cap_seconds)
]

abbrev succeeded : HandleStatus → Bool
succeeded HandleStatus.ok = true
succeeded HandleStatus.skipped = true
succeeded _ = false

abbrev pub is_failed : HandleStatus → Bool
is_failed HandleStatus.failed = true
is_failed _ = false

-- an exception is a failure that is tried again
abbrev pub result_of : HandlerEnd → HandleResult
result_of (returned r) = r
result_of (threw name) = record {
  status = HandleStatus.failed;
  reason = name;
  retry_after_ms = none;
  permanent = false;
}

-- what is written after the handler's result, and what is answered
unfoldable pub outcome_of : (ℕ → ℕ) → HandleResult → ℕ → ℕ → Fields × Disposition
outcome_of jitter r completed now =
    if succeeded r.status
    then (
      record {
        status = DeliveryStatus.delivered;
        attempt = some completed;
        next_attempt_at = none;
        error = "";
      },
      Disposition.delivered,
    )
    else if (is_failed r.status && r.permanent) || leb max_attempts completed
    then (
      record {
        status = DeliveryStatus.dead;
        attempt = some completed;
        next_attempt_at = none;
        error = reason_of r;
      },
      Disposition.dead,
    )
    else (
      record {
        status = DeliveryStatus.pending;
        attempt = some completed;
        next_attempt_at = some (now + delay_of jitter r completed);
        error = reason_of r;
      },
      Disposition.retried,
    )

-- `attempt_delivery` on the claimed row's copy, its event, and the table when the handler is done
unfoldable pub attempt_delivery :
    (String → String → Bool)
    → List Subscriber
    → (ℕ → ℕ)
    → OutboxEvent
    → Delivery
    → List Delivery
    → ℕ
    → List Delivery × Disposition
unfolding record_as
attempt_delivery fnmatch registry jitter event d rows now =
    elim (subscriber_for fnmatch registry event.type d) [
      | none ↦
          record_as rows d now
            (record {
              status = DeliveryStatus.dead;
              attempt = none;
              next_attempt_at = none;
              error = "subscriber not registered";
            })
            Disposition.dead
      | some s ↦
          let r = result_of (s.handle event d.tenant now) in
          let (f, answer) = outcome_of jitter r (d.attempt + 1) now in record_as rows d now f answer
    ]
