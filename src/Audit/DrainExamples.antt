-- ===== src/Audit/DrainExamples.antt =====
-- Tests of the webhook drain on a concrete queue, and instances of its theorems.
use osds.Prelude.{◌||◌, ℕ, ◌≤◌, ◌≡◌, refl, String, Bool, true, false, none, some, [], ◌∷◌, arith}
use mathlib.Core.List.{Memᴰ}
use text.Mathlib.Text.{◌==◌ as str_eq}
use osds.Prelude.Time.{seconds}
use osds.Audit.Drain.State.{
  EventStatus, OutboxEvent, DeliveryStatus, Delivery, HandleStatus, HandlerEnd, returned,
  Subscriber, Queue,
}
use osds.Audit.Drain.Attempt.{
  subscriber_for, subscribers_for, backoff, Disposition, subscribers_for, subscriber_for,
  record_row, record_rows, record_as, outcome_of, attempt_delivery,
}
use osds.Audit.Drain.Claim.{claimed_rows, stamp, claim}
use osds.Audit.Drain.FanOut.{deliver_to, dispatch, fan_out_event, fan_out, fan_out_once}
use osds.Audit.Drain.Pass.{attempt_pk, attempt_all, drain_once}
use osds.Audit.Drain.Outcomes.{handled, Ended, attempt_delivery-Ended}
use osds.Audit.Drain.Claims.{claimed_rows-first, reclaimed-discarded}
use osds.Audit.Drain.Bounded.{Bounded, drain_once-Bounded}
use osds.Audit.Drain.Once.{Distinct, fan_out_once-Distinct}

-- patterns without a wildcard but "*"
abbrev fnmatch : String → String → Bool
fnmatch type pattern = str_eq pattern "*" || str_eq pattern type

abbrev no_tenant : String → String → Bool
no_tenant type prefix = str_eq type "tenant.created"

abbrev no_jitter : ℕ → ℕ
no_jitter base = seconds base

-- it fails, and asks for two minutes
abbrev handle : OutboxEvent → ℕ → HandlerEnd
handle event now = returned (record {
  status = HandleStatus.retry;
  reason = "";
  retry_after_ms = some 120000;
  permanent = false;
})

abbrev webhook : Subscriber
webhook = record {
  id = "webhook";
  subscribes = [];
  wants = none;
  handle = λ event tenant now. handle event now;
}

abbrev event : OutboxEvent
event = record {
  pk = 1;
  type = "claim.approved";
  tenant = 3;
  subject = 9;
  status = EventStatus.pending;
  dispatched_at = none;
}

abbrev queue : Queue
queue = record { events = event ∷ record event { pk = 2 } ∷ []; deliveries = []; next_pk = 1 }

-- the row of the first event when it has been claimed at 5
abbrev claimed : Delivery
claimed = record {
  pk = 1;
  event = 1;
  tenant = some 3;
  subject = 9;
  adapter_id = "webhook";
  status = DeliveryStatus.pending;
  attempt = 0;
  next_attempt_at = 90000005;
  first_attempted_at = none;
  last_attempted_at = none;
  last_error = "";
  delivered_at = none;
}

drain_steps : Queue
unfolding drain_once fan_out_once fan_out fan_out_event deliver_to dispatch subscribers_for
    subscriber_for claim claimed_rows stamp attempt_all attempt_pk attempt_delivery record_as
    record_rows record_row outcome_of backoff
drain_steps = (drain_once fnmatch no_tenant (webhook ∷ []) no_jitter 5 100 queue).0

-- both events are fanned out; the second waits for the first, which is tried again in two minutes
drain_runs :
    let (q, stats) = drain_once fnmatch no_tenant (webhook ∷ []) no_jitter 5 100 queue in
    (stats.events_fanned_out ≡ 2)
    × (stats.deliveries_created ≡ 2)
    × (stats.deliveries_attempted ≡ 1)
    × (stats.retried ≡ 1)
unfolding drain_steps
drain_runs = (refl, refl, refl, refl)

attempt_delivery-Ended_example :
    let (rows, answer) =
      attempt_delivery fnmatch (webhook ∷ []) no_jitter event claimed (claimed ∷ []) 7 in
    (row : Delivery) × Memᴰ row rows
    × (row.pk ≡ 1)
    × Ended no_jitter (handled event claimed 7 (some webhook)) answer 7 claimed row
unfolding subscriber_for subscribers_for
attempt_delivery-Ended_example =
    attempt_delivery-Ended fnmatch (webhook ∷ []) no_jitter event claimed claimed (claimed ∷ []) 7
      (λ b. omega arith) (Memᴰ.head refl) refl

claimed_rows-first_example : (true ≡ true) × (5 ≤ 5) × (1 ≤ 2)
unfolding drain_steps
claimed_rows-first_example =
    claimed_rows-first
      (record claimed { next_attempt_at = 5 }
        ∷ record claimed { pk = 2; event = 2; next_attempt_at = 5 }
        ∷ [])
      5 100 (record claimed { next_attempt_at = 5 })
      (record claimed { pk = 2; event = 2; next_attempt_at = 5 }) (Memᴰ.head refl)
      (Memᴰ.tail (Memᴰ.head refl)) refl refl

reclaimed-discarded_example :
    attempt_delivery fnmatch
      (webhook ∷ [])
      no_jitter
      event
      claimed
      (stamp (1 ∷ []) 95000000 (claimed ∷ []))
      96000000
    ≡ (stamp (1 ∷ []) 95000000 (claimed ∷ []), Disposition.discarded)
reclaimed-discarded_example =
    reclaimed-discarded fnmatch (webhook ∷ []) no_jitter event claimed (1 ∷ []) (claimed ∷ []) 5
      95000000 96000000 refl refl (λ h. omega arith)

drain_once-Bounded_example :
    Bounded (drain_once fnmatch no_tenant (webhook ∷ []) no_jitter 5 100 queue).0.deliveries
drain_once-Bounded_example =
    drain_once-Bounded fnmatch no_tenant (webhook ∷ []) no_jitter 5 100 queue refl

fan_out_once-Distinct_example :
    Distinct (fan_out_once fnmatch no_tenant (webhook ∷ []) 5 queue).0.deliveries
fan_out_once-Distinct_example = fan_out_once-Distinct fnmatch no_tenant (webhook ∷ []) 5 queue refl
