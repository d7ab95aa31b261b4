-- ===== src/Audit/Drain/FanOut.antt =====
-- The fan-out of pending events into deliveries (audit/worker/drain.py `_delivery_tenant`, `_wants`,
-- `fan_out_once`). The configuration that a filter reads is the adapter's own, by tenant.
use osds.Prelude.{
  ℕ, ◌+◌, String, Bool, true, false, not, ◌&&◌, Option, none, some, List, [], ◌∷◌, ◌++◌, take, find,
  select, any, ◌==◌, if◌then◌else◌,
}
use text.Mathlib.Text.{◌==◌ as str_eq}
use osds.Audit.Drain.State.{EventStatus, OutboxEvent, DeliveryStatus, Delivery, Subscriber, Queue}
use osds.Audit.Drain.Attempt.{subscribers_for}

abbrev pub fan_out_cap : ℕ
fan_out_cap = 1000

-- `_delivery_tenant`, where `starts_with` is `str.startswith`
abbrev pub delivery_tenant : (String → String → Bool) → OutboxEvent → Option ℕ
delivery_tenant starts_with event =
    if starts_with event.type "tenant." then none else some event.tenant

-- `_wants`: a filter that throws does not drop the event
abbrev pub wants : (String → String → Bool) → Subscriber → OutboxEvent → Bool
wants starts_with s event = elim s.wants [
  | none ↦ true
  | some f ↦ elim (f event.type (delivery_tenant starts_with event)) [ none ↦ true | some b ↦ b ]
]

abbrev pub is_event_pending : OutboxEvent → Bool
is_event_pending e = elim e.status [
  | EventStatus.pending ↦ true
  | EventStatus.dispatched ↦ false
  | EventStatus.delivered ↦ false
  | EventStatus.dead ↦ false
]

-- the unique constraint on (event, adapter)
abbrev pub is_delivery_of : ℕ → String → Delivery → Bool
is_delivery_of event adapter_id d = d.event == event && str_eq d.adapter_id adapter_id

abbrev pub new_delivery : (String → String → Bool) → ℕ → OutboxEvent → Subscriber → ℕ → Delivery
new_delivery starts_with pk event s now = record {
  pk = pk;
  event = event.pk;
  tenant = delivery_tenant starts_with event;
  subject = event.subject;
  adapter_id = s.id;
  status = DeliveryStatus.pending;
  attempt = 0;
  next_attempt_at = now;
  first_attempted_at = none;
  last_attempted_at = none;
  last_error = "";
  delivered_at = none;
}

-- the loop over the subscribers: the rows, the next key, and how many rows were made
unfoldable pub deliver_to :
    (String → String → Bool)
    → List Subscriber
    → OutboxEvent
    → ℕ
    → List Delivery
    → ℕ
    → ℕ
    → List Delivery × ℕ × ℕ
deliver_to starts_with [] event now rows next_pk made = (rows, next_pk, made)
deliver_to starts_with (s ∷ subs) event now rows next_pk made =
    let is_new = wants starts_with s event && not (any (is_delivery_of event.pk s.id) rows) in
    deliver_to starts_with subs event now
      (if is_new then rows ++ new_delivery starts_with next_pk event s now ∷ [] else rows)
      (if is_new then next_pk + 1 else next_pk) (if is_new then made + 1 else made)

-- the event's row is saved as dispatched
unfoldable pub dispatch : ℕ → ℕ → List OutboxEvent → List OutboxEvent
dispatch pk now [] = []
dispatch pk now (e ∷ events) =
    (if e.pk == pk
      then record e { status = EventStatus.dispatched; dispatched_at = some now }
      else e)
    ∷ dispatch pk now events

abbrev pub is_event : ℕ → OutboxEvent → Bool
is_event pk e = e.pk == pk

-- the transaction of one event: the row is read again, and passed over if it is no longer pending
unfoldable pub fan_out_event :
    (String → String → Bool)
    → (String → String → Bool)
    → List Subscriber
    → ℕ
    → OutboxEvent
    → Queue
    → Queue × ℕ × ℕ
unfolding deliver_to dispatch
fan_out_event fnmatch starts_with registry now e q = elim (find (is_event e.pk) q.events) [
  | none ↦ (q, 0, 0)
  | some locked ↦
      if is_event_pending locked
      then (let (rows, next_pk, made) =
            deliver_to starts_with (subscribers_for fnmatch registry locked.type) locked now
              q.deliveries q.next_pk 0 in
          (
            record {
              events = dispatch locked.pk now q.events;
              deliveries = rows;
              next_pk = next_pk;
            },
            1,
            made,
          ))
      else (q, 0, 0)
]

-- the loop over the events
unfoldable pub fan_out :
    (String → String → Bool)
    → (String → String → Bool)
    → List Subscriber
    → ℕ
    → List OutboxEvent
    → Queue
    → ℕ
    → ℕ
    → Queue × ℕ × ℕ
fan_out fnmatch starts_with registry now [] q events created = (q, events, created)
fan_out fnmatch starts_with registry now (e ∷ pending) q events created =
    let (q', fanned, made) = fan_out_event fnmatch starts_with registry now e q in
    fan_out fnmatch starts_with registry now pending q' (events + fanned) (created + made)

-- `fan_out_once`: the queue, and `FanOutResult`
unfoldable pub fan_out_once :
    (String → String → Bool)
    → (String → String → Bool)
    → List Subscriber
    → ℕ
    → Queue
    → Queue × ℕ × ℕ
unfolding fan_out
fan_out_once fnmatch starts_with registry now q =
    fan_out fnmatch starts_with registry now (take fan_out_cap (select is_event_pending q.events)) q
      0 0
