-- ===== src/Audit/Drain/Pass.antt =====
-- One pass of the webhook drain (audit/worker/drain.py `drain_once`): the fan-out, the claim, and an
-- attempt of each claimed delivery, on the queue that the one before left.
use osds.Prelude.{ℕ, ◌+◌, String, Bool, none, some, List, [], ◌∷◌, find, ◌==◌}
use osds.Audit.Drain.State.{OutboxEvent, Delivery, Subscriber, Queue}
use osds.Audit.Drain.Attempt.{Disposition, attempt_delivery}
use osds.Audit.Drain.Claim.{claim}
use osds.Audit.Drain.FanOut.{fan_out_once}

-- `DrainStats`
pub record DrainStats : Type 0 where
  pub events_fanned_out : ℕ
  pub deliveries_created : ℕ
  pub deliveries_attempted : ℕ
  pub delivered : ℕ
  pub retried : ℕ
  pub dead_lettered : ℕ
  pub stale_discarded : ℕ

abbrev count : Disposition → DrainStats → DrainStats
count Disposition.delivered s = record s {
  deliveries_attempted = s.deliveries_attempted + 1;
  delivered = s.delivered + 1;
}
count Disposition.retried s = record s {
  deliveries_attempted = s.deliveries_attempted + 1;
  retried = s.retried + 1;
}
count Disposition.dead s = record s {
  deliveries_attempted = s.deliveries_attempted + 1;
  dead_lettered = s.dead_lettered + 1;
}
count Disposition.discarded s = record s {
  deliveries_attempted = s.deliveries_attempted + 1;
  stale_discarded = s.stale_discarded + 1;
}

abbrev pub is_row : ℕ → Delivery → Bool
is_row pk d = d.pk == pk

abbrev pub is_event_row : ℕ → OutboxEvent → Bool
is_event_row pk e = e.pk == pk

-- the attempt of one claimed key; its row and the row's event are there, by the foreign keys
unfoldable pub attempt_pk :
    (String → String → Bool)
    → List Subscriber
    → (ℕ → ℕ)
    → ℕ
    → ℕ
    → Queue
    → DrainStats
    → Queue × DrainStats
unfolding attempt_delivery
attempt_pk fnmatch registry jitter now pk q stats = elim (find (is_row pk) q.deliveries) [
  | none ↦ (q, stats)
  | some d ↦ elim (find (is_event_row d.event) q.events) [
    | none ↦ (q, stats)
    | some event ↦
        let (rows, answer) = attempt_delivery fnmatch registry jitter event d q.deliveries now in
        (record q { deliveries = rows }, count answer stats)
  ]
]

unfoldable pub attempt_all :
    (String → String → Bool)
    → List Subscriber
    → (ℕ → ℕ)
    → ℕ
    → List ℕ
    → Queue
    → DrainStats
    → Queue × DrainStats
unfolding attempt_pk
attempt_all fnmatch registry jitter now [] q stats = (q, stats)
attempt_all fnmatch registry jitter now (pk ∷ pks) q stats =
    let (q', stats') = attempt_pk fnmatch registry jitter now pk q stats in
    attempt_all fnmatch registry jitter now pks q' stats'

-- `drain_once`
unfoldable pub drain_once :
    (String → String → Bool)
    → (String → String → Bool)
    → List Subscriber
    → (ℕ → ℕ)
    → ℕ
    → ℕ
    → Queue
    → Queue × DrainStats
drain_once fnmatch starts_with registry jitter now batch q =
    let (fanned, events, made) = fan_out_once fnmatch starts_with registry now q in
    let (rows, pks) = claim fanned.deliveries now batch in
    attempt_all fnmatch registry jitter now pks (record fanned { deliveries = rows })
      (record {
        events_fanned_out = events;
        deliveries_created = made;
        deliveries_attempted = 0;
        delivered = 0;
        retried = 0;
        dead_lettered = 0;
        stale_discarded = 0;
      })
