-- ===== src/Audit/Drain/Bounded.antt =====
-- The number of attempts of a delivery (audit/worker/drain.py `drain_once`, MAX_ATTEMPTS).
use osds.Prelude.{
  ℕ, ◌+◌, ◌≡◌, refl, String, Bool, true, not, ◌||◌, List, [], ◌∷◌, ◌++◌, all, find, take, select,
  ltb, inl, inr, Bool-cases, Option-cases, arith,
}
use osds.Audit.Drain.State.{OutboxEvent, Delivery, HandleResult, Subscriber, Queue}
use osds.Audit.Drain.Attempt.{
  max_attempts, Fields, record_row, record_rows, record_as, outcome_of, attempt_delivery,
  subscriber_for, subscribers_for, result_of,
}
use osds.Audit.Drain.Claim.{is_pending, stamp, claim}
use osds.Audit.Drain.FanOut.{
  new_delivery, deliver_to, fan_out_event, fan_out, fan_out_once, fan_out_cap, is_event,
  is_event_pending,
}
use osds.Audit.Drain.Pass.{DrainStats, attempt_pk, attempt_all, drain_once, is_row, is_event_row}

-- A delivery that still waits has had fewer than twelve attempts.
abbrev pub has_attempts : Delivery → Bool
has_attempts d = not (is_pending d.status) || ltb d.attempt max_attempts

-- It holds of every row of the table.
abbrev pub Bounded : List Delivery → Type 0
Bounded rows = all has_attempts rows ≡ true

all-append {ℓ} :
    {A : Type ℓ} (test : A → Bool) (xs ys : List A)
    → all test xs ≡ true
    → all test ys ≡ true
    → all test (xs ++ ys) ≡ true
all-append test [] ys h h' = h'
all-append test (x ∷ xs) ys h h' = ground (arith, all-append test xs ys)

stamp-Bounded :
    (pks : List ℕ) (now : ℕ) (rows : List Delivery) → Bounded rows → Bounded (stamp pks now rows)
unfolding stamp
stamp-Bounded pks now [] b = b
stamp-Bounded pks now (row ∷ rows) b = ground (arith, stamp-Bounded pks now rows)

deliver_to-Bounded :
    (starts_with : String → String → Bool) (subs : List Subscriber) (event : OutboxEvent) (now : ℕ)
    (rows : List Delivery) (next_pk made : ℕ)
    → Bounded rows
    → Bounded (deliver_to starts_with subs event now rows next_pk made).0
unfolding deliver_to
deliver_to-Bounded starts_with [] event now rows next_pk made b = b
deliver_to-Bounded starts_with (s ∷ subs) event now rows next_pk made b =
    deliver_to-Bounded starts_with subs event now _ _ _ (
      ground
        (arith, all-append has_attempts rows (new_delivery starts_with next_pk event s now ∷ [])))

fan_out_event-Bounded :
    (fnmatch starts_with : String → String → Bool) (registry : List Subscriber) (now : ℕ)
    (e : OutboxEvent) (q : Queue)
    → Bounded q.deliveries
    → Bounded (fan_out_event fnmatch starts_with registry now e q).0.deliveries
unfolding fan_out_event
fan_out_event-Bounded fnmatch starts_with registry now e q b =
    elim (Option-cases (find (is_event e.pk) q.events)) [
      | inl h ↦ rw (h, fan_out_event) b
      | inr (locked, h) ↦ elim (Bool-cases (is_event_pending locked)) [
        | inl p ↦
            rw (h, p, fan_out_event)
              (deliver_to-Bounded starts_with (subscribers_for fnmatch registry locked.type) locked
                now q.deliveries q.next_pk 0 b)
        | inr p ↦ rw (h, p, fan_out_event) b
      ]
    ]

fan_out-Bounded :
    (fnmatch starts_with : String → String → Bool) (registry : List Subscriber) (now : ℕ)
    (events : List OutboxEvent) (q : Queue) (fanned created : ℕ)
    → Bounded q.deliveries
    → Bounded (fan_out fnmatch starts_with registry now events q fanned created).0.deliveries
unfolding fan_out
fan_out-Bounded fnmatch starts_with registry now [] q fanned created b = b
fan_out-Bounded fnmatch starts_with registry now (e ∷ events) q fanned created b =
    fan_out-Bounded fnmatch starts_with registry now events _ _ _
      (fan_out_event-Bounded fnmatch starts_with registry now e q b)

outcome_of-has_attempts :
    (jitter : ℕ → ℕ) (r : HandleResult) (completed now : ℕ) (row : Delivery)
    → has_attempts (record_row now (outcome_of jitter r completed now).0 row) ≡ true
unfolding outcome_of record_row
outcome_of-has_attempts jitter r completed now row = ground arith

record_rows-Bounded :
    (d : Delivery) (now : ℕ) (f : Fields) (rows : List Delivery)
    → ((row : Delivery) → has_attempts (record_row now f row) ≡ true)
    → Bounded rows
    → Bounded (record_rows rows d now f)
unfolding record_rows
record_rows-Bounded d now f [] g b = b
record_rows-Bounded d now f (row ∷ rows) g b =
    ground (arith, record_rows-Bounded d now f rows g, g row)

attempt_delivery-Bounded :
    (fnmatch : String → String → Bool) (registry : List Subscriber) (jitter : ℕ → ℕ)
    (event : OutboxEvent) (d : Delivery) (rows : List Delivery) (now : ℕ)
    → Bounded rows
    → Bounded (attempt_delivery fnmatch registry jitter event d rows now).0
unfolding record_as attempt_delivery
attempt_delivery-Bounded fnmatch registry jitter event d rows now b =
    elim (Option-cases (subscriber_for fnmatch registry event.type d)) [
      | inl e ↦
          rw (e, attempt_delivery)
            (record_rows-Bounded d now _ rows (λ row. unfold record_row in refl) b)
      | inr (s, e) ↦
          rw (e, attempt_delivery)
            (record_rows-Bounded d now _ rows
              (outcome_of-has_attempts jitter (result_of (s.handle event d.tenant now))
                (d.attempt + 1) now)
              b)
    ]

attempt_pk-Bounded :
    (fnmatch : String → String → Bool) (registry : List Subscriber) (jitter : ℕ → ℕ) (now pk : ℕ)
    (q : Queue) (stats : DrainStats)
    → Bounded q.deliveries
    → Bounded (attempt_pk fnmatch registry jitter now pk q stats).0.deliveries
unfolding attempt_pk
attempt_pk-Bounded fnmatch registry jitter now pk q stats b =
    elim (Option-cases (find (is_row pk) q.deliveries)) [
      | inl h ↦ rw (h, attempt_pk) b
      | inr (d, h) ↦ elim (Option-cases (find (is_event_row d.event) q.events)) [
        | inl h' ↦ rw (h, h', attempt_pk) b
        | inr (event, h') ↦
            rw (h, h', attempt_pk)
              (attempt_delivery-Bounded fnmatch registry jitter event d q.deliveries now b)
      ]
    ]

attempt_all-Bounded :
    (fnmatch : String → String → Bool) (registry : List Subscriber) (jitter : ℕ → ℕ) (now : ℕ)
    (pks : List ℕ) (q : Queue) (stats : DrainStats)
    → Bounded q.deliveries
    → Bounded (attempt_all fnmatch registry jitter now pks q stats).0.deliveries
unfolding attempt_all
attempt_all-Bounded fnmatch registry jitter now [] q stats b = b
attempt_all-Bounded fnmatch registry jitter now (pk ∷ pks) q stats b =
    attempt_all-Bounded fnmatch registry jitter now pks _ _
      (attempt_pk-Bounded fnmatch registry jitter now pk q stats b)

-- If every delivery that waits has had fewer than twelve attempts, this is so after a pass.
pub drain_once-Bounded :
    (fnmatch starts_with : String → String → Bool) (registry : List Subscriber) (jitter : ℕ → ℕ)
    (now batch : ℕ) (q : Queue)
    → Bounded q.deliveries
    → Bounded (drain_once fnmatch starts_with registry jitter now batch q).0.deliveries
unfolding drain_once fan_out_once claim
drain_once-Bounded fnmatch starts_with registry jitter now batch q b =
    attempt_all-Bounded fnmatch registry jitter now _ _ _ (
      stamp-Bounded _ now _ (
        fan_out-Bounded fnmatch starts_with registry now
          (take fan_out_cap (select is_event_pending q.events)) q 0 0 b))
