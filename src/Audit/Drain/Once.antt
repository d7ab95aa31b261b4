-- ===== src/Audit/Drain/Once.antt =====
-- The fan-out makes each delivery once (audit/worker/drain.py `fan_out_once`).
use osds.Prelude.{
  ℕ, ◌≡◌, refl, String, Bool, true, false, not, ◌&&◌, ◌||◌, List, [], ◌∷◌, ◌++◌, any, find, take,
  select, inl, inr, Bool-cases, Option-cases, arith,
}
use text.Mathlib.Text.{◌==◌ as str_eq}
use text.Mathlib.TextEquality.{eq_iff}
use osds.Audit.Drain.State.{OutboxEvent, Delivery, Subscriber, Queue}
use osds.Audit.Drain.Attempt.{subscribers_for}
use osds.Audit.Drain.FanOut.{
  is_delivery_of, deliver_to, fan_out_event, fan_out, fan_out_once, fan_out_cap, is_event,
  new_delivery, is_event_pending,
}

-- No two rows have the same event and adapter.
abbrev pub distinct : List Delivery → Bool
distinct [] = true
distinct (d ∷ rows) = not (any (is_delivery_of d.event d.adapter_id) rows) && distinct rows

-- It holds of the table.
abbrev pub Distinct : List Delivery → Type 0
Distinct rows = distinct rows ≡ true

str_eq_sym : (a b : String) → str_eq a b ≡ str_eq b a
str_eq_sym a b = elim (Bool-cases (str_eq a b)) [
  | inl e ↦ rw ((eq_iff a b).0 e) refl
  | inr e ↦ elim (Bool-cases (str_eq b a)) [
    | inl e' ↦ rw ((eq_iff b a).0 e') refl
    | inr e' ↦ rw (e, e') refl
  ]
]

any-append_new :
    (event : ℕ) (adapter_id : String) (rows : List Delivery) (new : Delivery)
    → any (is_delivery_of event adapter_id) (rows ++ new ∷ [])
      ≡ any (is_delivery_of event adapter_id) rows || is_delivery_of event adapter_id new
any-append_new event adapter_id [] new = ground arith
any-append_new event adapter_id (d ∷ rows) new =
    ground (arith, any-append_new event adapter_id rows new)

Distinct-append :
    (rows : List Delivery) (new : Delivery)
    → any (is_delivery_of new.event new.adapter_id) rows ≡ false
    → Distinct rows
    → Distinct (rows ++ new ∷ [])
Distinct-append [] new h u = refl
Distinct-append (d ∷ rows) new h u = ground (
  arith,
  Distinct-append rows new,
  any-append_new d.event d.adapter_id rows new,
  str_eq_sym d.adapter_id new.adapter_id,
)

deliver_to-Distinct :
    (starts_with : String → String → Bool) (subs : List Subscriber) (event : OutboxEvent) (now : ℕ)
    (rows : List Delivery) (next_pk made : ℕ)
    → Distinct rows
    → Distinct (deliver_to starts_with subs event now rows next_pk made).0
unfolding deliver_to
deliver_to-Distinct starts_with [] event now rows next_pk made u = u
deliver_to-Distinct starts_with (s ∷ subs) event now rows next_pk made u =
    deliver_to-Distinct starts_with subs event now _ _ _
      (ground (arith, Distinct-append rows (new_delivery starts_with next_pk event s now)))

fan_out_event-Distinct :
    (fnmatch starts_with : String → String → Bool) (registry : List Subscriber) (now : ℕ)
    (e : OutboxEvent) (q : Queue)
    → Distinct q.deliveries
    → Distinct (fan_out_event fnmatch starts_with registry now e q).0.deliveries
unfolding fan_out_event
fan_out_event-Distinct fnmatch starts_with registry now e q u =
    elim (Option-cases (find (is_event e.pk) q.events)) [
      | inl h ↦ rw (h, fan_out_event) u
      | inr (locked, h) ↦ elim (Bool-cases (is_event_pending locked)) [
        | inl p ↦
            rw (h, p, fan_out_event)
              (deliver_to-Distinct starts_with (subscribers_for fnmatch registry locked.type) locked
                now q.deliveries q.next_pk 0 u)
        | inr p ↦ rw (h, p, fan_out_event) u
      ]
    ]

fan_out-Distinct :
    (fnmatch starts_with : String → String → Bool) (registry : List Subscriber) (now : ℕ)
    (events : List OutboxEvent) (q : Queue) (fanned created : ℕ)
    → Distinct q.deliveries
    → Distinct (fan_out fnmatch starts_with registry now events q fanned created).0.deliveries
unfolding fan_out
fan_out-Distinct fnmatch starts_with registry now [] q fanned created u = u
fan_out-Distinct fnmatch starts_with registry now (e ∷ events) q fanned created u =
    fan_out-Distinct fnmatch starts_with registry now events _ _ _
      (fan_out_event-Distinct fnmatch starts_with registry now e q u)

-- If no two deliveries have the same event and adapter, this is so after the fan-out: whatever it is
-- run on, an event that already has a delivery to an adapter gets no second one.
pub fan_out_once-Distinct :
    (fnmatch starts_with : String → String → Bool) (registry : List Subscriber) (now : ℕ)
    (q : Queue)
    → Distinct q.deliveries
    → Distinct (fan_out_once fnmatch starts_with registry now q).0.deliveries
unfolding fan_out_once
fan_out_once-Distinct fnmatch starts_with registry now q u =
    fan_out-Distinct fnmatch starts_with registry now
      (take fan_out_cap (select is_event_pending q.events)) q 0 0 u
