-- ===== src/Billing/Entitlements/Emit.antt =====
-- The events of a move (billing/entitlements.py `_event_data` and the loop of `emit`).
use osds.Prelude.{ℕ, String, List, [], ◌∷◌, or_default, Result, ok, ◌>>=◌, need}
use osds.Prelude.Time.{pos}
use osds.Billing.Model.{
  Status, Entitlement, EventName, ev_started, ev_converted, ev_dunning_started, ev_recovered,
  ev_downgraded, ev_restored, ev_expired, ev_canceled, ev_overridden,
}
use osds.Audit.Actor.{Actor}
use osds.Billing.Events.{
  EventData, entitlement_started, entitlement_trial_converted, entitlement_dunning_started,
  entitlement_recovered, entitlement_downgraded, entitlement_restored, entitlement_expired,
  entitlement_canceled, entitlement_overridden, Event,
}
use osds.Billing.Machine.{Rule, Error, key_error}
use osds.Billing.Entitlements.Fields.{Params, Facts}

-- `_event_data`; reading a fact that was not set is a `KeyError`
unfoldable pub event_data :
    Entitlement → ℕ → EventName → Rule → Facts → Params → Status → Result Error EventData
event_data ent lid ev_started rule facts p prior = ok (
    entitlement_started ent.public_id lid ent.tier.key ent.billing_mode ent.current_period_end
      ent.trial_ends_at)
event_data ent lid ev_converted rule facts p prior =
    ok (entitlement_trial_converted ent.public_id lid ent.tier.key ent.current_period_end)
event_data ent lid ev_dunning_started rule facts p prior = do
  attempt ← need facts.attempt (key_error "attempt")
  ends ← need facts.dunning_ends_at (key_error "dunning_ends_at")
  code ← need facts.failure_code (key_error "failure_code")
  ok (entitlement_dunning_started ent.public_id lid attempt ends code)
event_data ent lid ev_recovered rule facts p prior =
    ok (entitlement_recovered ent.public_id lid (or_default facts.days_in_dunning (pos 0)))
event_data ent lid ev_downgraded rule facts p prior = do
  ends ← need facts.grace_ends_at (key_error "grace_ends_at")
  ok (entitlement_downgraded ent.public_id lid facts.from_tier facts.to_tier ends)
event_data ent lid ev_restored rule facts p prior =
    ok
      (entitlement_restored ent.public_id lid ent.tier.key (or_default facts.days_in_grace (pos 0)))
event_data ent lid ev_expired rule facts p prior =
    ok (entitlement_expired ent.public_id lid facts.from_tier rule.expired_cause)
event_data ent lid ev_canceled rule facts p prior = do
  at_end ← need facts.at_period_end (key_error "at_period_end")
  by ← need facts.canceled_by (key_error "canceled_by")
  ok (entitlement_canceled ent.public_id lid at_end (or_default facts.reason "") by)
event_data ent lid ev_overridden rule facts p prior = do
  operator ← need p.operator (key_error "operator")
  reason ← need p.reason (key_error "reason")
  ok (entitlement_overridden ent.public_id lid operator reason prior ent.status)

-- the loop of `emit` over the rule's events
unfoldable pub emit_all :
    List EventName
    → (EventName → Result Error EventData)
    → ℕ
    → Actor
    → String
    → Result Error (List Event)
emit_all [] data_of subject actor origin = ok []
emit_all (name ∷ names) data_of subject actor origin = do
  content ← data_of name
  rest ← emit_all names data_of subject actor origin
  ok (record { subject = subject; actor = actor; origin = origin; content = content } ∷ rest)
