-- ===== src/Billing/Entitlements/Mutate.antt =====
-- `_mutate` (billing/entitlements.py): the field changes of each trigger, and the facts that the
-- events need.
use osds.Prelude.{
  ℕ, ◌+◌, String, Bool, true, false, ◌||◌, Option, none, some, [], ◌∷◌, if◌then◌else◌, is_some,
  or_else, or_default, text_or, is_empty, ok, ◌>>=◌, ◌>>◌, need,
}
use osds.Prelude.Time.{pos, days_between}
use osds.Billing.Model.{
  Status, trialing, active, past_due, grace, expired, canceled, comped, BillingMode, recurring,
  Entitlement, Trigger, start, start_trial, payment_succeeded, payment_failed, refund,
  subscription_ended, cancel, term_ended, dunning_elapsed, grace_elapsed, period_elapsed,
  comp_expired, trial_overdue, grant, revoke, override,
}
use osds.Billing.Machine.{Rule, to_status, any_status, key_error, is_status, grace_window}
use osds.Billing.Entitlements.Fields.{
  Params, Facts, base_facts, need_all, reset_lifecycle, clear_comp, enter_dunning, next_attempts,
  Mutated,
}
use osds.Billing.Entitlements.Override.{mutate_override}

-- `start` and `start_trial`
mutate_start : Bool → Entitlement → ℕ → Params → Mutated
unfolding reset_lifecycle clear_comp
mutate_start trial ent now p = do
  need_all ((is_some p.tier, "tier") ∷ [])
  need_all (
      if trial
      then (is_some p.trial_ends_at, "trial_ends_at") ∷ []
      else (is_some p.period_end, "period_end") ∷ [])
  tier ← need p.tier (key_error "tier")
  ok (
    clear_comp (
        reset_lifecycle (record ent {
          tier = tier;
          billing_mode = or_default p.billing_mode recurring;
          term_days = p.term_days;
          status = if trial then trialing else active;
          started_at = some now;
          trial_ends_at = if trial then p.trial_ends_at else none;
          current_period_end = or_else p.period_end p.trial_ends_at;
          payment_ref = p.payment_ref;
        })),
    base_facts ent,
  )

-- the facts of a payment: how long the entitlement was in dunning or in grace
abbrev payment_facts : Entitlement → ℕ → Facts
payment_facts ent now = record (base_facts ent) {
  days_in_dunning =
      if is_status ent.status past_due
      then elim ent.dunning_started_at [ none ↦ none | some t ↦ some (days_between now t) ]
      else none;
  -- now - (t - GRACE), as (now + GRACE) - t
  days_in_grace =
      if is_status ent.status grace
      then elim ent.grace_ends_at [
        | none ↦ none
        | some t ↦ some (days_between (now + grace_window) t)
      ]
      else if is_status ent.status canceled
      then some (pos 0)
      else none;
}

abbrev paid : Entitlement → Option ℕ → Params → Entitlement
paid ent period_end p = record ent {
  tier = or_default p.tier ent.tier;
  status = active;
  current_period_end = period_end;
  payment_ref = if is_empty p.payment_ref then ent.payment_ref else p.payment_ref;
}

mutate_paid : Entitlement → ℕ → Params → Mutated
unfolding reset_lifecycle clear_comp
mutate_paid ent now p = do
  need_all ((is_some p.period_end, "period_end") ∷ [])
  let e = paid ent p.period_end p
  let e' =
      if is_status ent.status comped
      then clear_comp (record e { billing_mode = or_default p.billing_mode recurring })
      else e
  ok (reset_lifecycle e', payment_facts ent now)

-- `payment_failed` and `trial_overdue`
mutate_failed : String → Entitlement → ℕ → Params → Mutated
unfolding enter_dunning
mutate_failed code ent now p =
    if is_status ent.status past_due || is_status ent.status grace
    then ok (
      record ent {
        failed_attempts = next_attempts ent p.attempt;
        last_failure_code = text_or code ent.last_failure_code;
      },
      base_facts ent,
    )
    else (let e = record (enter_dunning ent now code p.attempt) { status = past_due } in
        ok (
          e,
          record (base_facts ent) {
            attempt = some e.failed_attempts;
            dunning_ends_at = e.dunning_ends_at;
            failure_code = some e.last_failure_code;
          },
        ))

mutate_downgrade : Entitlement → ℕ → Mutated
mutate_downgrade ent now = ok (
  record ent { status = grace; grace_ends_at = some (now + grace_window) },
  record (base_facts ent) { grace_ends_at = some (now + grace_window) },
)

abbrev lands_on : Rule → Status → Bool
lands_on rule s = elim rule.to [ to_status t ↦ is_status t s | any_status ↦ false ]

mutate_cancel : Entitlement → Rule → ℕ → Params → Mutated
mutate_cancel ent rule now p =
    let by = text_or p.canceled_by "owner" in
    let e = record ent { canceled_at = some now; canceled_by = by } in
    let facts = record (base_facts ent) {
      canceled_by = some by;
      reason = some (or_default p.reason "");
    } in
    if lands_on rule canceled
    then ok (
      record e {
        status = canceled;
        cancel_at_period_end = true;
        current_period_end = or_else ent.current_period_end ent.trial_ends_at;
      },
      record facts { at_period_end = some true },
    )
    else ok (record e { status = expired }, record facts { at_period_end = some false })

mutate_expire : Entitlement → Mutated
mutate_expire ent = ok (record ent { status = expired }, base_facts ent)

mutate_grant : Entitlement → ℕ → Params → Mutated
unfolding reset_lifecycle
mutate_grant ent now p = do
  need_all (
      (is_some p.tier, "tier")
      ∷ (is_some p.operator, "operator")
      ∷ (is_some p.reason, "reason")
      ∷ [])
  tier ← need p.tier (key_error "tier")
  reason ← need p.reason (key_error "reason")
  ok (
    reset_lifecycle (record ent {
      tier = tier;
      status = comped;
      billing_mode = BillingMode.comp;
      term_days = none;
      started_at = or_else ent.started_at (some now);
      current_period_end = none;
      trial_ends_at = none;
      comp_granted_by = p.operator;
      comp_reason = reason;
      comp_expires_at = p.expires_at;
    }),
    base_facts ent,
  )

mutate_revoke : Entitlement → Params → Mutated
unfolding clear_comp
mutate_revoke ent p = do
  need_all ((is_some p.operator, "operator") ∷ (is_some p.reason, "reason") ∷ [])
  ok (clear_comp (record ent { status = expired }), base_facts ent)

mutate_fields : Trigger → Entitlement → Rule → ℕ → Params → Mutated
unfolding mutate_start mutate_paid mutate_failed mutate_downgrade mutate_cancel mutate_expire
    mutate_grant mutate_revoke mutate_override
mutate_fields start ent rule now p = mutate_start false ent now p
mutate_fields start_trial ent rule now p = mutate_start true ent now p
mutate_fields payment_succeeded ent rule now p = mutate_paid ent now p
mutate_fields payment_failed ent rule now p = mutate_failed p.failure_code ent now p
mutate_fields trial_overdue ent rule now p = mutate_failed "trial_unreported" ent now p
mutate_fields dunning_elapsed ent rule now p = mutate_downgrade ent now
mutate_fields cancel ent rule now p = mutate_cancel ent rule now p
mutate_fields refund ent rule now p = mutate_expire ent
mutate_fields subscription_ended ent rule now p = mutate_expire ent
mutate_fields term_ended ent rule now p = mutate_expire ent
mutate_fields grace_elapsed ent rule now p = mutate_expire ent
mutate_fields period_elapsed ent rule now p = mutate_expire ent
mutate_fields comp_expired ent rule now p = mutate_expire ent
mutate_fields grant ent rule now p = mutate_grant ent now p
mutate_fields revoke ent rule now p = mutate_revoke ent p
mutate_fields override ent rule now p = mutate_override ent now p

-- what an override recorded "to" is what it landed on
abbrev pub with_status : Entitlement × Facts → Entitlement × Facts
with_status (ent, facts) = (ent, record facts { to_status = some ent.status })

unfoldable pub mutate : Trigger → Entitlement → Rule → ℕ → Params → Mutated
unfolding mutate_fields
mutate trigger ent rule now p = do ok (with_status (← mutate_fields trigger ent rule now p))
