-- ===== src/Billing/Entitlements/Override.antt =====
-- The branch of `_mutate` (billing/entitlements.py) for an operator's override.
use osds.Prelude.{
  ℕ, ◌+◌, String, true, ◌||◌, Option, none, some, [], ◌∷◌, if◌then◌else◌, is_some, or_else,
  or_default, Result, ok, err, ◌>>=◌, ◌>>◌, need,
}
use text.Mathlib.Text.{◌==◌ as str_eq}
use osds.Billing.Model.{
  Status, trialing, active, past_due, grace, expired, canceled, comped, Entitlement,
}
use osds.Billing.Machine.{Error, unknown_status, key_error, is_status, grace_window}
use osds.Billing.Entitlements.Fields.{
  Params, base_facts, need_all, reset_lifecycle, clear_comp, enter_dunning, Mutated,
}

-- the member of `Entitlement.Status` with this value
unfoldable pub status_of_value : String → Option Status
status_of_value v =
    if str_eq v "none"
    then some Status.none
    else if str_eq v "trialing"
    then some trialing
    else if str_eq v "active"
    then some active
    else if str_eq v "past_due"
    then some past_due
    else if str_eq v "grace"
    then some grace
    else if str_eq v "expired"
    then some expired
    else if str_eq v "canceled"
    then some canceled
    else if str_eq v "comped"
    then some comped
    else none

-- the tail of an override's branch, common to every target
abbrev override_end : Status → Entitlement → Entitlement
override_end to ent =
    let e = if is_status to Status.none || is_status to expired then reset_lifecycle ent else ent in
    if is_status to comped then e else clear_comp e

-- the part of an override that depends on the target
unfoldable pub override_to : Status → Entitlement → ℕ → Params → Result Error Entitlement
unfolding enter_dunning
override_to trialing ent now p = do
  need_all ((is_some p.trial_ends_at, "trial_ends_at") ∷ [])
  ok (record ent {
    trial_ends_at = p.trial_ends_at;
    current_period_end = or_else ent.current_period_end p.trial_ends_at;
  })
override_to past_due ent now p = ok (enter_dunning ent now "override" none)
override_to grace ent now p = ok (record ent { grace_ends_at = some (now + grace_window) })
override_to canceled ent now p = do
  need_all ((is_some p.period_end, "period_end") ∷ [])
  ok (record ent { cancel_at_period_end = true; canceled_at = some now; canceled_by = "operator" })
override_to _ ent now p = ok ent

unfoldable pub override_known : Option Status → String → Entitlement → ℕ → Params → Mutated
unfolding override_to reset_lifecycle clear_comp
override_known none v ent now p = err (unknown_status v)
override_known (some to) v ent now p = do
  e ←
      override_to to
        (record ent {
          tier = or_default p.tier ent.tier;
          status = to;
          current_period_end = or_else p.period_end ent.current_period_end;
        })
        now p
  ok (override_end to e, base_facts ent)

unfoldable pub mutate_override : Entitlement → ℕ → Params → Mutated
unfolding override_known
mutate_override ent now p = do
  need_all (
      (is_some p.to_status, "to_status")
      ∷ (is_some p.operator, "operator")
      ∷ (is_some p.reason, "reason")
      ∷ [])
  v ← need p.to_status (key_error "to_status")
  override_known (status_of_value v) v ent now p
