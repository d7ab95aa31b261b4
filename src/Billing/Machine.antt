-- ===== src/Billing/Machine.antt =====
-- The entitlement state machine (billing/machine.py): the triggers, the table of legal moves, and
-- the conditions of the clock's triggers.
pub mod Table
use osds.Prelude.{
  ℕ, ◌+◌, String, Bool, true, false, ◌&&◌, Option, none, some, List, [], ◌∷◌, ◌++◌, map, find, any,
  leb, ◌==◌, if◌then◌else◌, Result, ok, err,
}
use osds.Prelude.Time.{days}
use osds.Billing.Model.{
  Status, trialing, active, past_due, grace, expired, canceled, comped, BillingMode, Entitlement,
  status_code, Trigger, start, start_trial, payment_succeeded, payment_failed, refund,
  subscription_ended, cancel, term_ended, dunning_elapsed, grace_elapsed, period_elapsed,
  comp_expired, trial_overdue, grant, revoke, override, trigger_code, EventName, ev_started,
  ev_converted, ev_dunning_started, ev_recovered, ev_downgraded, ev_restored, ev_expired,
  ev_canceled, ev_overridden, Cause, TierCause,
}

-- past_due -> grace
abbrev pub dunning_window : ℕ
dunning_window = days 14

-- grace -> expired
abbrev pub grace_window : ℕ
grace_window = days 30

-- how long a trial may go unreported
abbrev pub trial_overdue_window : ℕ
trial_overdue_window = days 3

-- how long before a term's end the renewal notice goes out
abbrev pub renewal_notice : ℕ
renewal_notice = days 10

-- Python compares the members of an enumeration by value.
abbrev pub is_status : Status → Status → Bool
is_status a b = status_code a == status_code b

abbrev pub is_trigger : Trigger → Trigger → Bool
is_trigger a b = trigger_code a == trigger_code b

-- `Rule.to`: a status, or "*" for the one that an override names
pub data Target : Type 0 where
  to_status : Status → Target
  any_status : Target

pub record Rule : Type 0 where
  pub to : Target
  pub events : List EventName
  pub expired_cause : Cause
  pub tier_cause : TierCause
  pub row : String

-- `_rule`
abbrev rule : Status → List EventName → Cause → TierCause → String → Rule
rule to events cause tier row = record {
  to = to_status to;
  events = events;
  expired_cause = cause;
  tier_cause = tier;
  row = row;
}

abbrev pub Entry : Type 0
Entry = Status × Trigger × Rule

-- `PERK_STATUSES`
abbrev pub perk_statuses : List Status
perk_statuses = trialing ∷ active ∷ past_due ∷ canceled ∷ comped ∷ []

-- `PAID_STATUSES`
abbrev pub paid_statuses : List Status
paid_statuses = trialing ∷ active ∷ past_due ∷ grace ∷ canceled ∷ []

-- `ANY_STATUS`
abbrev pub all_statuses : List Status
all_statuses = Status.none ∷ trialing ∷ active ∷ past_due ∷ grace ∷ expired ∷ canceled ∷ comped ∷ []

-- `status in PERK_STATUSES`
abbrev pub is_in : List Status → Status → Bool
is_in l s = any (is_status s) l

starting : List Entry
starting =
    map
      (λ frm. (
        frm,
        start,
        rule active (ev_started ∷ []) Cause.none TierCause.purchase
            (if is_status frm Status.none then "2" else "G1/G2/G5"),
      ))
      (Status.none ∷ expired ∷ comped ∷ canceled ∷ [])
    ++ map
        (λ frm. (
          frm,
          start_trial,
          rule trialing (ev_started ∷ []) Cause.none TierCause.purchase
              (if is_status frm Status.none then "1" else "G1"),
        ))
        (Status.none ∷ expired ∷ [])

from_trialing : List Entry
from_trialing =
    (trialing, payment_succeeded, rule active (ev_converted ∷ []) Cause.none TierCause.none "3")
    ∷ (
      trialing,
      payment_failed,
      rule past_due (ev_dunning_started ∷ []) Cause.none TierCause.none "4",
    )
    ∷ (trialing, cancel, rule canceled (ev_canceled ∷ []) Cause.none TierCause.none "5")
    ∷ (
      trialing,
      trial_overdue,
      rule past_due (ev_dunning_started ∷ []) Cause.none TierCause.none "G8",
    )
    ∷ []

from_active : List Entry
from_active =
    (active, payment_succeeded, rule active [] Cause.none TierCause.upgrade "G6")
    ∷ (
      active,
      payment_failed,
      rule past_due (ev_dunning_started ∷ []) Cause.none TierCause.none "6",
    )
    ∷ (active, cancel, rule canceled (ev_canceled ∷ []) Cause.none TierCause.none "7")
    ∷ (active, term_ended, rule expired (ev_expired ∷ []) Cause.term_ended TierCause.expiry "9")
    ∷ []

from_past_due : List Entry
from_past_due =
    (past_due, payment_succeeded, rule active (ev_recovered ∷ []) Cause.none TierCause.none "10")
    ∷ (past_due, payment_failed, rule past_due [] Cause.none TierCause.none "G6")
    ∷ (past_due, dunning_elapsed, rule grace (ev_downgraded ∷ []) Cause.none TierCause.grace "11")
    ∷ (past_due, cancel, rule canceled (ev_canceled ∷ []) Cause.none TierCause.none "G3")
    ∷ []

from_grace : List Entry
from_grace =
    (grace, payment_succeeded, rule active (ev_restored ∷ []) Cause.none TierCause.restore "12")
    ∷ (grace, payment_failed, rule grace [] Cause.none TierCause.none "G6")
    ∷ (
      grace,
      grace_elapsed,
      rule expired (ev_expired ∷ []) Cause.grace_elapsed TierCause.expiry "13",
    )
    ∷ (
      grace,
      cancel,
      rule expired (ev_canceled ∷ ev_expired ∷ []) Cause.canceled TierCause.expiry "G3",
    )
    ∷ []

from_canceled : List Entry
from_canceled =
    (canceled, payment_succeeded, rule active (ev_restored ∷ []) Cause.none TierCause.none "G2")
    ∷ (
      canceled,
      period_elapsed,
      rule expired (ev_expired ∷ []) Cause.period_ended TierCause.expiry "14",
    )
    ∷ []

from_comped : List Entry
from_comped =
    (comped, payment_succeeded, rule active [] Cause.none TierCause.purchase "G5")
    ∷ (
      comped,
      comp_expired,
      rule expired (ev_expired ∷ []) Cause.comp_expired TierCause.expiry "15",
    )
    ∷ (
      comped,
      revoke,
      rule expired (ev_overridden ∷ ev_expired ∷ []) Cause.revoked TierCause.revoke "G9",
    )
    ∷ []

-- the loop over `PAID_STATUSES`, two entries a round
ended : List Status → List Entry
ended [] = []
ended (frm ∷ l) =
    (
      frm,
      refund,
      rule expired (ev_expired ∷ []) Cause.refund TierCause.refund
          (if is_status frm active then "8" else "G4"),
    )
    ∷ (frm, subscription_ended, rule expired (ev_expired ∷ []) Cause.canceled TierCause.expiry "G7")
    ∷ ended l

-- the loop over `ANY_STATUS`
operated : List Status → List Entry
operated [] = []
operated (frm ∷ l) =
    (frm, grant, rule comped (ev_overridden ∷ []) Cause.none TierCause.comp "16")
    ∷ (
      frm,
      override,
      record {
        to = any_status;
        events = ev_overridden ∷ [];
        expired_cause = Cause.none;
        tier_cause = TierCause.override;
        row = "16";
      },
    )
    ∷ operated l

-- `_build`: the entries in the order in which it adds them. `add` asserts that no key comes twice.
unfoldable pub transitions : List Entry
unfolding starting from_trialing from_active from_past_due from_grace from_canceled from_comped
    ended operated
transitions =
    starting
    ++ (from_trialing
        ++ (from_active
            ++ (from_past_due
                ++ (from_grace
                    ++ (from_canceled
                        ++ (from_comped ++ (ended paid_statuses ++ operated all_statuses)))))))

-- what a move raises; nothing is written in any of these cases
pub data Error : Type 0 where
  invalid_transition : Status → Trigger → Error
  not_due : Trigger → Error
  missing_parameters : List String → Error
  unknown_status : String → Error
  key_error : String → Error
  no_listing : Error

abbrev pub has_key : Status → Trigger → Entry → Bool
has_key s t (frm, trigger, _) = is_status frm s && is_trigger trigger t

abbrev pub found_rule : Status → Trigger → Option Entry → Result Error Rule
found_rule s t none = err (invalid_transition s t)
found_rule s t (some (_, _, r)) = ok r

unfoldable pub rule_for : Status → Trigger → Result Error Rule
unfolding transitions
rule_for s t = found_rule s t (find (has_key s t) transitions)

-- `t is not None and t <= now`
abbrev pub elapsed : Option ℕ → ℕ → Bool
elapsed none now = false
elapsed (some t) now = leb t now

abbrev pub is_term : BillingMode → Bool
is_term BillingMode.term = true
is_term _ = false

unfoldable pub is_due : Entitlement → Trigger → ℕ → Bool
is_due ent dunning_elapsed now = is_status ent.status past_due && elapsed ent.dunning_ends_at now
is_due ent grace_elapsed now = is_status ent.status grace && elapsed ent.grace_ends_at now
is_due ent period_elapsed now = is_status ent.status canceled && elapsed ent.current_period_end now
is_due ent comp_expired now = is_status ent.status comped && elapsed ent.comp_expires_at now
is_due ent term_ended now =
    is_status ent.status active && (is_term ent.billing_mode && elapsed ent.current_period_end now)
is_due ent trial_overdue now =
    is_status ent.status trialing
    && elapsed (elim ent.trial_ends_at [ none ↦ none | some t ↦ some (t + trial_overdue_window) ])
        now
is_due ent _ now = true

-- `CLOCK_TRIGGERS`
abbrev pub clock_triggers : List Trigger
clock_triggers =
    dunning_elapsed ∷ grace_elapsed ∷ period_elapsed ∷ comp_expired ∷ term_ended ∷ trial_overdue
    ∷ []

-- `trigger in CLOCK_TRIGGERS`
abbrev pub is_clock : Trigger → Bool
is_clock t = any (is_trigger t) clock_triggers
