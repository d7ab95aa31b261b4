-- ===== src/Billing/Machine/Table.antt =====
-- The table of legal moves (billing/machine.py `_build`): no key comes twice, and which moves are
-- legal.
use osds.Prelude.{
  ap, sym, ◌∙◌, err, Result, ℕ, ◌≡◌, refl, Bool, true, ◌&&◌, not, Option, none, some, List, [], ◌∷◌,
  any, if◌then◌else◌, ok, is_ok, arith,
}
use osds.Billing.Model.{
  EventName, ev_started, ev_converted, ev_dunning_started, ev_recovered, ev_downgraded, ev_restored,
  ev_expired, ev_canceled, ev_overridden, Status, trialing, active, past_due, grace, expired,
  canceled, comped, Entitlement, Trigger, start, start_trial, payment_succeeded, payment_failed,
  refund, subscription_ended, cancel, term_ended, dunning_elapsed, grace_elapsed, period_elapsed,
  comp_expired, trial_overdue, grant, revoke, override,
}
use osds.Billing.Machine.{
  invalid_transition, found_rule, Target, to_status, any_status, Rule, Error, Entry, transitions,
  has_key, rule_for, is_due, is_in, is_status, paid_statuses, is_clock,
}

-- The assertion of `add`, at every entry.
abbrev keys_unique : List Entry → Bool
keys_unique [] = true
keys_unique ((s, t, r) ∷ l) = not (any (has_key s t) l) && keys_unique l

transitions_unique : keys_unique transitions ≡ true
unfolding transitions
transitions_unique = refl

-- An independent reading of the table: from which statuses each trigger is legal.
abbrev pub legal : Status → Trigger → Bool
legal s start = is_in (Status.none ∷ expired ∷ comped ∷ canceled ∷ []) s
legal s start_trial = is_in (Status.none ∷ expired ∷ []) s
legal s payment_succeeded = not (is_in (Status.none ∷ expired ∷ []) s)
legal s payment_failed = is_in (trialing ∷ active ∷ past_due ∷ grace ∷ []) s
legal s refund = is_in paid_statuses s
legal s subscription_ended = is_in paid_statuses s
legal s cancel = is_in (trialing ∷ active ∷ past_due ∷ grace ∷ []) s
legal s term_ended = is_status s active
legal s dunning_elapsed = is_status s past_due
legal s grace_elapsed = is_status s grace
legal s period_elapsed = is_status s canceled
legal s comp_expired = is_status s comped
legal s trial_overdue = is_status s trialing
legal s grant = true
legal s revoke = is_status s comped
legal s override = true

-- The table has a rule for a status and a trigger exactly where the reading above allows the move.
pub rule_for-legal : (s : Status) (t : Trigger) → is_ok (rule_for s t) ≡ legal s t
unfolding rule_for
rule_for-legal Status.none start = refl
rule_for-legal Status.none _ = refl
rule_for-legal trialing start = refl
rule_for-legal trialing _ = refl
rule_for-legal active start = refl
rule_for-legal active _ = refl
rule_for-legal past_due start = refl
rule_for-legal past_due _ = refl
rule_for-legal grace start = refl
rule_for-legal grace _ = refl
rule_for-legal expired start = refl
rule_for-legal expired _ = refl
rule_for-legal canceled start = refl
rule_for-legal canceled _ = refl
rule_for-legal comped start = refl
rule_for-legal comped _ = refl

-- Where a legal move lands.
unfoldable pub landing : Status → Trigger → Target
landing s start = to_status active
landing s start_trial = to_status trialing
landing s payment_succeeded = to_status active
landing s payment_failed = if is_status s grace then to_status grace else to_status past_due
landing s trial_overdue = to_status past_due
landing s dunning_elapsed = to_status grace
landing s cancel = if is_status s grace then to_status expired else to_status canceled
landing s grant = to_status comped
landing s override = any_status
landing s _ = to_status expired

abbrev pub target_of : Result Error Rule → Target → Target
target_of (ok r) d = r.to
target_of (err _) d = d

target_of-landing :
    (s : Status) (t : Trigger) → target_of (rule_for s t) (landing s t) ≡ landing s t
unfolding rule_for landing
target_of-landing Status.none start = refl
target_of-landing Status.none _ = refl
target_of-landing trialing start = refl
target_of-landing trialing _ = refl
target_of-landing active start = refl
target_of-landing active _ = refl
target_of-landing past_due start = refl
target_of-landing past_due _ = refl
target_of-landing grace start = refl
target_of-landing grace _ = refl
target_of-landing expired start = refl
target_of-landing expired _ = refl
target_of-landing canceled start = refl
target_of-landing canceled _ = refl
target_of-landing comped start = refl
target_of-landing comped _ = refl

-- The table's target, as the reading above has it.
pub rule_to : (s : Status) (t : Trigger) {r : Rule} → rule_for s t ≡ ok r → r.to ≡ landing s t
rule_to s t h = ap (λ x. target_of x (landing s t)) (sym h) ∙ target_of-landing s t

-- A clock trigger whose condition holds is a legal move.
pub due_legal :
    (ent : Entitlement) (t : Trigger) (now : ℕ)
    → is_clock t ≡ true
    → is_due ent t now ≡ true
    → is_ok (rule_for ent.status t) ≡ true
unfolding is_due
due_legal ent start now c d = ground (arith, rule_for-legal ent.status start)
due_legal ent t now c d = ground (arith, rule_for-legal ent.status t)

pub legal_of_rule : (s : Status) (t : Trigger) {r : Rule} → rule_for s t ≡ ok r → legal s t ≡ true
legal_of_rule s t h = sym (rule_for-legal s t) ∙ ap is_ok h

-- The `entitlement.*` events of a legal move.
unfoldable pub emitted : Status → Trigger → List EventName
emitted s start = ev_started ∷ []
emitted s start_trial = ev_started ∷ []
emitted trialing payment_succeeded = ev_converted ∷ []
emitted past_due payment_succeeded = ev_recovered ∷ []
emitted grace payment_succeeded = ev_restored ∷ []
emitted canceled payment_succeeded = ev_restored ∷ []
emitted trialing payment_failed = ev_dunning_started ∷ []
emitted active payment_failed = ev_dunning_started ∷ []
emitted s trial_overdue = ev_dunning_started ∷ []
emitted s dunning_elapsed = ev_downgraded ∷ []
emitted grace cancel = ev_canceled ∷ ev_expired ∷ []
emitted s cancel = ev_canceled ∷ []
emitted s grant = ev_overridden ∷ []
emitted s override = ev_overridden ∷ []
emitted s revoke = ev_overridden ∷ ev_expired ∷ []
emitted s payment_succeeded = []
emitted s payment_failed = []
emitted s _ = ev_expired ∷ []

abbrev events_of : Result Error Rule → List EventName → List EventName
events_of (ok r) d = r.events
events_of (err _) d = d

events_of-emitted :
    (s : Status) (t : Trigger) → events_of (rule_for s t) (emitted s t) ≡ emitted s t
unfolding rule_for emitted
events_of-emitted Status.none start = refl
events_of-emitted Status.none _ = refl
events_of-emitted trialing start = refl
events_of-emitted trialing _ = refl
events_of-emitted active start = refl
events_of-emitted active _ = refl
events_of-emitted past_due start = refl
events_of-emitted past_due _ = refl
events_of-emitted grace start = refl
events_of-emitted grace _ = refl
events_of-emitted expired start = refl
events_of-emitted expired _ = refl
events_of-emitted canceled start = refl
events_of-emitted canceled _ = refl
events_of-emitted comped start = refl
events_of-emitted comped _ = refl

-- The table's events, as the reading above has them.
pub rule_events :
    (s : Status) (t : Trigger) {r : Rule} → rule_for s t ≡ ok r → r.events ≡ emitted s t
rule_events s t h = ap (λ x. events_of x (emitted s t)) (sym h) ∙ events_of-emitted s t

found_rule-err :
    (s : Status) (t : Trigger) (o : Option Entry) {e : Error}
    → found_rule s t o ≡ err e
    → e ≡ invalid_transition s t
found_rule-err s t none h = ground arith
found_rule-err s t (some x) h = ground arith

pub rule_for-err :
    (s : Status) (t : Trigger) {e : Error} → rule_for s t ≡ err e → e ≡ invalid_transition s t
unfolding rule_for
rule_for-err s t h = found_rule-err s t _ h
