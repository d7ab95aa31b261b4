-- ===== src/Billing/Clock.antt =====
-- The clock's triggers (billing/jobs.py, billing/machine.py `is_due`): which rows a pass selects, and
-- what a due row's move does.
use osds.Prelude.{
  ◌∙◌, ℕ, ◌≡◌, ◌≤◌, true, false, is_some, List, ok, is_ok, Result-cases, inl, inr, arith,
}
use osds.Billing.Model.{Status, Entitlement, Tier, Listing, Trigger, start}
use osds.Billing.Machine.{Rule, rule_for, is_clock, is_due, trial_overdue_window}
use osds.Billing.Machine.Table.{rule_events, rule_to, legal_of_rule, legal, due_legal}
use osds.Billing.Events.{Event}
use osds.Billing.Entitlements.Fields.{Params, Facts}
use osds.Billing.Entitlements.Mutate.{mutate}
use osds.Billing.Entitlements.Display.{visibility_after}
use osds.Billing.Entitlements.Apply.{Call, Moved, emit_rule, settled, move}
use osds.Billing.Entitlements.Moves.{move-Steps}
use osds.Billing.Entitlements.Totality.{emit_rule-ok}
use osds.Billing.Jobs.{is_due_row, trigger_for}

-- The query selects exactly the rows for which the loop then finds a trigger.
pub is_due_row-trigger_for :
    (ent : Entitlement) (now : ℕ)
    → trial_overdue_window ≤ now
    → is_due_row now ent ≡ is_some (trigger_for ent now)
unfolding is_due_row trigger_for is_due
is_due_row-trigger_for ent now h = ground arith

clock_mutate-ok :
    (t : Trigger) (ent : Entitlement) (rule : Rule) (now : ℕ) (p : Params)
    → is_clock t ≡ true
    → is_ok (mutate t ent rule now p) ≡ true
unfolding mutate
clock_mutate-ok start ent rule now p c = ground arith
clock_mutate-ok t ent rule now p c = ground arith

-- On a row whose clock trigger is due, the trigger moves the entitlement: neither the table, nor the changes of its
-- fields, nor its events refuse it.
pub clock_move-ok :
    (tiers : List Tier) (c : Call) (t : Trigger) (p : Params) (ent : Entitlement)
    (listing : Listing)
    → is_clock t ≡ true
    → is_due ent t c.now ≡ true
    → (m : Moved) × (move tiers c t p ent listing ≡ ok m)
unfolding move
clock_move-ok tiers c t p ent listing k d = elim (Result-cases (rule_for ent.status t)) [
  | inr (e, no_rule) ↦ absurd (ground (arith, due_legal ent t c.now k d))
  | inl (rule, ruled) ↦ elim (Result-cases (mutate t ent rule c.now p)) [
    | inr (e, fails) ↦ absurd (ground (arith, clock_mutate-ok t ent rule c.now p k))
    | inl (mu, mutates) ↦ elim (Result-cases (emit_rule tiers c rule p ent.status mu listing)) [
      | inr (e, fails) ↦ absurd (
          ground (
            arith,
            emit_rule-ok tiers c t p ent rule listing mu (rule_events _ _ ruled) (rule_to _ _ ruled)
                (legal_of_rule _ _ ruled) mutates,
          ))
      | inl (evs, emits) ↦ (settled tiers c rule ent.status mu.0 listing evs, ground arith)
    ]
  ]
]

clock_mutate-settles :
    (t : Trigger) (ent : Entitlement) (rule : Rule) (now : ℕ) (p : Params) {m : Entitlement × Facts}
    → is_clock t ≡ true
    → legal ent.status t ≡ true
    → mutate t ent rule now p ≡ ok m
    → is_due_row now m.0 ≡ false
unfolding mutate is_due_row
clock_mutate-settles start ent rule now p k l h = ground arith
clock_mutate-settles t ent rule now p k l h = ground arith

settled-is_due_row :
    (tiers : List Tier) (c : Call) (rule : Rule) (prior : Status) (ent : Entitlement)
    (listing : Listing) (evs : List Event) (now : ℕ)
    → is_due_row now (settled tiers c rule prior ent listing evs).ent ≡ is_due_row now ent
unfolding settled visibility_after is_due_row
settled-is_due_row tiers c rule prior ent listing evs now = ground arith

-- A clock trigger leaves nothing that is due at the same time: a second pass would not select the
-- row again.
pub clock_move-settles :
    (tiers : List Tier) (c : Call) (t : Trigger) (p : Params) (ent : Entitlement)
    (listing : Listing) {m : Moved}
    → is_clock t ≡ true
    → move tiers c t p ent listing ≡ ok m
    → is_due_row c.now m.ent ≡ false
clock_move-settles tiers c t p ent listing k h =
    let s = move-Steps tiers c t p ent listing h in
    rw s.leaves (
      settled-is_due_row tiers c s.rule ent.status s.mutated.0 listing s.events c.now
      ∙ clock_mutate-settles t ent s.rule c.now p k (legal_of_rule _ _ s.ruled) s.mutates)
