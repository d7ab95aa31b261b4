-- ===== src/Billing/Entitlements/Moves.antt =====
-- A successful move, taken apart into the steps that it ran.
use osds.Prelude.{◌≡◌, ◌&&◌, not, false, List, ok, Result-cases, inl, inr, arith}
use osds.Billing.Model.{Entitlement, Listing, Tier, Trigger}
use osds.Billing.Events.{Event}
use osds.Billing.Machine.{Rule, rule_for, is_clock, is_due}
use osds.Billing.Entitlements.Fields.{Params, Facts}
use osds.Billing.Entitlements.Mutate.{mutate}
use osds.Billing.Entitlements.Apply.{Call, Moved, emit_rule, settled, move}

pub record Steps (tiers : List Tier) (c : Call) (t : Trigger) (p : Params) (ent : Entitlement)
    (listing : Listing) (m : Moved) : Type 0 where
  pub rule : Rule
  pub mutated : Entitlement × Facts
  pub events : List Event
  pub ruled : rule_for ent.status t ≡ ok rule
  pub due : (is_clock t && not (is_due ent t c.now)) ≡ false
  pub mutates : mutate t ent rule c.now p ≡ ok mutated
  pub emits : emit_rule tiers c rule p ent.status mutated listing ≡ ok events
  pub leaves : m ≡ settled tiers c rule ent.status mutated.0 listing events

pub move-Steps :
    (tiers : List Tier) (c : Call) (t : Trigger) (p : Params) (ent : Entitlement)
    (listing : Listing) {m : Moved}
    → move tiers c t p ent listing ≡ ok m
    → Steps tiers c t p ent listing m
unfolding move
move-Steps tiers c t p ent listing {m} h = elim (Result-cases (rule_for ent.status t)) [
  | inr (e, no_rule) ↦ absurd (ground arith)
  | inl (rule, ruled) ↦ elim (Result-cases (mutate t ent rule c.now p)) [
    | inr (e, fails) ↦ absurd (ground arith)
    | inl (mutated, mutates) ↦
        elim (Result-cases (emit_rule tiers c rule p ent.status mutated listing)) [
          | inr (e, fails) ↦ absurd (ground arith)
          | inl (events, emits) ↦ record {
            rule = rule;
            mutated = mutated;
            events = events;
            ruled = ruled;
            due = ground arith;
            mutates = mutates;
            emits = emits;
            leaves = ground arith;
          }
        ]
  ]
]
