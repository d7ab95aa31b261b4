-- ===== src/Billing/Entitlements/Landing.antt =====
-- Where a trigger leaves an entitlement (billing/entitlements.py `_mutate`), against the table of
-- billing/machine.py.
use osds.Prelude.{◌∙◌, sym, ap, List, ℕ, ◌≡◌, true, some, String, ok, arith}
use osds.Billing.Model.{Status, Entitlement, Trigger, start, override}
use osds.Billing.Machine.{Rule, Target, to_status, any_status}
use osds.Billing.Machine.Table.{legal_of_rule, legal, landing, rule_to}
use mathlib.Core.Path.{subst}
use osds.Billing.Model.{Tier, Listing}
use osds.Billing.Entitlements.Apply.{Call, Moved, move}
use osds.Billing.Entitlements.Overridden.{override-Overridden}
use osds.Billing.Entitlements.Moves.{move-Steps}
use osds.Billing.Entitlements.Shown.{settled-status}
use osds.Billing.Entitlements.Fields.{Params, Facts}
use osds.Billing.Entitlements.Override.{status_of_value}
use osds.Billing.Entitlements.Mutate.{mutate}

-- The status that the table or, for an override, the operator names.
abbrev pub LandsOn : Target → Params → Status → Type 0
LandsOn (to_status s) p s' = s' ≡ s
LandsOn any_status p s' = (v : String) × (p.to_status ≡ some v) × (status_of_value v ≡ some s')

-- The status that a trigger leaves, where the table allows the move.
mutate-landing :
    (t : Trigger) (ent : Entitlement) (rule : Rule) (now : ℕ) (p : Params) {m : Entitlement × Facts}
    → rule.to ≡ landing ent.status t
    → legal ent.status t ≡ true
    → mutate t ent rule now p ≡ ok m
    → LandsOn (landing ent.status t) p m.0.status
unfolding mutate landing
mutate-landing start ent rule now p r l h = ground arith
mutate-landing override ent rule now p r l h =
    let o = override-Overridden ent rule now p h in
    (o.value, o.named, o.known ∙ ap some (sym o.lands))
mutate-landing t ent rule now p r l h = ground arith

-- A successful move leaves the entitlement in the status that the table gives for its old status and
-- the trigger, or, for an override, in the one whose value the operator named.
pub move-landing :
    (tiers : List Tier) (c : Call) (t : Trigger) (p : Params) (ent : Entitlement)
    (listing : Listing) {m : Moved}
    → move tiers c t p ent listing ≡ ok m
    → LandsOn (landing ent.status t) p m.ent.status
move-landing tiers c t p ent listing {m} h =
    let s = move-Steps tiers c t p ent listing h in
    rw (s.leaves) (
      subst (λ x. LandsOn (landing ent.status t) p x)
        (sym (settled-status tiers c s.rule ent.status s.mutated.0 listing s.events))
        (mutate-landing t ent s.rule c.now p (rule_to _ _ s.ruled) (legal_of_rule _ _ s.ruled)
          s.mutates))
