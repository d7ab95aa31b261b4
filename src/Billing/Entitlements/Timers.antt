-- ===== src/Billing/Entitlements/Timers.antt =====
-- The dates that the clock's triggers wait for (billing/entitlements.py `_mutate`, billing/machine.py
-- `is_due`).
use osds.Prelude.{◌∙◌, ◌&&◌, ℕ, ◌≡◌, Bool, true, ◌||◌, some, List, String, is_some, ok, arith}
use osds.Billing.Model.{
  Status, trialing, active, past_due, grace, canceled, Entitlement, Tier, Listing, Trigger, start,
  override, grant,
}
use osds.Billing.Machine.{Rule}
use osds.Billing.Machine.Table.{landing, legal, rule_to, legal_of_rule}
use osds.Billing.Entitlements.Fields.{Params, Facts}
use osds.Billing.Entitlements.Mutate.{mutate}
use osds.Billing.Entitlements.Override.{override_known}
use osds.Billing.Entitlements.Overridden.{override-Overridden}
use osds.Billing.Events.{Event}
use osds.Billing.Entitlements.Apply.{Call, Moved, move, settled}
use osds.Billing.Entitlements.Moves.{move-Steps}
use osds.Billing.Entitlements.Display.{visibility_after}

-- A trial has the dates of its end and of its period, a status in dunning those of the dunning and of its period, grace
-- its end, and `active` and `canceled` the end of the period. The other statuses need none: a comp may be granted
-- without an end.
abbrev pub dates_for : Status → Entitlement → Bool
dates_for trialing e = is_some e.trial_ends_at && is_some e.current_period_end
dates_for active e = is_some e.current_period_end
dates_for past_due e = is_some e.dunning_ends_at && is_some e.current_period_end
dates_for grace e = is_some e.grace_ends_at
dates_for canceled e = is_some e.current_period_end
dates_for _ e = true

abbrev pub HasDates : Entitlement → Type 0
HasDates e = dates_for e.status e ≡ true

-- An override that names a period end, unless the entitlement has one; any other trigger.
abbrev pub names_end : Trigger → Params → Entitlement → Bool
names_end override p ent = is_some p.period_end || is_some ent.current_period_end
names_end _ p ent = true

-- a comp has the end that its grant names, if it names one
abbrev pub EndsComp : Trigger → Params → Entitlement → Type 0
EndsComp grant p e = e.comp_expires_at ≡ p.expires_at
EndsComp _ p e = Unit {0}

override-HasDates :
    (to : Status) (v : String) (ent : Entitlement) (now : ℕ) (p : Params) {m : Entitlement × Facts}
    → names_end override p ent ≡ true
    → HasDates ent
    → override_known (some to) v ent now p ≡ ok m
    → HasDates m.0
unfolding override_known
override-HasDates trialing v ent now p n d h = ground arith
override-HasDates to v ent now p n d h = ground arith

mutate-HasDates :
    (t : Trigger) (ent : Entitlement) (rule : Rule) (now : ℕ) (p : Params) {m : Entitlement × Facts}
    → rule.to ≡ landing ent.status t
    → legal ent.status t ≡ true
    → names_end t p ent ≡ true
    → HasDates ent
    → mutate t ent rule now p ≡ ok m
    → HasDates m.0
unfolding mutate landing
mutate-HasDates start ent rule now p r l n d h = ground arith
mutate-HasDates override ent rule now p r l n d h =
    let o = override-Overridden ent rule now p h in
    override-HasDates o.to o.value ent now p n d o.mutates
mutate-HasDates t ent rule now p r l n d h = ground arith

mutate-EndsComp :
    (t : Trigger) (ent : Entitlement) (rule : Rule) (now : ℕ) (p : Params) {m : Entitlement × Facts}
    → mutate t ent rule now p ≡ ok m
    → EndsComp t p m.0
unfolding mutate
mutate-EndsComp grant ent rule now p h = ground arith
mutate-EndsComp t ent rule now p h = ground arith

settled-comp_expires_at :
    (tiers : List Tier) (c : Call) (rule : Rule) (prior : Status) (ent : Entitlement)
    (listing : Listing) (evs : List Event)
    → (settled tiers c rule prior ent listing evs).ent.comp_expires_at ≡ ent.comp_expires_at
unfolding settled visibility_after
settled-comp_expires_at tiers c rule prior ent listing evs = ground arith

-- the end of a comp depends on nothing else of the row
EndsComp-same :
    (t : Trigger) (p : Params) (e e' : Entitlement)
    → e'.comp_expires_at ≡ e.comp_expires_at
    → EndsComp t p e
    → EndsComp t p e'
EndsComp-same grant p e e' s h = s ∙ h
EndsComp-same t p e e' s h = ground arith

settled-HasDates :
    (tiers : List Tier) (c : Call) (rule : Rule) (prior : Status) (ent : Entitlement)
    (listing : Listing) (evs : List Event)
    → HasDates ent
    → HasDates (settled tiers c rule prior ent listing evs).ent
unfolding settled visibility_after
settled-HasDates tiers c rule prior ent listing evs d = ground arith

-- A successful move of an entitlement that has the dates of its status leaves one that has the dates of its new status:
-- the end of the trial, of the dunning, of the grace or of the period, for the statuses that need one. None is asked of
-- `comped`, but a grant leaves the comp's end as it names it, if it names one. An override has to name a period end unless
-- the entitlement has one.
pub move-HasDates :
    (tiers : List Tier) (c : Call) (t : Trigger) (p : Params) (ent : Entitlement)
    (listing : Listing) {m : Moved}
    → HasDates ent
    → names_end t p ent ≡ true
    → move tiers c t p ent listing ≡ ok m
    → HasDates m.ent × EndsComp t p m.ent
move-HasDates tiers c t p ent listing d n h =
    let s = move-Steps tiers c t p ent listing h in
    rw s.leaves (
      settled-HasDates tiers c s.rule ent.status s.mutated.0 listing s.events (
          mutate-HasDates t ent s.rule c.now p (rule_to _ _ s.ruled) (legal_of_rule _ _ s.ruled) n d
            s.mutates),
      EndsComp-same t p s.mutated.0 _
          (settled-comp_expires_at tiers c s.rule ent.status s.mutated.0 listing s.events)
          (mutate-EndsComp t ent s.rule c.now p s.mutates),
    )
