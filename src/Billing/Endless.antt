-- ===== src/Billing/Endless.antt =====
-- A subscription that is cancelled and has no date to end at (billing/entitlements.py `_mutate`).
use osds.Prelude.{ℕ, ◌≡◌, none, some, List, ok, arith}
use osds.Billing.Model.{Status, active, canceled, Entitlement, Tier, Listing, cancel}
use osds.Billing.Events.{Event}
use osds.Billing.Machine.{Rule, to_status, is_due}
use osds.Billing.Machine.Table.{landing, rule_to}
use osds.Billing.Entitlements.Fields.{Params, Facts}
use osds.Billing.Entitlements.Mutate.{mutate}
use osds.Billing.Entitlements.Display.{effective_tier, visibility_after}
use osds.Billing.Entitlements.Apply.{Call, Moved, settled, move}
use osds.Billing.Entitlements.Moves.{move-Steps}
use osds.Billing.Jobs.{trigger_for}

cancel_fields :
    (ent : Entitlement) (rule : Rule) (now : ℕ) (p : Params) {m : Entitlement × Facts}
    → rule.to ≡ to_status canceled
    → mutate cancel ent rule now p ≡ ok m
    → ent.current_period_end ≡ none
    → ent.trial_ends_at ≡ none
    → (m.0.status ≡ canceled) × (m.0.current_period_end ≡ none) × (m.0.tier ≡ ent.tier)
unfolding mutate
cancel_fields ent rule now p r h e t = ground arith

settled-endless :
    (tiers : List Tier) (c : Call) (rule : Rule) (prior : Status) (ent : Entitlement)
    (listing : Listing) (evs : List Event) (later : ℕ)
    → ent.status ≡ canceled
    → ent.current_period_end ≡ none
    → let e = (settled tiers c rule prior ent listing evs).ent in
      (e.status ≡ canceled)
      × (trigger_for e later ≡ none)
      × (effective_tier tiers e ≡ some ent.tier)
unfolding settled visibility_after trigger_for is_due effective_tier
settled-endless tiers c rule prior ent listing evs later s e = ground arith

-- An active entitlement with no period end and no trial end that is cancelled has no end at all: it
-- is `canceled`, at no time does a clock trigger apply to it, and its tier stays the effective one.
pub cancel_without_end :
    (tiers : List Tier) (c : Call) (p : Params) (ent : Entitlement) (listing : Listing) (later : ℕ)
    {m : Moved}
    → ent.status ≡ active
    → ent.current_period_end ≡ none
    → ent.trial_ends_at ≡ none
    → move tiers c cancel p ent listing ≡ ok m
    → (m.ent.status ≡ canceled)
      × (trigger_for m.ent later ≡ none)
      × (effective_tier tiers m.ent ≡ some ent.tier)
cancel_without_end tiers c p ent listing later s e t h =
    let st = move-Steps tiers c cancel p ent listing h in
    let (canceled_now, no_end, same_tier) =
      cancel_fields ent st.rule c.now p (unfold landing in ground (arith, rule_to _ _ st.ruled))
        st.mutates e t in
    rw (st.leaves, ← same_tier)
      (settled-endless tiers c st.rule ent.status st.mutated.0 listing st.events later canceled_now
        no_end)
