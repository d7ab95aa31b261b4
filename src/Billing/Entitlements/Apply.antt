-- ===== src/Billing/Entitlements/Apply.antt =====
-- One move of an entitlement that has its row (billing/entitlements.py): `apply_trigger` between its
-- reads and its writes.
use osds.Prelude.{
  ℕ, String, Bool, ◌&&◌, not, Option, none, some, List, ◌++◌, leb, if◌then◌else◌, Result, ok, ◌>>=◌,
  ◌>>◌, require,
}
use osds.Billing.Model.{Status, Entitlement, Tier, Listing, Trigger, EventName, TierCause}
use osds.Audit.Actor.{Actor}
use osds.Billing.Events.{Event, Mail}
use osds.Billing.Machine.{Rule, Error, not_due, rule_for, is_clock, is_due}
use osds.Billing.Entitlements.Fields.{Params, Facts}
use osds.Billing.Entitlements.Mutate.{mutate}
use osds.Billing.Notices.{after_transition}
use osds.Billing.Entitlements.Display.{effective_tier, key_of, set_tier, visibility_after}
use osds.Billing.Entitlements.Emit.{event_data, emit_all}

-- `_tier_cause`
unfoldable pub tier_cause : Rule → Option Tier → Option Tier → TierCause
tier_cause rule prior target =
    let by_rank : TierCause = elim target [
      | none ↦ TierCause.downgrade
      | some t ↦ elim prior [
        | none ↦ TierCause.upgrade
        | some b ↦ if leb b.rank t.rank then TierCause.upgrade else TierCause.downgrade
      ]
    ] in
    elim rule.tier_cause [ TierCause.none ↦ by_rank | TierCause.upgrade ↦ by_rank | c ↦ c ]

-- `Outcome`
pub record Outcome : Type 0 where
  pub from_status : Status
  pub to_status : Status
  pub events : List EventName
  pub tier_changed : Bool
  pub hid_listing : Bool
  pub unhid_listing : Bool

-- The rows that a move leaves, what it wrote to the outbox and the mail queue, and its outcome.
pub record Moved : Type 0 where
  pub ent : Entitlement
  pub listing : Listing
  pub outbox : List Event
  pub mail : List Mail
  pub outcome : Outcome

-- What a call of `apply_trigger` is given besides the trigger and its parameters.
pub record Call : Type 0 where
  pub now : ℕ
  pub actor : Actor
  pub origin : String

-- From the events on: the tier, the visibility, the mail.
unfoldable pub settled :
    List Tier → Call → Rule → Status → Entitlement → Listing → List Event → Moved
settled tiers c rule prior ent listing evs =
    let target = effective_tier tiers ent in
    let (l, tier_evs, changed) =
      set_tier listing target (tier_cause rule listing.current_tier target) c.now c.actor
        c.origin in
    let shown = visibility_after tiers ent l c.actor in
    record {
      ent = shown.ent;
      listing = shown.listing;
      outbox = evs ++ (tier_evs ++ shown.events);
      mail = after_transition shown.ent shown.listing rule c.now;
      outcome = record {
        from_status = prior;
        to_status = ent.status;
        events = rule.events;
        tier_changed = changed;
        hid_listing = shown.hid;
        unhid_listing = shown.unhid;
      };
    }

-- the events of the rule, with the key of the tier that is now shown
unfoldable pub emit_rule :
    List Tier
    → Call
    → Rule
    → Params
    → Status
    → Entitlement × Facts
    → Listing
    → Result Error (List Event)
emit_rule tiers c rule p prior (ent, facts) listing =
    emit_all rule.events
      (λ name.
        event_data ent listing.public_id name rule
          (record facts { to_tier = key_of (effective_tier tiers ent) }) p prior)
      ent.public_id c.actor c.origin

-- `apply_trigger` from the look-up of the rule on
unfoldable pub move :
    List Tier → Call → Trigger → Params → Entitlement → Listing → Result Error Moved
move tiers c trigger p ent listing = do
  rule ← rule_for ent.status trigger
  require (not (is_clock trigger && not (is_due ent trigger c.now))) (not_due trigger)
  mutated ← mutate trigger ent rule c.now p
  evs ← emit_rule tiers c rule p ent.status mutated listing
  ok (settled tiers c rule ent.status mutated.0 listing evs)
