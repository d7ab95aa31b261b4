-- ===== src/Billing/Entitlements/Shown.antt =====
-- The tier and the visibility that a move leaves on the listing (billing/entitlements.py `_set_tier`,
-- `_visibility_after`).
use osds.Prelude.{ℕ, ◌≡◌, true, Option, none, some, List, String, ok, ==_refl, arith}
use osds.Billing.Model.{Status, Entitlement, Tier, Listing, Trigger, TierCause}
use osds.Audit.Actor.{Actor}
use osds.Billing.Events.{Event}
use osds.Billing.Machine.{Rule}
use osds.Billing.Entitlements.Fields.{Params}
use osds.Billing.Entitlements.Display.{effective_tier, is_same_tier, set_tier, visibility_after}
use osds.Billing.Entitlements.Apply.{tier_cause, Call, Moved, settled, move}
use osds.Billing.Entitlements.Moves.{move-Steps}

-- Only the flag of the entitlement's row moves with the visibility.
pub visibility_after-ent :
    (tiers : List Tier) (ent : Entitlement) (listing : Listing) (actor : Actor)
    → let shown = visibility_after tiers ent listing actor in
      shown.ent ≡ record ent { hidden_by_expiry = shown.ent.hidden_by_expiry }
unfolding visibility_after
visibility_after-ent tiers ent listing actor = ground arith

-- The visibility moves nothing else of the listing's row.
pub visibility_after-listing :
    (tiers : List Tier) (ent : Entitlement) (listing : Listing) (actor : Actor)
    → let shown = visibility_after tiers ent listing actor in
      shown.listing ≡ record listing { visibility = shown.listing.visibility }
unfolding visibility_after
visibility_after-listing tiers ent listing actor = ground arith

set_tier-shows :
    (listing : Listing) (tier : Option Tier) (cause : TierCause) (now : ℕ) (actor : Actor)
    (origin : String)
    → is_same_tier (set_tier listing tier cause now actor origin).0.current_tier tier ≡ true
unfolding set_tier
set_tier-shows listing none cause now actor origin = ground arith
set_tier-shows listing (some t) cause now actor origin = ground (arith, ==_refl t.pk)

visibility_after-effective :
    (tiers : List Tier) (ent : Entitlement) (listing : Listing) (actor : Actor)
    → effective_tier tiers (visibility_after tiers ent listing actor).ent ≡ effective_tier tiers ent
unfolding visibility_after effective_tier
visibility_after-effective tiers ent listing actor = ground arith

visibility_after-current :
    (tiers : List Tier) (ent : Entitlement) (listing : Listing) (actor : Actor)
    → (visibility_after tiers ent listing actor).listing.current_tier ≡ listing.current_tier
unfolding visibility_after
visibility_after-current tiers ent listing actor = ground arith

settled-tier :
    (tiers : List Tier) (c : Call) (rule : Rule) (prior : Status) (ent : Entitlement)
    (listing : Listing) (evs : List Event)
    → let m = settled tiers c rule prior ent listing evs in
      is_same_tier m.listing.current_tier (effective_tier tiers m.ent) ≡ true
unfolding settled
settled-tier tiers c rule prior ent listing evs =
    let target = effective_tier tiers ent in
    let l =
      (set_tier listing target (tier_cause rule listing.current_tier target) c.now c.actor
        c.origin).0 in
    rw
      (visibility_after-effective tiers ent l c.actor, visibility_after-current tiers ent l c.actor)
      (set_tier-shows listing target _ c.now c.actor c.origin)

-- After a successful move the listing shows the effective tier of the entitlement as it now is.
pub move-tier :
    (tiers : List Tier) (c : Call) (t : Trigger) (p : Params) (ent : Entitlement)
    (listing : Listing) {m : Moved}
    → move tiers c t p ent listing ≡ ok m
    → is_same_tier m.listing.current_tier (effective_tier tiers m.ent) ≡ true
move-tier tiers c t p ent listing h =
    let s = move-Steps tiers c t p ent listing h in
    rw s.leaves (settled-tier tiers c s.rule ent.status s.mutated.0 listing s.events)

pub settled-status :
    (tiers : List Tier) (c : Call) (rule : Rule) (prior : Status) (ent : Entitlement)
    (listing : Listing) (evs : List Event)
    → (settled tiers c rule prior ent listing evs).ent.status ≡ ent.status
unfolding settled visibility_after
settled-status tiers c rule prior ent listing evs = ground arith
