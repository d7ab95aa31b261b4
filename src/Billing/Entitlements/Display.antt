-- ===== src/Billing/Entitlements/Display.antt =====
-- The listing's side of a move (billing/entitlements.py, directory/services.py): the effective tier
-- and its one writer, and the visibility.
use osds.Prelude.{
  ℕ, String, Bool, true, false, ◌&&◌, Option, none, some, List, [], ◌∷◌, find, ◌==◌, if◌then◌else◌,
  is_none,
}
use osds.Billing.Model.{
  expired, Entitlement, Tier, Listing, Visibility, published, hidden, TierCause,
}
use osds.Audit.Actor.{Actor}
use osds.Billing.Events.{
  EventData, listing_tier_changed, listing_published, listing_unpublished, Event,
}
use osds.Billing.Machine.{is_status, is_in, perk_statuses}

-- `Tier.objects.filter(tenant=tenant, rank=0).first()`
abbrev pub rank0_tier : List Tier → Option Tier
rank0_tier tiers = find (λ t. t.rank == 0) tiers

-- the tier whose perks the public page shows
unfoldable pub effective_tier : List Tier → Entitlement → Option Tier
effective_tier tiers ent =
    if is_in perk_statuses ent.status then some ent.tier else rank0_tier tiers

abbrev pub key_of : Option Tier → Option String
key_of none = none
key_of (some t) = some t.key

-- `listing.current_tier_id == new_id`
abbrev pub is_same_tier : Option Tier → Option Tier → Bool
is_same_tier none none = true
is_same_tier (some a) (some b) = a.pk == b.pk
is_same_tier _ _ = false

-- The listing, the events and whether the tier changed.
unfoldable pub set_tier :
    Listing → Option Tier → TierCause → ℕ → Actor → String → Listing × List Event × Bool
set_tier listing tier cause now actor origin =
    if is_same_tier listing.current_tier tier then (listing, [], false) else (
      record listing { current_tier = tier },
      record {
        subject = listing.public_id;
        actor = actor;
        origin = origin;
        content = listing_tier_changed (key_of listing.current_tier) (key_of tier) now cause;
      }
          ∷ [],
      true,
    )

abbrev pub is_visibility : Visibility → Visibility → Bool
is_visibility Visibility.draft Visibility.draft = true
is_visibility published published = true
is_visibility hidden hidden = true
is_visibility _ _ = false

-- `set_listing_visibility` (directory/services.py), whose target is always a valid one here
unfoldable pub set_listing_visibility : Listing → Visibility → Actor → String → Listing × List Event
set_listing_visibility listing visibility actor reason =
    let event : EventData → Event = λ content. record {
      subject = listing.public_id;
      actor = actor;
      origin = "";
      content = content;
    } in
    if is_visibility listing.visibility visibility then (listing, []) else (
      record listing { visibility = visibility },
      (if is_visibility visibility published
          then event (listing_published listing.visibility) ∷ []
          else if is_visibility listing.visibility published
          then event (listing_unpublished listing.visibility visibility reason) ∷ []
          else []),
    )

-- What `_visibility_after` leaves: both rows, the events, and whether it hid or unhid the listing.
pub record Shown : Type 0 where
  pub ent : Entitlement
  pub listing : Listing
  pub events : List Event
  pub hid : Bool
  pub unhid : Bool

unfoldable pub visibility_after : List Tier → Entitlement → Listing → Actor → Shown
unfolding set_listing_visibility
visibility_after tiers ent listing actor =
    let same : Shown = record {
      ent = ent;
      listing = listing;
      events = [];
      hid = false;
      unhid = false;
    } in
    if is_status ent.status expired && is_none (rank0_tier tiers)
    then (if is_visibility listing.visibility published
        then (let (l, evs) = set_listing_visibility listing hidden actor "entitlement_expired" in
            record {
              ent = record ent { hidden_by_expiry = true };
              listing = l;
              events = evs;
              hid = true;
              unhid = false;
            })
        else same)
    else if ent.hidden_by_expiry && is_in perk_statuses ent.status
    then (let shown : Entitlement = record ent { hidden_by_expiry = false } in
        if is_visibility listing.visibility hidden
        then (let (l, evs) =
              set_listing_visibility listing published actor "entitlement_restored" in
            record { ent = shown; listing = l; events = evs; hid = false; unhid = true })
        else record { ent = shown; listing = listing; events = []; hid = false; unhid = false })
    else same
