-- ===== src/Billing/Examples.antt =====
-- Tests of the billing model on concrete rows, and instances of its theorems.
use osds.Prelude.{
  ℕ, ◌≡◌, refl, ◌⊎◌, true, false, none, some, is_some, List, [], ◌∷◌, Result, ok, err, is_ok, arith,
}
use osds.Prelude.Time.{days}
use osds.Audit.Actor.{system}
use osds.Billing.Model.{
  trialing, active, past_due, grace, expired, canceled, recurring, Entitlement, Tier, Listing,
  ListingStatus, published, hidden, start, payment_failed, cancel, grace_elapsed,
}
use osds.Billing.Machine.{Error, key_error, rule_for, is_due}
use osds.Billing.Machine.Table.{legal, landing, rule_for-legal}
use osds.Billing.Entitlements.Fields.{Params, no_params}
use osds.Billing.Entitlements.Mutate.{mutate}
use osds.Billing.Entitlements.Display.{effective_tier, is_same_tier, set_tier, visibility_after}
use osds.Billing.Entitlements.Emit.{event_data, emit_all}
use osds.Billing.Entitlements.Apply.{Call, Moved, tier_cause, settled, emit_rule, move}
use osds.Billing.Entitlements.Database.{
  Db, entitlement_of, listing_of, ensure, commit, save_entitlement, save_listing, apply_trigger,
  new_entitlement,
}
use osds.Billing.Entitlements.Landing.{LandsOn, move-landing}
use osds.Billing.Entitlements.Totality.{move-ne-key_error}
use osds.Billing.Entitlements.Timers.{HasDates, EndsComp, move-HasDates}
use osds.Billing.Entitlements.Shown.{move-tier}
use osds.Billing.Entitlements.Visibility.{Kept, Hid, Unhid, move_visibility, move_hides-unhides}
use osds.Billing.Notices.{after_transition}
use osds.Billing.Jobs.{is_due_row, trigger_for, move_row, move_rows, entitlement_transitions}
use osds.Billing.Clock.{is_due_row-trigger_for, clock_move-ok, clock_move-settles}
use osds.Billing.Entitlements.Saved.{HasStatus}
use osds.Billing.Passes.{Consistent, Moves, due_count, entitlement_transitions-Moves}
use osds.Billing.Lapse.{pass-lapses}
use osds.Billing.Endless.{cancel_without_end}

abbrev pub gold : Tier
gold = record {
  pk = 2;
  key = "gold";
  name = "Gold";
  rank = 2;
  purchasable = true;
  uses_slot = false;
  price_minor = some 1900;
  currency = "USD";
  interval = "month";
  trial_days = none;
  badge_label = "Gold";
  perks = "{}";
}

abbrev pub free : Tier
free = record gold { pk = 1; key = "free"; rank = 0; purchasable = false; price_minor = none }

abbrev pub tiers : List Tier
tiers = free ∷ gold ∷ []

-- a tenant without a rank-0 tier
abbrev paid_tiers : List Tier
paid_tiers = gold ∷ []

abbrev pub shop : Listing
shop = record {
  pk = 7;
  public_id = 7;
  status = ListingStatus.claimed;
  visibility = published;
  current_tier = some gold;
  owner = some (record { pk = 1; public_id = 1; email = "owner@example.com" });
}

abbrev unpaid : Entitlement
unpaid = new_entitlement 1 7 gold

abbrev trial : Entitlement
trial = record unpaid {
  status = trialing;
  trial_ends_at = some (days 100);
  current_period_end = some (days 100);
}

abbrev in_grace : Entitlement
in_grace = record unpaid {
  status = grace;
  grace_ends_at = some (days 130);
  current_period_end = some (days 100);
}

abbrev at : ℕ → Call
at now = record { now = now; actor = system "billing"; origin = "" }

-- the rows that a move leaves, or those that were there
abbrev after : Entitlement → Listing → Result Error Moved → Moved
after ent listing (ok m) = m
after ent listing (err e) = record {
  ent = ent;
  listing = listing;
  outbox = [];
  mail = [];
  outcome = record {
    from_status = ent.status;
    to_status = ent.status;
    events = [];
    tier_changed = false;
    hid_listing = false;
    unhid_listing = false;
  };
}

-- a trial whose payment fails
abbrev failed : Moved
failed = after trial shop (move tiers (at (days 100)) payment_failed no_params trial shop)

-- grace that ends
abbrev lapsed : Moved
lapsed = after in_grace shop (move paid_tiers (at (days 130)) grace_elapsed no_params in_grace shop)

abbrev purchase : Params
purchase = record no_params { tier = some gold; period_end = some (days 200) }

-- the purchase after it
abbrev bought : Moved
bought =
    after lapsed.ent lapsed.listing
      (move paid_tiers (at (days 140)) start purchase lapsed.ent lapsed.listing)

move_steps : Moved
unfolding move rule_for is_due mutate emit_rule emit_all event_data effective_tier set_tier
    visibility_after tier_cause after_transition settled
move_steps = failed

move-landing_example : LandsOn (landing trialing payment_failed) no_params failed.ent.status
unfolding move_steps
move-landing_example =
    move-landing tiers (at (days 100)) payment_failed no_params trial shop {m = failed} refl

-- the failure starts the dunning window and leaves the tier
failed_runs :
    (failed.ent.status ≡ past_due)
    × (failed.ent.dunning_ends_at ≡ some (days 114))
    × (failed.outcome.tier_changed ≡ false)
unfolding move_steps
failed_runs = (refl, refl, refl)

-- the end of grace hides the listing of a tenant without a rank-0 tier, and a purchase brings it back
bought_runs :
    (lapsed.listing.visibility ≡ hidden)
    × (bought.listing.visibility ≡ published)
    × (bought.listing.current_tier ≡ some gold)
unfolding move_steps
bought_runs = (refl, refl, refl)

move-tier_example :
    is_same_tier failed.listing.current_tier (effective_tier tiers failed.ent) ≡ true
unfolding move_steps
move-tier_example =
    move-tier tiers (at (days 100)) payment_failed no_params trial shop {m = failed} refl

move-HasDates_example : HasDates failed.ent × EndsComp payment_failed no_params failed.ent
unfolding move_steps
move-HasDates_example =
    move-HasDates tiers (at (days 100)) payment_failed no_params trial shop {m = failed} refl refl
      refl

move_visibility_example :
    Kept paid_tiers in_grace shop lapsed
    ⊎ (Hid paid_tiers in_grace shop lapsed ⊎ Unhid paid_tiers in_grace shop lapsed)
unfolding move_steps
move_visibility_example =
    move_visibility paid_tiers (at (days 130)) grace_elapsed no_params in_grace shop {m = lapsed}
      refl

move_hides-unhides_example :
    (lapsed.listing.visibility ≡ hidden)
    × (bought.listing.visibility ≡ published)
    × (bought.ent.hidden_by_expiry ≡ false)
unfolding move_steps
move_hides-unhides_example =
    move_hides-unhides paid_tiers (at (days 130)) (at (days 140)) grace_elapsed start no_params
      purchase in_grace shop {m = lapsed} {m' = bought} refl refl refl refl refl refl

move-ne-key_error_example :
    ¬ (move tiers (at (days 100)) payment_failed no_params trial shop ≡ err (key_error "attempt"))
move-ne-key_error_example =
    move-ne-key_error tiers (at (days 100)) payment_failed no_params trial shop "attempt"

rule_for-legal_example : is_ok (rule_for grace cancel) ≡ legal grace cancel
rule_for-legal_example = rule_for-legal grace cancel

is_due_row-trigger_for_example :
    is_due_row (days 103) trial ≡ is_some (trigger_for trial (days 103))
is_due_row-trigger_for_example = is_due_row-trigger_for trial (days 103) (omega arith)

clock_move-ok_example :
    (m : Moved) × (move paid_tiers (at (days 130)) grace_elapsed no_params in_grace shop ≡ ok m)
unfolding is_due
clock_move-ok_example =
    clock_move-ok paid_tiers (at (days 130)) grace_elapsed no_params in_grace shop refl refl

clock_move-settles_example : is_due_row (days 130) lapsed.ent ≡ false
unfolding move_steps
clock_move-settles_example =
    clock_move-settles paid_tiers (at (days 130)) grace_elapsed no_params in_grace shop {m = lapsed}
      refl refl

-- a tenant whose one listing is on trial
abbrev trial_db : Db
trial_db = record {
  tiers = tiers;
  entitlements = trial ∷ [];
  listings = shop ∷ [];
  outbox = [];
  mail = [];
  next_pk = 2;
}

pass_steps : ℕ
unfolding entitlement_transitions move_rows move_row trigger_for is_due is_due_row apply_trigger
    entitlement_of listing_of ensure commit save_entitlement save_listing move_steps
pass_steps = due_count (days 103) trial_db

entitlement_transitions-Moves_example :
    let p = entitlement_transitions trial_db (days 103) in
    Consistent p.db
    × (p.error ≡ none)
    × (e : Entitlement) × Moves (days 103) trial e
    × (entitlement_of p.db 7 ≡ some e)
unfolding pass_steps
entitlement_transitions-Moves_example =
    entitlement_transitions-Moves trial_db (days 103) 7 trial
      (record { apart = (refl, tt); placed = refl }) (omega arith) (omega arith) refl refl

pass-lapses_example :
    let overdue = entitlement_transitions trial_db (days 103) in
    let downgraded = entitlement_transitions overdue.db (days 117) in
    let lapsed = entitlement_transitions downgraded.db (days 147) in
    (HasStatus overdue.db 7 past_due × (overdue.error ≡ none))
    × (HasStatus downgraded.db 7 grace × (downgraded.error ≡ none))
    × (HasStatus lapsed.db 7 expired × (lapsed.error ≡ none))
unfolding pass_steps
pass-lapses_example =
    pass-lapses trial_db 7 trial (days 100) (days 103) (days 117) (days 147)
      (record { apart = (refl, tt); placed = refl }) refl refl refl (omega arith) (omega arith)
      (omega arith) (omega arith) (omega arith) (omega arith)

-- an operator's override to `active` that names no period end
abbrev overridden : Entitlement
overridden = record unpaid { status = active; billing_mode = recurring }

abbrev endless : Moved
endless = after overridden shop (move tiers (at (days 10)) cancel no_params overridden shop)

cancel_without_end_example :
    (endless.ent.status ≡ canceled)
    × (trigger_for endless.ent (days 10000) ≡ none)
    × (effective_tier tiers endless.ent ≡ some gold)
unfolding move_steps
cancel_without_end_example =
    cancel_without_end tiers (at (days 10)) no_params overridden shop (days 10000) {m = endless}
      refl refl refl refl
