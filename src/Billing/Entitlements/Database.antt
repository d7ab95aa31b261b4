-- ===== src/Billing/Entitlements/Database.antt =====
-- `apply_trigger` (billing/entitlements.py) over the tenant's rows. It runs in one transaction: an
-- error leaves the database that was there before the call.
use osds.Prelude.{
  ℕ, ◌+◌, false, Option, none, some, List, [], ◌∷◌, ◌++◌, find, ◌==◌, any, if◌then◌else◌, Result,
  ok, ◌>>=◌, ◌>>◌, require, need,
}
use osds.Billing.Model.{
  Status, BillingMode, Entitlement, Tier, Listing, Trigger, start, start_trial, grant, override,
}
use osds.Billing.Events.{Event, Mail}
use osds.Billing.Machine.{Error, invalid_transition, missing_parameters, no_listing, is_trigger}
use osds.Billing.Entitlements.Fields.{Params}
use osds.Billing.Entitlements.Apply.{Outcome, Call, Moved, move}

-- The tables in reach, each in the order of its primary keys, and the next key.
pub record Db : Type 0 where
  pub tiers : List Tier
  pub entitlements : List Entitlement
  pub listings : List Listing
  pub outbox : List Event
  pub mail : List Mail
  pub next_pk : ℕ

-- `Entitlement.objects.filter(listing=listing).first()`
unfoldable pub entitlement_of : Db → ℕ → Option Entitlement
entitlement_of db listing_pk = find (λ e. e.listing_id == listing_pk) db.entitlements

-- `Listing.objects.get(pk=...)`
unfoldable pub listing_of : Db → ℕ → Option Listing
listing_of db listing_pk = find (λ l. l.pk == listing_pk) db.listings

-- `save`: the row with the same key is overwritten
unfoldable pub save_entitlement : Entitlement → List Entitlement → List Entitlement
save_entitlement e [] = []
save_entitlement e (r ∷ rows) = (if r.pk == e.pk then e else r) ∷ save_entitlement e rows

unfoldable pub save_listing : Listing → List Listing → List Listing
save_listing l [] = []
save_listing l (r ∷ rows) = (if r.pk == l.pk then l else r) ∷ save_listing l rows

-- `Entitlement.objects.create(...)`: the columns that it does not name have their defaults
abbrev pub new_entitlement : ℕ → ℕ → Tier → Entitlement
new_entitlement pk listing_pk tier = record {
  pk = pk;
  public_id = pk;
  listing_id = listing_pk;
  tier = tier;
  status = Status.none;
  billing_mode = BillingMode.none;
  term_days = none;
  started_at = none;
  current_period_end = none;
  trial_ends_at = none;
  dunning_started_at = none;
  grace_ends_at = none;
  cancel_at_period_end = false;
  dunning_ends_at = none;
  failed_attempts = 0;
  last_failure_code = "";
  canceled_at = none;
  canceled_by = "";
  renewal_notified_at = none;
  hidden_by_expiry = false;
  comp_granted_by = none;
  comp_reason = "";
  comp_expires_at = none;
  payment_ref = [];
}

-- the triggers that may create the row
abbrev pub creating : List Trigger
creating = start ∷ start_trial ∷ grant ∷ override ∷ []

-- The listing's entitlement, created if there is none yet.
unfoldable pub ensure :
    Db → ℕ → Trigger → Params → Option Entitlement → Result Error (Db × Entitlement)
ensure db listing_pk trigger p (some ent) = ok (db, ent)
ensure db listing_pk trigger p none = do
  require (any (is_trigger trigger) creating) (invalid_transition Status.none trigger)
  tier ← need p.tier (missing_parameters ("tier" ∷ []))
  let ent = new_entitlement db.next_pk listing_pk tier
  ok (record db { entitlements = db.entitlements ++ (ent ∷ []); next_pk = db.next_pk + 1 }, ent)

-- what a move writes
unfoldable pub commit : Db → Moved → Db
commit db m = record db {
  entitlements = save_entitlement m.ent db.entitlements;
  listings = save_listing m.listing db.listings;
  outbox = db.outbox ++ m.outbox;
  mail = db.mail ++ m.mail;
}

unfoldable pub apply_trigger : Db → ℕ → Trigger → Call → Params → Result Error (Db × Outcome)
unfolding entitlement_of listing_of ensure commit
apply_trigger db listing_pk trigger c p = do
  listing ← need (listing_of db listing_pk) no_listing
  (db', ent) ← ensure db listing_pk trigger p (entitlement_of db listing_pk)
  moved ← move db'.tiers c trigger p ent listing
  ok (commit db' moved, moved.outcome)
