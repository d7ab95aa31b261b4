-- ===== src/Billing/TierExamples.antt =====
-- Tests of the administration of tiers on a concrete shelf, and an instance of its theorem.
use osds.Prelude.{ℕ, ◌≡◌, refl, true, false, none, some, List, [], ◌∷◌, length}
use osds.Prelude.Time.{pos, negsuc}
use osds.Audit.CommandLog.{log_received, log_conclude}
use osds.Billing.Tiers.State.{Shop, Fields, Shelf, bad_rank, no_price, has_entitlements}
use osds.Billing.Tiers.Validate.{sale_faults, faults}
use osds.Billing.Tiers.Writes.{apply_create, apply_update, apply_delete, save_tier}
use osds.Billing.Tiers.Commands.{
  TierCommand, create, update, delete, settings_command, administer, administer_all,
}
use osds.Billing.Tiers.Sold.{SoundShelf, administer_all-Sound}

abbrev shop : Shop
shop = record {
  matches_key = λ s. true;
  matches_currency = λ s. true;
  strip = λ s. s;
  upper = λ s. s;
  is_object = λ s. true;
  fits = λ t. true;
}

abbrev gold : Fields
gold = record {
  name = "Gold";
  rank = some (pos 2);
  purchasable = true;
  uses_slot = false;
  price_minor = some (pos 900);
  currency = "USD";
  interval = "month";
  trial_days = some (pos 14);
  badge_label = "";
  perks = "{}";
}

abbrev shelf : Shelf
shelf = record { tiers = []; next_pk = 0; entitled = []; shown = []; changes = []; log = [] }

abbrev commands : List (ℕ × TierCommand)
commands =
    (1, create "gold" gold)
    ∷ (1, create "other" gold)
    ∷ (1, update 0 none (λ f. record f { price_minor = some (pos 950) }))
    ∷ (1, delete 5)
    ∷ []

-- the second tier has the first one's rank, and the last command finds no tier
after_commands : length (administer_all shop commands shelf).changes ≡ 2
unfolding administer_all administer settings_command apply_create apply_update apply_delete
    save_tier faults sale_faults log_received log_conclude
after_commands = refl

faulty :
    faults shop "gold" (record gold { rank = some (negsuc 0); price_minor = none })
    ≡ bad_rank ∷ no_price ∷ []
unfolding faults sale_faults
faulty = refl

in_use :
    (administer shop 1
      (delete 0)
      (record (administer_all shop commands shelf) { entitled = 0 ∷ [] })).1
    ≡ some has_entitlements
unfolding administer_all administer settings_command apply_create apply_update apply_delete
    save_tier faults sale_faults log_received log_conclude
in_use = refl

administer_all-Sound_example : SoundShelf (administer_all shop commands shelf)
administer_all-Sound_example =
    administer_all-Sound shop commands shelf
      (record { sold = refl; entitlements_kept = refl; listings_kept = refl })
