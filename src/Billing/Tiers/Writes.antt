-- ===== src/Billing/Tiers/Writes.antt =====
-- `_create_tier`, `_update_tier` and `_delete_tier` (billing/tiers.py), with the constraints of the table (billing/models.py `Tier`).
use osds.Prelude.{
  ℕ, ◌+◌, String, Bool, true, false, not, ◌&&◌, ◌||◌, Option, none, some, List, [], ◌∷◌, ◌++◌, any,
  select, is_empty, ◌==◌, ltb, has_text, if◌then◌else◌, Result, ok, require, ◌>>◌,
}
use osds.Prelude.Time.{ℤ, pos, negsuc}
use text.Mathlib.Text.{◌==◌ as str_eq}
use osds.Billing.Model.{Tier}
use osds.Billing.Tiers.State.{
  Fields, Shelf, Shop, TierError, add, data_error, has_entitlements, invalid, is_shown, key_changed,
  key_or_rank_taken, rank_taken, remove, replace,
}
use osds.Billing.Tiers.Validate.{faults}

-- the number in a column, which no valid tier has below zero
abbrev column : Option ℤ → Option ℕ
column none = none
column (some (pos n)) = some n
column (some (negsuc n)) = none

abbrev or_zero : Option ℕ → ℕ
or_zero none = 0
or_zero (some n) = n

-- the row that is written
abbrev pub tier_row : Shop → ℕ → String → Fields → Tier
tier_row s pk key f = record {
  pk = pk;
  key = key;
  name = s.strip f.name;
  rank = or_zero (column f.rank);
  purchasable = f.purchasable;
  uses_slot = false;
  price_minor = column f.price_minor;
  currency = f.currency;
  interval = f.interval;
  trial_days = column f.trial_days;
  badge_label = f.badge_label;
  perks = f.perks;
}

abbrev pub upper_currency : Shop → Fields → Fields
upper_currency s f = record f { currency = s.upper f.currency }

-- the unique constraints of `Tier`
abbrev pub clashes : Tier → Tier → Bool
clashes t u = str_eq t.key u.key || t.rank == u.rank

abbrev pub clashes_with_other : Tier → Tier → Bool
clashes_with_other t u = not (t.pk == u.pk) && clashes t u

abbrev is_price : Option ℕ → Bool
is_price none = false
is_price (some n) = ltb 0 n

-- the check constraints of `Tier`
abbrev pub is_sellable : Tier → Bool
is_sellable t =
    not t.purchasable
    || (not (t.rank == 0) && is_price t.price_minor && has_text t.currency && has_text t.interval)

-- `_create_tier`
unfoldable pub apply_create : Shop → ℕ → String → Fields → Shelf → Result TierError Shelf
unfolding faults
apply_create s operator key fields d = do
  require (is_empty (faults s key (upper_currency s fields)))
      (invalid (faults s key (upper_currency s fields)))
  require (s.fits (tier_row s d.next_pk key (upper_currency s fields))) data_error
  require
      (not (any (clashes (tier_row s d.next_pk key (upper_currency s fields))) d.tiers)
        && is_sellable (tier_row s d.next_pk key (upper_currency s fields)))
      key_or_rank_taken
  ok (record d {
    tiers = d.tiers ++ tier_row s d.next_pk key (upper_currency s fields) ∷ [];
    next_pk = d.next_pk + 1;
    changes =
        d.changes
        ++ record {
          op = add;
          value = tier_row s d.next_pk key (upper_currency s fields);
          changed_by = operator;
        }
          ∷ [];
  })

abbrev pub has_tier_pk : ℕ → Tier → Bool
has_tier_pk pk t = t.pk == pk

abbrev pub is_other_tier : ℕ → Tier → Bool
is_other_tier pk t = not (t.pk == pk)

abbrev pub is_same_pk : ℕ → ℕ → Bool
is_same_pk a b = a == b

-- `_delete_tier`
unfoldable pub apply_delete : ℕ → Tier → Shelf → Result TierError Shelf
apply_delete operator t d = do
  require (not (any (is_same_pk t.pk) d.entitled)) has_entitlements
  require (not (any (is_same_pk t.pk) d.shown)) is_shown
  ok (record d {
    tiers = select (is_other_tier t.pk) d.tiers;
    changes = d.changes ++ record { op = remove; value = t; changed_by = operator } ∷ [];
  })

-- the columns of a row that `_update_tier` starts from
abbrev pub number : Option ℕ → Option ℤ
number none = none
number (some n) = some (pos n)

abbrev fields_of : Tier → Fields
fields_of t = record {
  name = t.name;
  rank = some (pos t.rank);
  purchasable = t.purchasable;
  uses_slot = t.uses_slot;
  price_minor = number t.price_minor;
  currency = t.currency;
  interval = t.interval;
  trial_days = number t.trial_days;
  badge_label = t.badge_label;
  perks = t.perks;
}

abbrev pub keeps_key : Option String → Tier → Bool
keeps_key none t = true
keeps_key (some key) t = str_eq key t.key

abbrev is_same_flag : Bool → Bool → Bool
is_same_flag true b = b
is_same_flag false b = not b

abbrev is_same_number : Option ℕ → Option ℕ → Bool
is_same_number none none = true
is_same_number none (some b) = false
is_same_number (some a) none = false
is_same_number (some a) (some b) = a == b

-- `tier_value(tier) == before`
abbrev is_same_value : Tier → Tier → Bool
is_same_value t u =
    str_eq t.key u.key
    && str_eq t.name u.name
    && t.rank == u.rank
    && is_same_flag t.purchasable u.purchasable
    && is_same_flag t.uses_slot u.uses_slot
    && is_same_number t.price_minor u.price_minor
    && str_eq t.currency u.currency
    && str_eq t.interval u.interval
    && is_same_number t.trial_days u.trial_days
    && str_eq t.badge_label u.badge_label
    && str_eq t.perks u.perks

unfoldable pub save_tier : Tier → List Tier → List Tier
save_tier t [] = []
save_tier t (u ∷ tiers) = (if u.pk == t.pk then t else u) ∷ save_tier t tiers

-- the fields after the changes
abbrev pub merged : Shop → (Fields → Fields) → Tier → Fields
merged s change t = upper_currency s (change (fields_of t))

abbrev pub merged_row : Shop → (Fields → Fields) → Tier → Tier
merged_row s change t = tier_row s t.pk t.key (merged s change t)

-- `_update_tier`: `change` overwrites the fields that the caller names
unfoldable pub apply_update :
    Shop → ℕ → Tier → Option String → (Fields → Fields) → Shelf → Result TierError Shelf
unfolding faults save_tier
apply_update s operator t key change d = do
  require (keeps_key key t) key_changed
  require (is_empty (faults s t.key (merged s change t)))
      (invalid (faults s t.key (merged s change t)))
  require (s.fits (merged_row s change t)) data_error
  require
      (not (any (clashes_with_other (merged_row s change t)) d.tiers)
        && is_sellable (merged_row s change t))
      rank_taken
  ok (record d {
    tiers = save_tier (merged_row s change t) d.tiers;
    changes =
        if is_same_value t (merged_row s change t)
        then d.changes
        else d.changes
          ++ record { op = replace; value = merged_row s change t; changed_by = operator } ∷ [];
  })
