-- ===== src/Billing/Tiers/Validate.antt =====
-- What `_validate` finds wrong with a tier (billing/tiers.py).
use osds.Prelude.{
  String, Bool, true, false, not, ◌&&◌, ◌||◌, Option, none, some, List, [], ◌∷◌, ◌++◌, ◌==◌, leb,
  ltb, has_text, if◌then◌else◌,
}
use osds.Prelude.Time.{ℤ, pos, negsuc}
use text.Mathlib.Text.{◌==◌ as str_eq}
use osds.Billing.Tiers.State.{
  Fault, Fields, Shop, bad_currency, bad_interval, bad_key, bad_perks, bad_rank, bad_trial,
  free_for_sale, no_name, no_price, price_without_sale, slot_backed,
}

-- whether a number is missing or below zero
abbrev is_below_zero : Option ℤ → Bool
is_below_zero none = true
is_below_zero (some (pos n)) = false
is_below_zero (some (negsuc n)) = true

abbrev is_zero : Option ℤ → Bool
is_zero none = false
is_zero (some (pos n)) = n == 0
is_zero (some (negsuc n)) = false

abbrev is_positive : Option ℤ → Bool
is_positive none = false
is_positive (some (pos n)) = ltb 0 n
is_positive (some (negsuc n)) = false

-- Python's truth of an optional number
abbrev is_true : Option ℤ → Bool
is_true none = false
is_true (some (pos n)) = ltb 0 n
is_true (some (negsuc n)) = true

abbrev is_trial : Option ℤ → Bool
is_trial none = true
is_trial (some (pos n)) = leb 1 n && leb n 90
is_trial (some (negsuc n)) = false

abbrev is_interval : String → Bool
is_interval s = str_eq s "month" || str_eq s "year"

abbrev fault : Bool → Fault → List Fault
fault true f = f ∷ []
fault false f = []

-- `_validate`, for a tier with a price and for one without
unfoldable pub sale_faults : Shop → Fields → List Fault
sale_faults s f =
    fault (is_zero f.rank) free_for_sale
    ++ fault (not (is_positive f.price_minor)) no_price
    ++ fault (not (s.matches_currency f.currency)) bad_currency
    ++ fault (not (is_interval f.interval)) bad_interval
    ++ fault (not (is_trial f.trial_days)) bad_trial

abbrev is_priced : Fields → Bool
is_priced f =
    is_true f.price_minor || has_text f.currency || has_text f.interval || is_true f.trial_days

unfoldable pub faults : Shop → String → Fields → List Fault
unfolding sale_faults
faults s key f =
    fault (not (s.matches_key key)) bad_key
    ++ fault (not (has_text (s.strip f.name))) no_name
    ++ fault (is_below_zero f.rank) bad_rank
    ++ fault f.uses_slot slot_backed
    ++ fault (not (s.is_object f.perks)) bad_perks
    ++ (if f.purchasable then sale_faults s f else fault (is_priced f) price_without_sale)
