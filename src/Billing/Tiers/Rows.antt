-- ===== src/Billing/Tiers/Rows.antt =====
-- Lists of tiers under the writes of their administration (billing/tiers.py).
use osds.Prelude.{
  ℕ, ◌≡◌, refl, Bool, true, false, ◌&&◌, List, [], ◌∷◌, ◌++◌, any, all, select, ◌==◌, Bool-cases,
  inl, inr, arith,
}
use osds.Billing.Model.{Tier}
use osds.Billing.Tiers.Writes.{is_sellable, has_tier_pk, is_other_tier, is_same_pk, save_tier}

-- whether the table has the tier
abbrev pub is_there : List Tier → ℕ → Bool
is_there tiers pk = any (has_tier_pk pk) tiers

pub sold_append :
    (tiers : List Tier) (t : Tier)
    → all is_sellable tiers ≡ true
    → is_sellable t ≡ true
    → all is_sellable (tiers ++ t ∷ []) ≡ true
sold_append [] t h e = ground arith
sold_append (u ∷ tiers) t h e = ground (arith, sold_append tiers t)

pub any_append :
    (pk : ℕ) (tiers : List Tier) (t : Tier)
    → is_there tiers pk ≡ true
    → is_there (tiers ++ t ∷ []) pk ≡ true
any_append pk [] t h = ground arith
any_append pk (u ∷ tiers) t h = ground (arith, any_append pk tiers t)

pub sold_save :
    (tiers : List Tier) (t : Tier)
    → all is_sellable tiers ≡ true
    → is_sellable t ≡ true
    → all is_sellable (save_tier t tiers) ≡ true
unfolding save_tier
sold_save [] t h e = refl
sold_save (u ∷ tiers) t h e = elim (Bool-cases (u.pk == t.pk)) [
  | inl f ↦ rw (f, save_tier) (ground (arith, sold_save tiers t))
  | inr f ↦ rw (f, save_tier) (ground (arith, sold_save tiers t))
]

pub any_save :
    (pk : ℕ) (tiers : List Tier) (t : Tier)
    → is_there tiers pk ≡ true
    → is_there (save_tier t tiers) pk ≡ true
unfolding save_tier
any_save pk [] t h = h
any_save pk (u ∷ tiers) t h = ground (arith, any_save pk tiers t)

pub sold_select :
    (pk : ℕ) (tiers : List Tier)
    → all is_sellable tiers ≡ true
    → all is_sellable (select (is_other_tier pk) tiers) ≡ true
sold_select pk [] h = refl
sold_select pk (u ∷ tiers) h = elim (Bool-cases (u.pk == pk)) [
  | inl f ↦ rw f (ground (arith, sold_select pk tiers))
  | inr f ↦ rw f (ground (arith, sold_select pk tiers))
]

any_select :
    (pk k : ℕ) (tiers : List Tier)
    → is_same_pk pk k ≡ false
    → is_there tiers k ≡ true
    → is_there (select (is_other_tier pk) tiers) k ≡ true
any_select pk k [] e h = h
any_select pk k (u ∷ tiers) e h = ground (arith, any_select pk k tiers)

module _ (before after : List Tier) where
  -- the tiers that are named stay there
  pub all_there :
      (pks : List ℕ)
      → ((k : ℕ) → is_there before k ≡ true → is_there after k ≡ true)
      → all (is_there before) pks ≡ true
      → all (is_there after) pks ≡ true
  all_there [] f h = refl
  all_there (k ∷ pks) f h = ground (arith, all_there pks f, f k)

pub all-select :
    (pk : ℕ) (tiers : List Tier) (pks : List ℕ)
    → any (is_same_pk pk) pks ≡ false
    → all (is_there tiers) pks ≡ true
    → all (is_there (select (is_other_tier pk) tiers)) pks ≡ true
all-select pk tiers [] e h = refl
all-select pk tiers (k ∷ pks) e h = ground (arith, all-select pk tiers pks, any_select pk k tiers)

pub and_right : (a b : Bool) → (a && b) ≡ true → b ≡ true
and_right a b h = ground arith
