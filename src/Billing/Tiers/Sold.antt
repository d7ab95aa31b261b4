-- ===== src/Billing/Tiers/Sold.antt =====
-- What the administration of tiers keeps (billing/tiers.py).
use osds.Prelude.{
  ℕ, ◌≡◌, String, true, not, ◌&&◌, Option, List, [], ◌∷◌, ◌++◌, any, all, find, is_empty, Result,
  ok, err, Bool-cases, Option-cases, inl, inr,
}
use osds.Billing.Model.{Tier}
use osds.Billing.Tiers.State.{Shop, Fields, Shelf, TierError}
use osds.Billing.Tiers.Validate.{faults}
use osds.Billing.Tiers.Writes.{
  upper_currency, clashes, clashes_with_other, keeps_key, merged, is_sellable, has_tier_pk,
  is_same_pk, save_tier, merged_row, tier_row, apply_create, apply_update, apply_delete,
}
use osds.Billing.Tiers.Commands.{
  TierCommand, create, update, delete, settings_command, administer, administer_all,
}
use osds.Billing.Tiers.Rows.{
  is_there, sold_append, any_append, sold_save, any_save, sold_select, all_there, all-select,
  and_right,
}

-- Every tier for sale has a rank above zero, a price, a currency and an interval, and every tier that an
-- entitlement or a listing names is there.
pub record SoundShelf (d : Shelf) : Type 0 where
  pub sold : all is_sellable d.tiers ≡ true
  pub entitlements_kept : all (is_there d.tiers) d.entitled ≡ true
  pub listings_kept : all (is_there d.tiers) d.shown ≡ true

-- what a transaction keeps, if it commits
abbrev SoundResult : Result TierError Shelf → Type 0
SoundResult (ok d) = SoundShelf d
SoundResult (err e) = Unit {0}

apply_create-Sound :
    (s : Shop) (operator : ℕ) (key : String) (fields : Fields) (d : Shelf)
    → SoundShelf d
    → SoundResult (apply_create s operator key fields d)
unfolding apply_create
apply_create-Sound s operator key fields d h =
    let f : Fields = upper_currency s fields in
    let t : Tier = tier_row s d.next_pk key f in
    elim (Bool-cases (is_empty (faults s key f))) [
      | inr e1 ↦ rw (e1, apply_create) tt
      | inl e1 ↦ elim (Bool-cases (s.fits t)) [
        | inr e2 ↦ rw (e1, e2, apply_create) tt
        | inl e2 ↦ elim (Bool-cases (not (any (clashes t) d.tiers) && is_sellable t)) [
          | inr e3 ↦ rw (e1, e2, e3, apply_create) tt
          | inl e3 ↦
              rw (e1, e2, e3, apply_create)
                (record {
                  sold = sold_append d.tiers t h.sold (and_right _ _ e3);
                  entitlements_kept =
                      all_there d.tiers (d.tiers ++ t ∷ []) d.entitled (λ k. any_append k d.tiers t)
                        h.entitlements_kept;
                  listings_kept =
                      all_there d.tiers (d.tiers ++ t ∷ []) d.shown (λ k. any_append k d.tiers t)
                        h.listings_kept;
                })
        ]
      ]
    ]

apply_update-Sound :
    (s : Shop) (operator : ℕ) (u : Tier) (key : Option String) (change : Fields → Fields)
    (d : Shelf)
    → SoundShelf d
    → SoundResult (apply_update s operator u key change d)
unfolding apply_update
apply_update-Sound s operator u key change d h =
    let t : Tier = merged_row s change u in
    elim (Bool-cases (keeps_key key u)) [
      | inr e4 ↦ rw (e4, apply_update) tt
      | inl e4 ↦ elim (Bool-cases (is_empty (faults s u.key (merged s change u)))) [
        | inr e1 ↦ rw (e4, e1, apply_update) tt
        | inl e1 ↦ elim (Bool-cases (s.fits t)) [
          | inr e2 ↦ rw (e4, e1, e2, apply_update) tt
          | inl e2 ↦ elim (Bool-cases (not (any (clashes_with_other t) d.tiers) && is_sellable t)) [
            | inr e3 ↦ rw (e4, e1, e2, e3, apply_update) tt
            | inl e3 ↦
                rw (e4, e1, e2, e3, apply_update)
                  (record {
                    sold = sold_save d.tiers t h.sold (and_right _ _ e3);
                    entitlements_kept =
                        all_there d.tiers (save_tier t d.tiers) d.entitled
                          (λ k. any_save k d.tiers t) h.entitlements_kept;
                    listings_kept =
                        all_there d.tiers (save_tier t d.tiers) d.shown (λ k. any_save k d.tiers t)
                          h.listings_kept;
                  })
          ]
        ]
      ]
    ]

apply_delete-Sound :
    (operator : ℕ) (t : Tier) (d : Shelf) → SoundShelf d → SoundResult (apply_delete operator t d)
unfolding apply_delete
apply_delete-Sound operator t d h = elim (Bool-cases (any (is_same_pk t.pk) d.entitled)) [
  | inl e1 ↦ rw (e1, apply_delete) tt
  | inr e1 ↦ elim (Bool-cases (any (is_same_pk t.pk) d.shown)) [
    | inl e2 ↦ rw (e1, e2, apply_delete) tt
    | inr e2 ↦
        rw (e1, e2, apply_delete)
          (record {
            sold = sold_select t.pk d.tiers h.sold;
            entitlements_kept = all-select t.pk d.tiers d.entitled e1 h.entitlements_kept;
            listings_kept = all-select t.pk d.tiers d.shown e2 h.listings_kept;
          })
  ]
]

settings_command-Sound :
    (operator : ℕ) (d : Shelf) (r : Result TierError Shelf)
    → SoundShelf d
    → SoundResult r
    → SoundShelf (settings_command operator d r).0
unfolding settings_command
settings_command-Sound operator d (ok d') h k = record {
  sold = k.sold;
  entitlements_kept = k.entitlements_kept;
  listings_kept = k.listings_kept;
}
settings_command-Sound operator d (err e) h k = record {
  sold = h.sold;
  entitlements_kept = h.entitlements_kept;
  listings_kept = h.listings_kept;
}

administer-Sound :
    (s : Shop) (operator : ℕ) (command : TierCommand) (d : Shelf)
    → SoundShelf d
    → SoundShelf (administer s operator command d).0
unfolding administer
administer-Sound s operator (create key fields) d h =
    settings_command-Sound operator d (apply_create s operator key fields d) h
      (apply_create-Sound s operator key fields d h)
administer-Sound s operator (update pk key change) d h =
    elim (Option-cases (find (has_tier_pk pk) d.tiers)) [
      | inl e ↦ rw (e, administer) h
      | inr (t, e) ↦
          rw (e, administer)
            (settings_command-Sound operator d (apply_update s operator t key change d) h
              (apply_update-Sound s operator t key change d h))
    ]
administer-Sound s operator (delete pk) d h = elim (Option-cases (find (has_tier_pk pk) d.tiers)) [
  | inl e ↦ rw (e, administer) h
  | inr (t, e) ↦
      rw (e, administer)
        (settings_command-Sound operator d (apply_delete operator t d) h
          (apply_delete-Sound operator t d h))
]

-- If every tier for sale has a rank above zero, a price, a currency and an interval, and the tiers that
-- entitlements and listings name are there, this is so after any commands that create, update and delete
-- tiers.
pub administer_all-Sound :
    (s : Shop) (commands : List (ℕ × TierCommand)) (d : Shelf)
    → SoundShelf d
    → SoundShelf (administer_all s commands d)
unfolding administer_all
administer_all-Sound s [] d h = h
administer_all-Sound s ((operator, command) ∷ commands) d h =
    administer_all-Sound s commands (administer s operator command d).0
      (administer-Sound s operator command d h)
