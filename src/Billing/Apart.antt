-- ===== src/Billing/Apart.antt =====
-- The table of entitlements with one row for each key and each listing (billing/models.py `Entitlement`, whose listing
-- is one to one), and what a saved row changes in it.
use osds.Prelude.{
  ℕ, ◌≡◌, refl, Bool, true, false, not, ◌||◌, some, is_some, List, [], ◌∷◌, any, all, find, ◌==◌,
  ==_iff, ==_refl, inl, inr, Bool-cases, arith,
}
use osds.Billing.Model.{Entitlement, Listing}
use osds.Billing.Entitlements.Database.{save_entitlement, save_listing}
use osds.Billing.Entitlements.Saved.{at_listing}

-- the row has the key or the listing
abbrev pub shares : ℕ → ℕ → Entitlement → Bool
shares pk l x = x.pk == pk || x.listing_id == l

-- the keys and the listings are unique
abbrev pub Apart : List Entitlement → Type 0
Apart [] = Unit {0}
Apart (e ∷ rows) = (any (shares e.pk e.listing_id) rows ≡ false) × Apart rows

-- a row with the key has the listing
abbrev pub agrees : ℕ → ℕ → Entitlement → Bool
agrees pk l x = not (x.pk == pk) || x.listing_id == l

unshared_agrees :
    (pk l : ℕ) (rows : List Entitlement)
    → any (shares pk l) rows ≡ false
    → all (agrees pk l) rows ≡ true
unshared_agrees pk l [] h = refl
unshared_agrees pk l (x ∷ rows) h = ground (arith, unshared_agrees pk l rows)

found_unshared :
    (pk k l : ℕ) (rows : List Entitlement) {e : Entitlement}
    → any (shares pk k) rows ≡ false
    → at_listing l rows ≡ some e
    → shares pk k e ≡ false
found_unshared pk k l [] h f = ground arith
found_unshared pk k l (x ∷ rows) {e = e} h f = ground (arith, found_unshared pk k l rows {e = e})

pub found_agrees :
    (l : ℕ) (rows : List Entitlement) {e : Entitlement}
    → Apart rows
    → at_listing l rows ≡ some e
    → all (agrees e.pk e.listing_id) rows ≡ true
found_agrees l [] a f = refl
found_agrees l (x ∷ rows) {e = e} (first, rest) f = elim (Bool-cases (x.listing_id == l)) [
  | inl k ↦
      let same : some x ≡ some e = rw k at f in
      ground
        (arith, unshared_agrees x.pk x.listing_id rows first, ==_refl x.pk, ==_refl x.listing_id)
  | inr k ↦
      let f' : at_listing l rows ≡ some e = rw k at f in
      let away = found_unshared x.pk x.listing_id l rows {e = e} first f' in
      ground (arith, found_agrees l rows {e = e} rest f', ==_iff x.pk e.pk, ==_iff e.pk x.pk)
]

-- what a saved row leaves of the others
pub save_other :
    (m : Entitlement) (l : ℕ) (rows : List Entitlement)
    → all (agrees m.pk m.listing_id) rows ≡ true
    → (l == m.listing_id) ≡ false
    → at_listing l (save_entitlement m rows) ≡ at_listing l rows
unfolding save_entitlement
save_other m l [] a h = refl
save_other m l (x ∷ rows) a h = ground (
  arith,
  save_other m l rows,
  ==_iff l m.listing_id,
  ==_iff m.listing_id l,
  ==_iff x.listing_id m.listing_id,
  ==_iff x.listing_id l,
)

save_shares :
    (m : Entitlement) (pk l : ℕ) (rows : List Entitlement)
    → all (agrees m.pk m.listing_id) rows ≡ true
    → any (shares pk l) (save_entitlement m rows) ≡ any (shares pk l) rows
unfolding save_entitlement
save_shares m pk l [] a = refl
save_shares m pk l (x ∷ rows) a =
    ground (arith, save_shares m pk l rows, ==_iff x.pk m.pk, ==_iff x.listing_id m.listing_id)

pub save-Apart :
    (m : Entitlement) (rows : List Entitlement)
    → all (agrees m.pk m.listing_id) rows ≡ true
    → Apart rows
    → Apart (save_entitlement m rows)
unfolding save_entitlement
save-Apart m [] a h = tt
save-Apart m (x ∷ rows) a (first, rest) =
    let a' : all (agrees m.pk m.listing_id) rows ≡ true = ground arith in
    elim (Bool-cases (x.pk == m.pk)) [
      | inr k ↦ rw k (rw (save_shares m x.pk x.listing_id rows a') first, save-Apart m rows a' rest)
      | inl k ↦
          let p : x.pk ≡ m.pk = ground (arith, ==_iff x.pk m.pk) in
          let q : x.listing_id ≡ m.listing_id = ground (arith, ==_iff x.listing_id m.listing_id) in
          rw k (
            rw (save_shares m m.pk m.listing_id rows a', ← p, ← q) first,
            save-Apart m rows a' rest,
          )
    ]

-- whether a listing is in the table
abbrev pub has_listing : List Listing → Entitlement → Bool
has_listing listings e = is_some (find (λ l. l.pk == e.listing_id) listings)

save_listing_there :
    (x : Listing) (e : Entitlement) (listings : List Listing)
    → has_listing (save_listing x listings) e ≡ has_listing listings e
unfolding save_listing
save_listing_there x e [] = refl
save_listing_there x e (y ∷ listings) =
    ground (arith, save_listing_there x e listings, ==_iff y.pk x.pk)

pub placed_listing :
    (x : Listing) (listings : List Listing) (rows : List Entitlement)
    → all (has_listing listings) rows ≡ true
    → all (has_listing (save_listing x listings)) rows ≡ true
placed_listing x listings [] h = refl
placed_listing x listings (e ∷ rows) h =
    ground (arith, placed_listing x listings rows, save_listing_there x e listings)

pub placed_save :
    (m : Entitlement) (listings : List Listing) (rows : List Entitlement)
    → all (agrees m.pk m.listing_id) rows ≡ true
    → all (has_listing listings) rows ≡ true
    → all (has_listing listings) (save_entitlement m rows) ≡ true
unfolding save_entitlement
placed_save m listings [] a h = refl
placed_save m listings (x ∷ rows) a h = elim (Bool-cases (x.pk == m.pk)) [
  | inr k ↦ rw k (ground (arith, placed_save m listings rows))
  | inl k ↦
      let q : x.listing_id ≡ m.listing_id = ground (arith, ==_iff x.listing_id m.listing_id) in
      let there : has_listing listings x ≡ true = ground arith in
      let there' : has_listing listings m ≡ true = rw (← q) there in
      rw (k, there') (placed_save m listings rows (ground arith) (ground arith))
]

pub placed_found :
    (l : ℕ) (listings : List Listing) (rows : List Entitlement) {e : Entitlement}
    → all (has_listing listings) rows ≡ true
    → at_listing l rows ≡ some e
    → has_listing listings e ≡ true
placed_found l listings [] h f = ground arith
placed_found l listings (x ∷ rows) {e = e} h f = elim (Bool-cases (x.listing_id == l)) [
  | inl k ↦
      let same : some x ≡ some e = rw k at f in
      let there : has_listing listings x ≡ true = ground arith in cc (same, there)
  | inr k ↦ placed_found l listings rows {e = e} (ground arith) (rw k at f)
]
