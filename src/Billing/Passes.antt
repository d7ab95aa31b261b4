-- ===== src/Billing/Passes.antt =====
-- One pass of the worker over the entitlements that are due (billing/jobs.py `entitlement_transitions`).
use osds.Prelude.{
  zero, suc, ℕ, ◌+◌, ◌≡◌, ◌≤◌, refl, sym, ◌∙◌, ap, Bool, true, false, Option, none, some, is_some,
  List, [], ◌∷◌, any, all, find, select, take, length, ◌==◌, ==_iff, ==_refl, ok, inl, inr,
  Bool-cases, Option-cases, arith,
}
use osds.Billing.Model.{Entitlement, Listing, Tier, Trigger}
use osds.Billing.Machine.{clock_triggers, Error, is_clock, is_due, trial_overdue_window}
use osds.Billing.Entitlements.Fields.{no_params}
use osds.Billing.Entitlements.Apply.{Moved, move}
use osds.Billing.Entitlements.Database.{
  Db, entitlement_of, listing_of, ensure, commit, apply_trigger,
}
use osds.Billing.Entitlements.Saved.{at_listing, move-SameRow, save_found}
use osds.Billing.Jobs.{
  chunk, is_due_row, trigger_for, tick, moved, move_row, move_rows, entitlement_transitions,
}
use osds.Billing.Clock.{clock_move-ok, is_due_row-trigger_for}
use osds.Billing.Apart.{
  Apart, shares, agrees, found_agrees, save_other, save-Apart, has_listing, placed_listing,
  placed_save, placed_found,
}

-- Keys and listings of the entitlements are unique, and each one's listing is in the table.
pub record Consistent (db : Db) : Type 0 where
  pub apart : Apart db.entitlements
  pub placed : all (has_listing db.listings) db.entitlements ≡ true

-- The clock moved the row `r` to `e`.
pub record Moves (now : ℕ) (r e : Entitlement) : Type 0 where
  pub tiers : List Tier
  pub listing : Listing
  pub trigger : Trigger
  pub result : Moved
  pub found : trigger_for r now ≡ some trigger
  pub moves : move tiers (tick now) trigger no_params r listing ≡ ok result
  pub leaves : result.ent ≡ e

find_holds {ℓ} :
    {A : Type ℓ} (test q : A → Bool) (xs : List A) {x : A}
    → find test xs ≡ some x
    → all q xs ≡ true
    → (test x ≡ true) × (q x ≡ true)
find_holds test q [] f a = cc
find_holds test q (y ∷ xs) {x = x} f a = elim (Bool-cases (test y)) [
  | inl e ↦
      let same : some y ≡ some x = rw e at f in
      let b : q y ≡ true = ground arith in (cc (same, e), cc (same, b))
  | inr e ↦ find_holds test q xs {x = x} (rw e at f) (ground arith)
]

trigger_clock :
    (r : Entitlement) (now : ℕ) {t : Trigger}
    → trigger_for r now ≡ some t
    → (is_clock t ≡ true) × (is_due r t now ≡ true)
unfolding trigger_for
trigger_clock r now h =
    let (d, c) = find_holds (λ t. is_due r t now) is_clock clock_triggers h refl in (c, d)

tick-move :
    (db : Db) (now : ℕ) (r : Entitlement) (listing : Listing) (t : Trigger)
    → at_listing r.listing_id db.entitlements ≡ some r
    → listing_of db r.listing_id ≡ some listing
    → trigger_for r now ≡ some t
    → (m : Moved) × (move db.tiers (tick now) t no_params r listing ≡ ok m)
      × (move_row db now r ≡ moved (commit db m))
unfolding move_row apply_trigger ensure entitlement_of
tick-move db now r listing t f l h =
    let (c, d) = trigger_clock r now h in
    let (m, moves) = clock_move-ok db.tiers (tick now) t no_params r listing c d in
    (m, moves, rw (move_row, h, apply_trigger, l, entitlement_of, f, ensure, moves) refl)

-- One row of a pass moves, and the pass goes on with a table that is kept so.
pub record RowMoved (db : Db) (now : ℕ) (r : Entitlement) : Type 0 where
  pub db' : Db
  pub end : move_row db now r ≡ moved db'
  pub kept : Consistent db'
  pub row : Entitlement
  pub by : Moves now r row
  pub there : at_listing r.listing_id db'.entitlements ≡ some row
  pub others :
      (l : ℕ)
      → (l == r.listing_id) ≡ false
      → at_listing l db'.entitlements ≡ at_listing l db.entitlements

move_row-RowMoved :
    (db : Db) (now : ℕ) (r : Entitlement)
    → Consistent db
    → at_listing r.listing_id db.entitlements ≡ some r
    → is_some (trigger_for r now) ≡ true
    → RowMoved db now r
unfolding commit listing_of
move_row-RowMoved db now r k f s = elim (Option-cases (listing_of db r.listing_id)) [
  | inl e ↦ absurd (
      unfold listing_of in
      cc (e, placed_found r.listing_id db.listings db.entitlements {e = r} k.placed f))
  | inr (listing, l) ↦ elim (Option-cases (trigger_for r now)) [
    | inl e ↦ cc (rw e at s)
    | inr (t, h) ↦
        let (m, moves, end) = tick-move db now r listing t f l h in
        let (p, q) = move-SameRow db.tiers (tick now) t no_params r listing moves in
        let a : all (agrees m.ent.pk m.ent.listing_id) db.entitlements ≡ true =
          rw (p, q) (found_agrees r.listing_id db.entitlements k.apart f) in
        record {
          db' = commit db m;
          end = end;
          kept = record {
            apart = save-Apart m.ent db.entitlements a k.apart;
            placed =
                placed_save m.ent _ db.entitlements a
                  (placed_listing m.listing db.listings db.entitlements k.placed);
          };
          row = m.ent;
          by = record {
            tiers = db.tiers;
            listing = listing;
            trigger = t;
            result = m;
            found = h;
            moves = moves;
            leaves = refl;
          };
          there = rw (← q) (save_found m.ent db.entitlements {e = r} (rw q f) (sym p));
          others = λ l' away. save_other m.ent l' db.entitlements a (rw q away);
        }
  ]
]

-- the rows of a pass, as the query read them, are those of the table
abbrev pub Ready : ℕ → List Entitlement → List Entitlement → Type 0
Ready now table [] = Unit {0}
Ready now table (r ∷ rows) =
    (at_listing r.listing_id table ≡ some r)
    × (is_some (trigger_for r now) ≡ true)
    × Ready now table rows

-- the rest of the rows is ready still after one of another listing has moved
Ready-after :
    (now pk l : ℕ) (table table' rows : List Entitlement)
    → ((k : ℕ) → (k == l) ≡ false → at_listing k table' ≡ at_listing k table)
    → any (shares pk l) rows ≡ false
    → Ready now table rows
    → Ready now table' rows
Ready-after now pk l table table' [] o h r = tt
Ready-after now pk l table table' (x ∷ rows) o h (f, t, rest) = (
  o x.listing_id (ground arith) ∙ f,
  t,
  Ready-after now pk l table table' rows o (ground arith) rest,
)

-- what a pass over `rows` leaves of the listing `l`
pub record Passed (now l : ℕ) (rows : List Entitlement) (db : Db) (end : Db × ℕ × Option Error)
    : Type 0 where
  pub kept : Consistent end.0
  pub fine : end.2 ≡ none
  pub unmoved :
      at_listing l rows ≡ none → at_listing l end.0.entitlements ≡ at_listing l db.entitlements
  pub moved_to :
      (r : Entitlement)
      → at_listing l rows ≡ some r
      → (e : Entitlement) × Moves now r e × (at_listing l end.0.entitlements ≡ some e)

none_shared :
    (pk l : ℕ) (rows : List Entitlement) → any (shares pk l) rows ≡ false → at_listing l rows ≡ none
none_shared pk l [] h = refl
none_shared pk l (x ∷ rows) h = ground (arith, none_shared pk l rows)

same_row : {now : ℕ} {r r' e : Entitlement} → r ≡ r' → Moves now r e → Moves now r' e
same_row p m = rw (← p) m

move_rows-Passed :
    (l : ℕ) (rows : List Entitlement) (now : ℕ) (db : Db) (done : ℕ)
    → Consistent db
    → Apart rows
    → Ready now db.entitlements rows
    → Passed now l rows db (move_rows rows now db done)
unfolding move_rows
move_rows-Passed l [] now db done k a r = record {
  kept = k;
  fine = refl;
  unmoved = λ h. refl;
  moved_to = λ r' h. cc h;
}
move_rows-Passed l (r ∷ rows) now db done k (first, apart) (f, t, ready) =
    let one = move_row-RowMoved db now r k f t in
    let rest = move_rows-Passed l rows now one.db' (done + 1) one.kept apart (
      Ready-after now r.pk r.listing_id db.entitlements one.db'.entitlements rows one.others first
        ready) in
    rw (one.end, move_rows)
      (record {
        kept = rest.kept;
        fine = rest.fine;
        unmoved = λ h. elim (Bool-cases (r.listing_id == l)) [
          | inl e ↦ cc (rw e at h)
          | inr e ↦
              rest.unmoved (rw e at h)
              ∙ one.others l (ground (arith, ==_iff l r.listing_id, ==_iff r.listing_id l))
        ];
        moved_to = λ r' h. elim (Bool-cases (r.listing_id == l)) [
          | inr e ↦ rest.moved_to r' (rw e at h)
          | inl e ↦
              let here : r.listing_id ≡ l = ground (arith, ==_iff r.listing_id l) in
              let none_left : at_listing l rows ≡ none =
                rw (← here) (none_shared r.pk r.listing_id rows first) in
              let same : some r ≡ some r' = rw e at h in
              (one.row, same_row (cc same) one.by, rest.unmoved none_left ∙ (rw (← here) one.there))
        ];
      })

-- the query's rows are ready
Ready-under :
    (now : ℕ) (e : Entitlement) (table rows : List Entitlement)
    → any (shares e.pk e.listing_id) rows ≡ false
    → Ready now table rows
    → Ready now (e ∷ table) rows
Ready-under now e table [] h r = tt
Ready-under now e table (x ∷ rows) h (f, t, rest) =
    let away : (e.listing_id == x.listing_id) ≡ false =
      ground (arith, ==_iff e.listing_id x.listing_id, ==_iff x.listing_id e.listing_id) in
    (rw (away) f, t, Ready-under now e table rows (ground arith) rest)

unshared_select :
    (test : Entitlement → Bool) (pk l : ℕ) (rows : List Entitlement)
    → any (shares pk l) rows ≡ false
    → any (shares pk l) (select test rows) ≡ false
unshared_select test pk l [] h = refl
unshared_select test pk l (x ∷ rows) h = ground (arith, unshared_select test pk l rows)

Apart-select :
    (test : Entitlement → Bool) (rows : List Entitlement) → Apart rows → Apart (select test rows)
Apart-select test [] a = tt
Apart-select test (x ∷ rows) (first, rest) = elim (Bool-cases (test x)) [
  | inr e ↦ rw e (Apart-select test rows rest)
  | inl e ↦ rw e (unshared_select test x.pk x.listing_id rows first, Apart-select test rows rest)
]

select-Ready :
    (now : ℕ) (table : List Entitlement)
    → trial_overdue_window ≤ now
    → Apart table
    → Ready now table (select (is_due_row now) table)
select-Ready now [] w a = tt
select-Ready now (x ∷ table) w (first, rest) =
    let under =
      Ready-under now x table (select (is_due_row now) table)
        (unshared_select (is_due_row now) x.pk x.listing_id table first)
        (select-Ready now table w rest) in
    elim (Bool-cases (is_due_row now x)) [
      | inr e ↦ rw e under
      | inl e ↦
          rw e (rw (==_refl x.listing_id) refl, sym (is_due_row-trigger_for x now w) ∙ e, under)
    ]

select_found :
    (test : Entitlement → Bool) (l : ℕ) (rows : List Entitlement) {r : Entitlement}
    → test r ≡ true
    → at_listing l rows ≡ some r
    → at_listing l (select test rows) ≡ some r
select_found test l [] e f = f
select_found test l (x ∷ rows) {r = r} e f = elim (Bool-cases (x.listing_id == l)) [
  | inl h ↦
      let same : some x ≡ some r = rw h at f in
      let due : test x ≡ true = cc (same, e) in rw (due, h) same
  | inr h ↦
      let below = select_found test l rows {r = r} e (rw h at f) in
      elim (Bool-cases (test x)) [ inl d ↦ rw (d, h) below | inr d ↦ rw d below ]
]

take_all : (n : ℕ) (rows : List Entitlement) → length rows ≤ n → take n rows ≡ rows
take_all zero [] h = refl
take_all zero (x ∷ rows) h = absurd (omega arith)
take_all (suc n) [] h = refl
take_all (suc n) (x ∷ rows) h = ap (λ xs. x ∷ xs) (take_all n rows (omega arith))

-- how many rows a pass would find due
abbrev pub due_count : ℕ → Db → ℕ
due_count now db = length (select (is_due_row now) db.entitlements)

-- A pass ends without an exception, where the entitlements' keys and listings are unique, their listings are in the
-- table, and no more rows are due than it takes, and a row that is due when it starts is then in the table as a trigger
-- of the clock moved it, once. The keys and listings of the table are unique still.
pub entitlement_transitions-Moves :
    (db : Db) (now l : ℕ) (r : Entitlement)
    → Consistent db
    → trial_overdue_window ≤ now
    → due_count now db ≤ chunk
    → entitlement_of db l ≡ some r
    → is_due_row now r ≡ true
    → let p = entitlement_transitions db now in
      Consistent p.db
      × (p.error ≡ none)
      × (e : Entitlement) × Moves now r e
      × (entitlement_of p.db l ≡ some e)
unfolding entitlement_transitions entitlement_of
entitlement_transitions-Moves db now l r k w few f due =
    let rows : List Entitlement = select (is_due_row now) db.entitlements in
    let p =
      move_rows-Passed l rows now db 0 k (Apart-select (is_due_row now) db.entitlements k.apart)
        (select-Ready now db.entitlements w k.apart) in
    let (e, by, there) = p.moved_to r (select_found (is_due_row now) l db.entitlements due f) in
    rw (entitlement_transitions, take_all chunk rows few) (p.kept, p.fine, e, by, there)
