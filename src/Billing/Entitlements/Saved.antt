-- ===== src/Billing/Entitlements/Saved.antt =====
-- What `apply_trigger` leaves in the table of entitlements (billing/entitlements.py).
use osds.Prelude.{
  String, ℕ, ◌≡◌, refl, sym, ◌∙◌, Option, none, some, List, [], ◌∷◌, ◌++◌, find, ◌==◌, ==_iff,
  ==_refl, ok, inl, inr, Option-cases, Result-cases, arith,
}
use osds.Billing.Model.{Entitlement, Tier, Listing, Trigger, override, start}
use osds.Billing.Machine.{Rule}
use osds.Billing.Events.{Event}
use osds.Billing.Model.{Status, trialing}
use osds.Billing.Entitlements.Fields.{Params, Facts}
use osds.Billing.Entitlements.Override.{override_known}
use osds.Billing.Entitlements.Overridden.{override-Overridden}
use osds.Billing.Entitlements.Mutate.{mutate}
use osds.Billing.Entitlements.Display.{visibility_after}
use osds.Billing.Entitlements.Apply.{Call, Outcome, Moved, move, settled}
use osds.Billing.Entitlements.Moves.{move-Steps}
use osds.Billing.Entitlements.Shown.{settled-status}
use osds.Billing.Entitlements.Database.{
  new_entitlement, Db, entitlement_of, listing_of, ensure, save_entitlement, commit, apply_trigger,
}

-- the row is the same entitlement of the same listing
abbrev pub SameRow : Entitlement → Entitlement → Type 0
SameRow e x = (x.pk ≡ e.pk) × (x.listing_id ≡ e.listing_id)

override_known-SameRow :
    (to : Status) (v : String) (ent : Entitlement) (now : ℕ) (p : Params) {m : Entitlement × Facts}
    → override_known (some to) v ent now p ≡ ok m
    → SameRow ent m.0
unfolding override_known
override_known-SameRow trialing v ent now p h = ground arith
override_known-SameRow to v ent now p h = ground arith

mutate-SameRow :
    (t : Trigger) (ent : Entitlement) (rule : Rule) (now : ℕ) (p : Params) {m : Entitlement × Facts}
    → mutate t ent rule now p ≡ ok m
    → SameRow ent m.0
unfolding mutate
mutate-SameRow start ent rule now p h = ground arith
mutate-SameRow override ent rule now p h =
    let o = override-Overridden ent rule now p h in
    override_known-SameRow o.to o.value ent now p o.mutates
mutate-SameRow t ent rule now p h = ground arith

settled-SameRow :
    (tiers : List Tier) (c : Call) (rule : Rule) (prior : Status) (ent : Entitlement)
    (listing : Listing) (evs : List Event)
    → SameRow ent (settled tiers c rule prior ent listing evs).ent
unfolding settled visibility_after
settled-SameRow tiers c rule prior ent listing evs = ground arith

pub move-SameRow :
    (tiers : List Tier) (c : Call) (t : Trigger) (p : Params) (ent : Entitlement)
    (listing : Listing) {m : Moved}
    → move tiers c t p ent listing ≡ ok m
    → SameRow ent m.ent
move-SameRow tiers c t p ent listing h =
    let s = move-Steps tiers c t p ent listing h in
    let a = mutate-SameRow t ent s.rule c.now p s.mutates in
    let b = settled-SameRow tiers c s.rule ent.status s.mutated.0 listing s.events in
    rw s.leaves (b.0 ∙ a.0, b.1 ∙ a.1)

-- the first entitlement of a listing
abbrev pub at_listing : ℕ → List Entitlement → Option Entitlement
at_listing l rows = find (λ e. e.listing_id == l) rows

-- a saved row is the one that its listing finds
pub save_found :
    (m : Entitlement) (rows : List Entitlement) {e : Entitlement}
    → at_listing m.listing_id rows ≡ some e
    → e.pk ≡ m.pk
    → at_listing m.listing_id (save_entitlement m rows) ≡ some m
unfolding save_entitlement
save_found m [] h k = ground arith
save_found m (r ∷ rows) {e = e} h k =
    ground (arith, save_found m rows {e = e}, ==_refl m.listing_id, ==_iff r.pk m.pk)

append_found :
    (l : ℕ) (rows : List Entitlement) (e : Entitlement)
    → at_listing l rows ≡ none
    → e.listing_id ≡ l
    → at_listing l (rows ++ e ∷ []) ≡ some e
append_found l [] e h k = ground (arith, ==_iff e.listing_id l)
append_found l (r ∷ rows) e h k = ground (arith, append_found l rows e)

pub at_listing-id :
    (l : ℕ) (rows : List Entitlement) {e : Entitlement}
    → at_listing l rows ≡ some e
    → e.listing_id ≡ l
at_listing-id l [] h = ground arith
at_listing-id l (r ∷ rows) {e = e} h =
    ground (arith, at_listing-id l rows {e = e}, ==_iff r.listing_id l)

ensured_found :
    (db : Db) (l : ℕ) (t : Trigger) (p : Params) (o : Option Entitlement) {x : Db × Entitlement}
    → at_listing l db.entitlements ≡ o
    → ensure db l t p o ≡ ok x
    → (at_listing l x.0.entitlements ≡ some x.1) × (x.1.listing_id ≡ l)
unfolding ensure
ensured_found db l t p (some e) f h = let i = at_listing-id l db.entitlements f in ground arith
ensured_found db l t p none f h = elim (Option-cases p.tier) [
  | inl q ↦ absurd (ground arith)
  | inr (tier, q) ↦
      let fresh = new_entitlement db.next_pk l tier in
      let a = append_found l db.entitlements fresh f refl in ground arith
]

commit-found :
    (db : Db) (m : Moved) (l : ℕ) {ent : Entitlement}
    → m.ent.listing_id ≡ l
    → at_listing l db.entitlements ≡ some ent
    → ent.pk ≡ m.ent.pk
    → entitlement_of (commit db m) l ≡ some m.ent
unfolding entitlement_of commit
commit-found db m l {ent = ent} i f k =
    rw (← i) (save_found m.ent db.entitlements {e = ent} (rw i f) k)

-- the outcome of a move is of the row that it leaves
pub settled-outcome :
    (m : Moved) (ent : Entitlement) (tiers : List Tier) (c : Call) (t : Trigger) (p : Params)
    (listing : Listing)
    → move tiers c t p ent listing ≡ ok m
    → (m.outcome.from_status ≡ ent.status) × (m.outcome.to_status ≡ m.ent.status)
settled-outcome m ent tiers c t p listing h =
    let s = move-Steps tiers c t p ent listing h in
    (
      rw s.leaves (unfold settled in refl),
      rw s.leaves (
          unfold settled in
          refl ∙ sym (settled-status tiers c s.rule ent.status s.mutated.0 listing s.events)),
    )

-- the listing's entitlement is in the table, in this status
abbrev pub HasStatus : Db → ℕ → Status → Type 0
HasStatus db listing_pk s =
    (e : Entitlement) × (entitlement_of db listing_pk ≡ some e) × (e.status ≡ s)

-- A successful call leaves the listing's entitlement in the table, with the status of its outcome.
pub apply_trigger-saved :
    (db : Db) (l : ℕ) (t : Trigger) (c : Call) (p : Params) {db' : Db} {out : Outcome}
    → apply_trigger db l t c p ≡ ok (db', out)
    → (e : Entitlement) × (entitlement_of db' l ≡ some e) × (e.status ≡ out.to_status)
unfolding apply_trigger entitlement_of commit
apply_trigger-saved db l t c p {db'} {out} h = elim (Option-cases (listing_of db l)) [
  | inl e ↦ absurd (ground arith)
  | inr (listing, k) ↦ elim (Result-cases (ensure db l t p (entitlement_of db l))) [
    | inr (e, fails) ↦ absurd (ground arith)
    | inl ((db'', ent), created) ↦ elim (Result-cases (move db''.tiers c t p ent listing)) [
      | inr (e, fails) ↦ absurd (ground arith)
      | inl (m, moves) ↦
          let (f, i) = ensured_found db l t p (entitlement_of db l) refl created in
          let (k', i') = move-SameRow db''.tiers c t p ent listing moves in
          let same : m.outcome ≡ out = ground arith in
          let left : commit db'' m ≡ db' = ground arith in
          let here : m.ent.listing_id ≡ l = i' ∙ i in
          (
            m.ent,
            rw (← left) (commit-found db'' m l here f (sym k')),
            rw (← same) (sym (settled-outcome m ent db''.tiers c t p listing moves).1),
          )
    ]
  ]
]
