-- ===== src/Billing/Entitlements/Visibility.antt =====
-- When a move hides or publishes the listing (billing/entitlements.py `_visibility_after`).
use osds.Prelude.{ℕ, ◌≡◌, ◌⊎◌, true, false, ◌∙◌, none, some, String, List, ok, arith}
use osds.Billing.Model.{
  Status, trialing, expired, Entitlement, Tier, Listing, published, hidden, Trigger, start,
  override,
}
use osds.Billing.Events.{Event}
use osds.Billing.Machine.{Rule, is_in, perk_statuses}
use osds.Billing.Entitlements.Fields.{Params, Facts}
use osds.Billing.Entitlements.Override.{override_known}
use osds.Billing.Entitlements.Overridden.{override-Overridden}
use osds.Billing.Entitlements.Mutate.{mutate}
use osds.Billing.Entitlements.Display.{rank0_tier, set_tier, visibility_after}
use osds.Billing.Entitlements.Apply.{Call, Moved, settled, move}
use osds.Billing.Entitlements.Moves.{move-Steps}

override-hidden_by_expiry :
    (to : Status) (v : String) (ent : Entitlement) (now : ℕ) (p : Params) {m : Entitlement × Facts}
    → override_known (some to) v ent now p ≡ ok m
    → m.0.hidden_by_expiry ≡ ent.hidden_by_expiry
unfolding override_known
override-hidden_by_expiry trialing v ent now p h = ground arith
override-hidden_by_expiry to v ent now p h = ground arith

-- The fields of a trigger leave the flag alone.
pub mutate-hidden_by_expiry :
    (t : Trigger) (ent : Entitlement) (rule : Rule) (now : ℕ) (p : Params) {m : Entitlement × Facts}
    → mutate t ent rule now p ≡ ok m
    → m.0.hidden_by_expiry ≡ ent.hidden_by_expiry
unfolding mutate
mutate-hidden_by_expiry start ent rule now p h = ground arith
mutate-hidden_by_expiry override ent rule now p h =
    let o = override-Overridden ent rule now p h in
    override-hidden_by_expiry o.to o.value ent now p o.mutates
mutate-hidden_by_expiry t ent rule now p h = ground arith

-- The ways in which a move can leave the listing's visibility.
abbrev pub Kept : List Tier → Entitlement → Listing → Moved → Type 0
Kept tiers ent listing m =
    (m.listing.visibility ≡ listing.visibility)
    × ((m.ent.hidden_by_expiry ≡ ent.hidden_by_expiry) ⊎ (m.ent.hidden_by_expiry ≡ false))

abbrev pub Hid : List Tier → Entitlement → Listing → Moved → Type 0
Hid tiers ent listing m =
    (listing.visibility ≡ published)
    × (m.listing.visibility ≡ hidden)
    × (m.ent.status ≡ expired)
    × (rank0_tier tiers ≡ none)
    × (m.ent.hidden_by_expiry ≡ true)

abbrev pub Unhid : List Tier → Entitlement → Listing → Moved → Type 0
Unhid tiers ent listing m =
    (listing.visibility ≡ hidden)
    × (m.listing.visibility ≡ published)
    × (is_in perk_statuses m.ent.status ≡ true)
    × (ent.hidden_by_expiry ≡ true)
    × (m.ent.hidden_by_expiry ≡ false)

settled_visibility :
    (tiers : List Tier) (c : Call) (rule : Rule) (prior : Status) (ent : Entitlement)
    (listing : Listing) (evs : List Event)
    → let m = settled tiers c rule prior ent listing evs in
      Kept tiers ent listing m ⊎ (Hid tiers ent listing m ⊎ Unhid tiers ent listing m)
unfolding settled set_tier visibility_after
settled_visibility tiers c rule prior ent listing evs = ground arith

-- A successful move leaves the visibility as it was, and the flag as it was or clear; or it hides a
-- published listing because the entitlement is now expired and there is no rank-0 tier, and sets the
-- flag; or it publishes a hidden listing whose flag is set because the status now has perks, and
-- clears the flag.
pub move_visibility :
    (tiers : List Tier) (c : Call) (t : Trigger) (p : Params) (ent : Entitlement)
    (listing : Listing) {m : Moved}
    → move tiers c t p ent listing ≡ ok m
    → Kept tiers ent listing m ⊎ (Hid tiers ent listing m ⊎ Unhid tiers ent listing m)
move_visibility tiers c t p ent listing h =
    let s = move-Steps tiers c t p ent listing h in
    rw (s.leaves, ← mutate-hidden_by_expiry t ent s.rule c.now p s.mutates)
      (settled_visibility tiers c s.rule ent.status s.mutated.0 listing s.events)

settled-hides :
    (tiers : List Tier) (c : Call) (rule : Rule) (prior : Status) (ent : Entitlement)
    (listing : Listing) (evs : List Event)
    → rank0_tier tiers ≡ none
    → listing.visibility ≡ published
    → let m = settled tiers c rule prior ent listing evs in
      m.ent.status ≡ expired → (m.listing.visibility ≡ hidden) × (m.ent.hidden_by_expiry ≡ true)
unfolding settled set_tier visibility_after
settled-hides tiers c rule prior ent listing evs r v s = ground arith

settled-unhides :
    (tiers : List Tier) (c : Call) (rule : Rule) (prior : Status) (ent : Entitlement)
    (listing : Listing) (evs : List Event)
    → ent.hidden_by_expiry ≡ true
    → listing.visibility ≡ hidden
    → let m = settled tiers c rule prior ent listing evs in
      is_in perk_statuses m.ent.status ≡ true
      → (m.listing.visibility ≡ published) × (m.ent.hidden_by_expiry ≡ false)
unfolding settled set_tier visibility_after
settled-unhides tiers c rule prior ent listing evs f v s = ground arith

-- Without a rank-0 tier, a published listing whose entitlement expires is hidden, and the next move
-- to a status with perks publishes it again and clears the flag.
pub move_hides-unhides :
    (tiers : List Tier) (c c' : Call) (t t' : Trigger) (p p' : Params) (ent : Entitlement)
    (listing : Listing) {m m' : Moved}
    → rank0_tier tiers ≡ none
    → listing.visibility ≡ published
    → move tiers c t p ent listing ≡ ok m
    → m.ent.status ≡ expired
    → move tiers c' t' p' m.ent m.listing ≡ ok m'
    → is_in perk_statuses m'.ent.status ≡ true
    → (m.listing.visibility ≡ hidden)
      × (m'.listing.visibility ≡ published)
      × (m'.ent.hidden_by_expiry ≡ false)
move_hides-unhides tiers c c' t t' p p' ent listing {m} {m'} r v h e h' e' =
    let s = move-Steps tiers c t p ent listing h in
    let s' = move-Steps tiers c' t' p' m.ent m.listing h' in
    let gone : (m.listing.visibility ≡ hidden) × (m.ent.hidden_by_expiry ≡ true) = rw s.leaves (
      settled-hides tiers c s.rule ent.status s.mutated.0 listing s.events r v
        (rw s.leaves at e)) in
    let back : (m'.listing.visibility ≡ published) × (m'.ent.hidden_by_expiry ≡ false) =
      rw s'.leaves (
        settled-unhides tiers c' s'.rule m.ent.status s'.mutated.0 m.listing s'.events
          (mutate-hidden_by_expiry t' m.ent s'.rule c'.now p' s'.mutates ∙ gone.1) gone.0
          (rw s'.leaves at e')) in
    (gone.0, back.0, back.1)
