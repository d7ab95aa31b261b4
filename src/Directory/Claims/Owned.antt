-- ===== src/Directory/Claims/Owned.antt =====
-- Who owns a listing, through every command (directory/services.py, directory/claim_review.py).
use osds.Prelude.{
  ℕ, ◌≡◌, refl, sym, String, true, false, Option, none, some, List, [], ◌∷◌, find, arith, ==_iff,
  inl, inr, Bool-cases,
}
use mathlib.Core.Path.{subst}
use osds.Audit.Actor.{Actor}
use osds.Billing.Model.{claimed, suspended}
use osds.Directory.Claims.State.{
  ClaimStatus, Claim, ItemType, Listing, FailReason, ReviewReason, Desk, is_claim_status,
  is_open_claim,
}
use osds.Directory.Claims.Tables.{Site, is_listing, listing_of}
use osds.Directory.Claims.Items.{open_item, notify_operators, dispute}
use osds.Directory.Claims.Approve.{
  Manual, approve_claim_row, is_listing_status, resolve_verified_claim,
}
use osds.Directory.Claims.Start.{notify_unless_disputed}
use osds.Directory.Claims.Verify.{is_lock, queue_lock}
use osds.Directory.Claims.Sound.{is_approved, Sound, save_claim-Sound, approve_claim_row-Sound}

abbrev pub SoundDesk : Desk → Type 0
SoundDesk d = Sound d.claims d.listings

open_is_not_approved : (c : Claim) → is_open_claim c.status ≡ true → is_approved c ≡ false
open_is_not_approved c h = ground arith

pub open_item-claims :
    (t : ItemType) (c : Claim) (rule : String) (actor : Actor) (d : Desk)
    → (open_item t c rule actor d).claims ≡ d.claims
unfolding open_item
open_item-claims t c rule actor d = ground arith

pub open_item-listings :
    (t : ItemType) (c : Claim) (rule : String) (actor : Actor) (d : Desk)
    → (open_item t c rule actor d).listings ≡ d.listings
unfolding open_item
open_item-listings t c rule actor d = ground arith

pub notify_operators-claims :
    (site : Site) (now : ℕ) (d : Desk) → (notify_operators site now d).claims ≡ d.claims
unfolding notify_operators
notify_operators-claims site now d = refl

pub notify_operators-listings :
    (site : Site) (now : ℕ) (d : Desk) → (notify_operators site now d).listings ≡ d.listings
unfolding notify_operators
notify_operators-listings site now d = refl

pub notify_unless_disputed-claims :
    (site : Site) (status : ClaimStatus) (now : ℕ) (d : Desk)
    → (notify_unless_disputed site status now d).claims ≡ d.claims
unfolding notify_unless_disputed
notify_unless_disputed-claims site status now d =
    elim (Bool-cases (is_claim_status status ClaimStatus.disputed)) [
      | inl e ↦ rw (e, notify_unless_disputed)
      | inr e ↦ rw (e, notify_unless_disputed, notify_operators-claims)
    ]

pub notify_unless_disputed-listings :
    (site : Site) (status : ClaimStatus) (now : ℕ) (d : Desk)
    → (notify_unless_disputed site status now d).listings ≡ d.listings
unfolding notify_unless_disputed
notify_unless_disputed-listings site status now d =
    elim (Bool-cases (is_claim_status status ClaimStatus.disputed)) [
      | inl e ↦ rw (e, notify_unless_disputed)
      | inr e ↦ rw (e, notify_unless_disputed, notify_operators-listings)
    ]

pub queue_lock-claims :
    (site : Site) (c : Claim) (reason : FailReason) (now : ℕ) (d : Desk)
    → (queue_lock site c reason now d).claims ≡ d.claims
unfolding queue_lock
queue_lock-claims site c reason now d = elim (Bool-cases (is_lock reason)) [
  | inr e ↦ rw (e, queue_lock)
  | inl e ↦ elim (Bool-cases (is_claim_status c.status ClaimStatus.disputed)) [
    | inl f ↦ rw (e, f, queue_lock) (rw open_item-claims)
    | inr f ↦ rw (e, f, queue_lock) (rw (notify_operators-claims, open_item-claims))
  ]
]

pub queue_lock-listings :
    (site : Site) (c : Claim) (reason : FailReason) (now : ℕ) (d : Desk)
    → (queue_lock site c reason now d).listings ≡ d.listings
unfolding queue_lock
queue_lock-listings site c reason now d = elim (Bool-cases (is_lock reason)) [
  | inr e ↦ rw (e, queue_lock)
  | inl e ↦ elim (Bool-cases (is_claim_status c.status ClaimStatus.disputed)) [
    | inl f ↦ rw (e, f, queue_lock) (rw open_item-listings)
    | inr f ↦ rw (e, f, queue_lock) (rw (notify_operators-listings, open_item-listings))
  ]
]

pub Sound-cong :
    {claims claims' : List Claim} {listings listings' : List Listing}
    → claims' ≡ claims
    → listings' ≡ listings
    → Sound claims listings
    → Sound claims' listings'
Sound-cong p q s = rw (p, q) s

pub dispute-Sound :
    (site : Site) (c : Claim) (actor : Actor) (now : ℕ) (d : Desk)
    → SoundDesk d
    → SoundDesk (dispute site c actor now d).0
unfolding dispute
dispute-Sound site c actor now d s =
    Sound-cong (rw (notify_operators-claims, open_item-claims))
      (rw (notify_operators-listings, open_item-listings))
      (save_claim-Sound
        (record c { status = ClaimStatus.disputed; review_reason = ReviewReason.disputed }) d.claims
        d.listings refl s)

found-pk :
    (listings : List Listing) (pk : ℕ) {l : Listing}
    → find (is_listing pk) listings ≡ some l
    → l.pk ≡ pk
found-pk [] pk h = ground arith
found-pk (row ∷ listings) pk {l = l} h =
    ground (arith, found-pk listings pk {l = l}, ==_iff row.pk pk)

pub approve-Sound :
    (site : Site) (c : Claim) (l : Listing) (m : Option Manual) (actor : Actor) (now : ℕ) (d : Desk)
    → listing_of d c.listing ≡ some l
    → SoundDesk d
    → SoundDesk (approve_claim_row site c l m actor now d).0
approve-Sound site c l m actor now d h s =
    let e : l.pk ≡ c.listing = found-pk d.listings c.listing h in
    approve_claim_row-Sound site c l m actor now d {row = l} (sym e)
      (subst (λ pk. listing_of d pk ≡ some l) (sym e) h) s

pub resolve_verified_claim-Sound :
    (site : Site) (c : Claim) (l : Listing) (now : ℕ) (d : Desk)
    → listing_of d c.listing ≡ some l
    → SoundDesk d
    → SoundDesk (resolve_verified_claim site c l now d).0
unfolding resolve_verified_claim
resolve_verified_claim-Sound site c l now d h s =
    elim (Bool-cases (is_listing_status l.status suspended)) [
      | inl e ↦ rw (e, resolve_verified_claim) s
      | inr e ↦ elim (Bool-cases (is_listing_status l.status claimed)) [
        | inl f ↦ rw (e, f, resolve_verified_claim) (dispute-Sound site c _ now d s)
        | inr f ↦ rw (e, f, resolve_verified_claim) (approve-Sound site c l none _ now d h s)
      ]
    ]
