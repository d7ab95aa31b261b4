-- ===== src/Directory/Claims/Sound.antt =====
-- Who owns a listing: the claims against the listings, through the writes of an approval
-- (directory/claim_review.py `_approve_claim`, `_assign_owner`, `_reject_losers`).
use osds.Prelude.{
  ℕ, ◌≡◌, refl, String, Bool, true, false, not, ◌&&◌, ◌||◌, Option, none, some, List, [], ◌∷◌, all,
  arith, ◌==◌, ==_iff, ==_refl, if◌then◌else◌, inl, inr, Bool-cases,
}
use osds.Audit.Actor.{Actor}
use osds.Audit.MailDrain.{OutboundMessage}
use osds.Billing.Model.{claimed, Owner}
use osds.Directory.Claims.State.{Decision, approved, Claim, Listing, Emitted, Desk, is_claim_status}
use osds.Directory.Claims.Tables.{Site, save_claim, save_listing, is_listing, listing_of}
use osds.Directory.Claims.Items.{decide_claim_item}
use osds.Directory.Claims.Approve.{
  supersede, is_loser, loser_row, reject_losers, approve_claim_row, emit_contacts, assign_owner,
  is_listing_status, approved_row, Manual,
}
use osds.Prelude.{find}

abbrev pub is_approved : Claim → Bool
is_approved c = is_claim_status c.status approved

-- the claim is the one that `winner` names for its listing, if it is approved
abbrev pub is_sole : (ℕ → ℕ) → Claim → Bool
is_sole winner c = not (is_approved c) || c.pk == winner c.listing

abbrev owner_pk_is : Option Owner → ℕ → Bool
owner_pk_is none pk = false
owner_pk_is (some o) pk = o.pk == pk

abbrev owned_by : List Listing → ℕ → ℕ → Bool
owned_by listings pk user = elim (find (is_listing pk) listings) [
  | none ↦ false
  | some l ↦ is_listing_status l.status claimed && owner_pk_is l.owner user
]

-- the claim's listing is claimed and its claimant owns it, if the claim is approved
abbrev pub is_backed : List Listing → Claim → Bool
is_backed listings c = not (is_approved c) || owned_by listings c.listing c.claimant.pk

-- At most one approved claim on each listing, and its claimant is the listing's owner.
pub record Sound (claims : List Claim) (listings : List Listing) : Type 0 where
  pub winner : ℕ → ℕ
  pub sole : all (is_sole winner) claims ≡ true
  pub backed : all (is_backed listings) claims ≡ true

all-save_claim :
    (test : Claim → Bool) (c : Claim) (claims : List Claim)
    → all test claims ≡ true
    → test c ≡ true
    → all test (save_claim c claims) ≡ true
unfolding save_claim
all-save_claim test c [] h t = refl
all-save_claim test c (row ∷ claims) h t = ground (arith, all-save_claim test c claims)

-- a claim that is not approved may be written over any other
pub save_claim-Sound :
    (c : Claim) (claims : List Claim) (listings : List Listing)
    → is_approved c ≡ false
    → Sound claims listings
    → Sound (save_claim c claims) listings
save_claim-Sound c claims listings h s = record {
  winner = s.winner;
  sole = all-save_claim (is_sole s.winner) c claims s.sole (rw h);
  backed = all-save_claim (is_backed listings) c claims s.backed (rw h);
}

-- the winner of one listing changed
abbrev crown : (ℕ → ℕ) → ℕ → ℕ → ℕ → ℕ
crown winner l p listing = if listing == l then p else winner listing

save_listing_other :
    (l : Listing) (listings : List Listing) (pk user : ℕ)
    → (l.pk == pk) ≡ false
    → owned_by (save_listing l listings) pk user ≡ owned_by listings pk user
unfolding save_listing
save_listing_other l [] pk user h = refl
save_listing_other l (row ∷ listings) pk user h =
    ground (arith, save_listing_other l listings pk user)

save_listing_same :
    (l : Listing) (listings : List Listing) {row : Listing}
    → find (is_listing l.pk) listings ≡ some row
    → find (is_listing l.pk) (save_listing l listings) ≡ some l
unfolding save_listing
save_listing_same l [] h = ground arith
save_listing_same l (x ∷ listings) {row = row} h =
    ground (arith, save_listing_same l listings {row = row}, ==_refl l.pk)

approve-sole :
    (winner : ℕ → ℕ) (l : ℕ) (c : Claim) (claims : List Claim)
    → c.listing ≡ l
    → all (is_sole winner) claims ≡ true
    → all (is_sole (crown winner l c.pk)) (save_claim c (supersede l c.pk claims)) ≡ true
unfolding save_claim supersede
approve-sole winner l c [] e h = refl
approve-sole winner l c (row ∷ claims) e h =
    ground (arith, approve-sole winner l c claims e, ==_iff row.pk c.pk)

approve-backed :
    (l : Listing) (listings : List Listing) (c : Claim) (claims : List Claim)
    → owned_by (save_listing l listings) c.listing c.claimant.pk ≡ true
    → all (is_backed listings) claims ≡ true
    → all (is_backed (save_listing l listings)) (save_claim c (supersede l.pk c.pk claims)) ≡ true
unfolding save_claim supersede
approve-backed l listings c [] o h = refl
approve-backed l listings c (row ∷ claims) o h = ground (
  arith,
  approve-backed l listings c claims o,
  save_listing_other l listings row.listing row.claimant.pk,
  ==_iff row.listing l.pk,
)

and_intro : {a b : Bool} → a ≡ true → b ≡ true → (a && b) ≡ true
and_intro h k = rw (h, k)

loser_row-all :
    (test : Claim → Bool) (listing winner now : ℕ) (c : Claim)
    → ((x : Claim) → is_approved x ≡ false → test x ≡ true)
    → test c ≡ true
    → test (if is_loser listing winner c then loser_row c now else c) ≡ true
loser_row-all test listing winner now c f h = elim (Bool-cases (is_loser listing winner c)) [
  | inl e ↦ rw (e, f (loser_row c now) refl)
  | inr e ↦ rw (e, h)
]

reject_losers-all :
    (test : Claim → Bool) (site : Site) (listing winner now : ℕ) (claims : List Claim)
    (messages : List OutboundMessage) (outbox : List Emitted)
    → ((c : Claim) → is_approved c ≡ false → test c ≡ true)
    → all test claims ≡ true
    → all test (reject_losers site listing winner now claims messages outbox).0 ≡ true
unfolding reject_losers
reject_losers-all test site listing winner now [] messages outbox f h = refl
reject_losers-all test site listing winner now (c ∷ claims) messages outbox f h =
    and_intro (loser_row-all test listing winner now c f (ground arith))
      (reject_losers-all test site listing winner now claims _ _ f (ground arith))

assigned-owned :
    (l : Listing) (listings : List Listing) (user : Owner) {row : Listing}
    → find (is_listing l.pk) listings ≡ some row
    → owned_by (save_listing (assign_owner l user) listings) l.pk user.pk ≡ true
assigned-owned l listings user h =
    let e : find (is_listing l.pk) (save_listing (assign_owner l user) listings)
        ≡ some (assign_owner l user) =
      save_listing_same (assign_owner l user) listings h in
    rw (e, owned_by) (ground (arith, ==_refl user.pk))

emit_contacts-claims :
    (c : Claim) (channels : List String) (actor : Actor) (d : Desk)
    → (emit_contacts c channels actor d).claims ≡ d.claims
unfolding emit_contacts
emit_contacts-claims c channels actor d = ground arith

emit_contacts-listings :
    (c : Claim) (channels : List String) (actor : Actor) (d : Desk)
    → (emit_contacts c channels actor d).listings ≡ d.listings
unfolding emit_contacts
emit_contacts-listings c channels actor d = ground arith

-- the claims that an approval leaves, against the listings
rows-Sound :
    (site : Site) (c : Claim) (l : Listing) (user : Owner) (now : ℕ) (claims : List Claim)
    (listings : List Listing) (messages : List OutboundMessage) (outbox : List Emitted)
    {row : Listing}
    → c.listing ≡ l.pk
    → c.claimant ≡ user
    → find (is_listing l.pk) listings ≡ some row
    → Sound claims listings
    → Sound
        (reject_losers site l.pk c.pk now
          (save_claim c (supersede l.pk c.pk claims))
          messages
          outbox).0
        (save_listing (assign_owner l user) listings)
rows-Sound site c l user now claims listings messages outbox e f h s = record {
  winner = crown s.winner l.pk c.pk;
  sole =
      reject_losers-all (is_sole (crown s.winner l.pk c.pk)) site l.pk c.pk now _ messages outbox
        (λ x k. rw k) (approve-sole s.winner l.pk c claims e s.sole);
  backed =
      reject_losers-all (is_backed (save_listing (assign_owner l user) listings)) site l.pk c.pk now
        _ messages outbox (λ x k. rw k)
        (approve-backed (assign_owner l user) listings c claims
          (rw (e, f) (assigned-owned l listings user h)) s.backed);
}

pub decide_claim_item-claims :
    (c : Claim) (decision : Decision) (operator : ℕ) (rationale : String) (actor : Actor) (now : ℕ)
    (d : Desk)
    → (decide_claim_item c decision operator rationale actor now d).claims ≡ d.claims
unfolding decide_claim_item
decide_claim_item-claims c decision operator rationale actor now d = ground arith

pub decide_claim_item-listings :
    (c : Claim) (decision : Decision) (operator : ℕ) (rationale : String) (actor : Actor) (now : ℕ)
    (d : Desk)
    → (decide_claim_item c decision operator rationale actor now d).listings ≡ d.listings
unfolding decide_claim_item
decide_claim_item-listings c decision operator rationale actor now d = ground arith

-- An approval of a claim on a listing that is in the table.
pub approve_claim_row-Sound :
    (site : Site) (c : Claim) (l : Listing) (m : Option Manual) (actor : Actor) (now : ℕ) (d : Desk)
    {row : Listing}
    → c.listing ≡ l.pk
    → listing_of d l.pk ≡ some row
    → Sound d.claims d.listings
    → Sound
        (approve_claim_row site c l m actor now d).0.claims
        (approve_claim_row site c l m actor now d).0.listings
unfolding approve_claim_row approved_row
approve_claim_row-Sound site c l none actor now d e h s =
    rw (emit_contacts-claims, emit_contacts-listings)
      (rows-Sound site (approved_row c none now) l c.claimant now d.claims d.listings _ _ e refl h
        s)
approve_claim_row-Sound site c l (some m) actor now d e h s =
    rw
      (
        decide_claim_item-claims, decide_claim_item-listings, emit_contacts-claims,
        emit_contacts-listings,
      )
      (rows-Sound site (approved_row c (some m) now) l c.claimant now d.claims d.listings _ _ e refl
        h s)
