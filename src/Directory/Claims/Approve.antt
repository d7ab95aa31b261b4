-- ===== src/Directory/Claims/Approve.antt =====
-- Approval: the one writer of a listing's owner (directory/claim_review.py `_approve_claim`,
-- `_assign_owner`, `_notify_existing_contacts`, `_reject_losers`, `_mail_rejection`,
-- `resolve_verified_claim`). No other transaction holds a claim's lock.
use osds.Prelude.{
  ℕ, ◌+◌, String, Bool, true, false, not, ◌&&◌, ◌||◌, Option, none, some, List, [], ◌∷◌, ◌++◌, any,
  length, ◌==◌, is_some, is_empty, if◌then◌else◌,
}
use osds.Prelude.Time.{days}
use text.Mathlib.Text.{◌==◌ as str_eq}
use osds.Audit.Actor.{Actor, system, visitor}
use osds.Audit.MailDrain.{OutboundMessage}
use osds.Billing.Model.{ListingStatus, claimed, suspended, Owner}
use osds.Directory.Claims.State.{
  pending_verification, approved, rejected, superseded, manual, ManualMethod, Claim, Listing,
  claim_approved, owner_assigned, listing_updated, notified_existing_contacts, claim_rejected,
  Emitted, Desk, existing_contact, rejection, approve, is_claim_status,
}
use osds.Directory.Claims.Tables.{
  Site, save_claim, save_listing, enqueue, expire_pending_code, emit,
}
use osds.Directory.Claims.Items.{decide_claim_item, dispute}

-- what an operator says of how a claim was verified
pub record Manual : Type 0 where
  pub method_used : ManualMethod
  pub notes : String
  pub evidence_ref : String
  pub operator : ℕ

abbrev pub notice_ttl : ℕ
notice_ttl = days 7

abbrev pub loser_reason : String
loser_reason = "Another claim for this listing was approved."

-- the address of a contact, unless it is empty, the claimant's or there already
abbrev add_contact : Site → Owner → String → List String → List String
add_contact site claimant raw found =
    let address = site.lower (site.strip raw) in
    if str_eq address "" || (str_eq address claimant.email || any (str_eq address) found)
    then found
    else found ++ address ∷ []

abbrev email_of : Option Owner → String
email_of none = ""
email_of (some o) = o.email

-- the addresses of `_notify_existing_contacts`
abbrev pub contacts_of : Site → Owner → Listing → List String
contacts_of site claimant listing =
    add_contact site claimant (email_of listing.owner) (add_contact site claimant listing.email [])

unfoldable pub notify_contacts :
    Site → ℕ → List String → ℕ → List OutboundMessage → List OutboundMessage
notify_contacts site listing [] now messages = messages
notify_contacts site listing (address ∷ addresses) now messages =
    notify_contacts site listing addresses now (
      enqueue site messages "claim.existing_contact_notice" address (existing_contact listing)
        (now + notice_ttl) now)

abbrev is_other_approved : ℕ → ℕ → Claim → Bool
is_other_approved listing winner c =
    (c.listing == listing && is_claim_status c.status approved) && not (c.pk == winner)

-- a transfer retires the claims that were approved before
unfoldable pub supersede : ℕ → ℕ → List Claim → List Claim
supersede listing winner [] = []
supersede listing winner (c ∷ claims) =
    (if is_other_approved listing winner c then record c { status = superseded } else c)
    ∷ supersede listing winner claims

-- the approved claim's row
unfoldable pub approved_row : Claim → Option Manual → ℕ → Claim
approved_row c none now = record c { status = approved; decided_at = some now; code_hash = none }
approved_row c (some m) now = record c {
  status = approved;
  decided_at = some now;
  code_hash = none;
  method = manual;
  manual_method_used = some m.method_used;
  verification_notes = m.notes;
  evidence_ref = m.evidence_ref;
  verified_by = some m.operator;
  verified_at = some now;
  decided_by = some m.operator;
}

-- `_assign_owner`
abbrev pub assign_owner : Listing → Owner → Listing
assign_owner l user = record l { owner = some user; status = claimed }

-- `_mail_rejection`
abbrev pub mail_rejection :
    Site → Claim → String → Bool → Bool → ℕ → List OutboundMessage → List OutboundMessage
mail_rejection site c reason blocked lost now messages =
    enqueue site messages "claim.rejected" c.claimant.email (rejection c.pk reason blocked lost)
      (now + notice_ttl) now

abbrev pub is_loser : ℕ → ℕ → Claim → Bool
is_loser listing winner c =
    (c.listing == listing && is_claim_status c.status pending_verification) && not (c.pk == winner)

abbrev pub loser_row : Claim → ℕ → Claim
loser_row c now = record c {
  status = rejected;
  decided_at = some now;
  rejection_reason = loser_reason;
  code_hash = none;
}

-- `_reject_losers`, over the rows of the table
unfoldable pub reject_losers :
    Site
    → ℕ
    → ℕ
    → ℕ
    → List Claim
    → List OutboundMessage
    → List Emitted
    → List Claim × List OutboundMessage × List Emitted
reject_losers site listing winner now [] messages outbox = ([], messages, outbox)
reject_losers site listing winner now (c ∷ claims) messages outbox =
    let lost = is_loser listing winner c in
    let row = if lost then loser_row c now else c in
    let (rest, messages', outbox') =
      reject_losers site listing winner now claims
        (if lost
          then mail_rejection site row loser_reason false true now
              (expire_pending_code c now messages)
          else messages)
        (if lost
          then outbox
            ++ record {
              event = claim_rejected row loser_reason none;
              subject = c.pk;
              actor = system "claim.approve";
            }
              ∷ []
          else outbox) in
    (row ∷ rest, messages', outbox')

abbrev decide_manual : Option Manual → Claim → Actor → ℕ → Desk → Desk
decide_manual none c actor now d = d
decide_manual (some m) c actor now d = decide_claim_item c approve m.operator m.notes actor now d

unfoldable pub emit_contacts : Claim → List String → Actor → Desk → Desk
emit_contacts c channels actor d =
    if is_empty channels
    then d
    else emit (notified_existing_contacts c.pk c.listing channels) c.pk actor d

-- `_approve_claim`, on the locked rows: the desk, and the event that the command concludes with
unfoldable pub approve_claim_row :
    Site → Claim → Listing → Option Manual → Actor → ℕ → Desk → Desk × ℕ
unfolding supersede approved_row reject_losers notify_contacts emit_contacts
approve_claim_row site claim listing by_hand actor now d =
    let c = approved_row claim by_hand now in
    let l = assign_owner listing claim.claimant in
    let channels = contacts_of site claim.claimant listing in
    let saved = record d {
      claims = save_claim c (supersede listing.pk claim.pk d.claims);
      listings = save_listing l d.listings;
      messages =
          notify_contacts site listing.pk channels now (expire_pending_code claim now d.messages);
    } in
    let told = emit_contacts c channels actor (
      emit (listing_updated l) l.pk actor (
        emit (owner_assigned l.pk claim.claimant c.pk listing.owner) l.pk actor (
          emit (claim_approved c (is_some listing.owner) (not (is_empty channels))) c.pk actor
            saved))) in
    let (claims, messages, outbox) =
      reject_losers site listing.pk claim.pk now told.claims told.messages told.outbox in
    (
      decide_manual by_hand c actor now
          (record told { claims = claims; messages = messages; outbox = outbox }),
      length d.outbox,
    )

abbrev pub is_listing_status : ListingStatus → ListingStatus → Bool
is_listing_status ListingStatus.unclaimed ListingStatus.unclaimed = true
is_listing_status claimed claimed = true
is_listing_status suspended suspended = true
is_listing_status _ _ = false

-- `resolve_verified_claim`: the event is null where nothing moves
unfoldable pub resolve_verified_claim : Site → Claim → Listing → ℕ → Desk → Desk × Option ℕ
unfolding approve_claim_row dispute
resolve_verified_claim site claim listing now d =
    if is_listing_status listing.status suspended
    then (d, none)
    else if is_listing_status listing.status claimed
    then ((dispute site claim (visitor claim.claimant.public_id) now d).0, some (length d.outbox))
    else (let (d', event) =
          approve_claim_row site claim listing none (visitor claim.claimant.public_id) now d in
        (d', some event))
