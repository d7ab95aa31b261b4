-- ===== src/Directory/Claims/Decide.antt =====
-- The operators' decisions (directory/claim_review.py `_apply_approve`, `_apply_reject`,
-- `_apply_queue_command`).
use osds.Prelude.{
  ℕ, ◌+◌, String, Bool, false, not, ◌&&◌, Option, none, some, find, length, ◌==◌, leb, is_none,
  if◌then◌else◌, Result, ok, err, need, require, ◌>>=◌, ◌>>◌,
}
use text.Mathlib.Text.{◌==◌ as str_eq}
use osds.Audit.Actor.{Actor}
use osds.Billing.Model.{claimed, suspended}
use osds.Tenants.Staff.{Membership, editor_role, moderator_role}
use osds.Directory.Claims.State.{
  pending_verification, rejected, ManualMethod, Claim, Guard, ItemType, verification_lock,
  claim_block, Decision, reject, already_cleared, ModerationItem, Listing, claim_rejected, Desk,
  is_claim_status, is_item_type, is_open, is_open_claim,
}
use osds.Directory.Claims.Tables.{
  Site, claim_of, save_claim, lock_guard, save_guard, listing_of, expire_pending_code, emit,
}
use osds.Directory.Claims.Items.{open_item, decide_item, decide_claim_item, dispute}
use osds.Directory.Claims.Approve.{Manual, mail_rejection, is_listing_status, approve_claim_row}

-- the reasons of `ReviewRefused`; `missing` is the `DoesNotExist` of a row that is gone
pub data ReviewRefusal : Type 0 where
  forbidden notes_required method_used_invalid wrong_status listing_suspended : ReviewRefusal
  transfer_unconfirmed reason_required rationale_required wrong_type item_not_open : ReviewRefusal
  missing : ReviewRefusal

-- `ApproveResult.outcome`
pub data ApproveOutcome : Type 0 where
  now_approved now_disputed : ApproveOutcome

abbrev pub rejection_block_threshold : ℕ
rejection_block_threshold = 3

-- not what `_require` refuses
abbrev pub has_role : ℕ → Option Membership → Bool
has_role role none = false
has_role role (some m) = leb role m.role

-- `Claim.ManualMethod.values`
unfoldable pub manual_method_of : String → Option ManualMethod
manual_method_of text =
    if str_eq text "phone"
    then some ManualMethod.phone
    else if str_eq text "email"
    then some ManualMethod.email
    else if str_eq text "postcard"
    then some ManualMethod.postcard
    else if str_eq text "website"
    then some ManualMethod.website
    else if str_eq text "social"
    then some ManualMethod.social
    else if str_eq text "in_person"
    then some ManualMethod.in_person
    else if str_eq text "document"
    then some ManualMethod.document
    else if str_eq text "other"
    then some ManualMethod.other
    else none

-- What an operator sends with an approval.
pub record Approval : Type 0 where
  pub method_used : String
  pub notes : String
  pub evidence_ref : String
  pub transfer : Bool

-- the desk, the outcome, and the event that the command concludes with
abbrev pub Approved : Type 0
Approved = Desk × ApproveOutcome × ℕ

-- the decision on the locked rows, after the guards
unfoldable pub decide_approval :
    Site → Claim → Listing → Manual → Bool → Actor → ℕ → Desk → Result ReviewRefusal Approved
unfolding dispute approve_claim_row
decide_approval site claim listing m transfer actor now d =
    let owned = is_listing_status listing.status claimed in
    if is_claim_status claim.status pending_verification && owned
    then ok ((dispute site claim actor now d).0, now_disputed, length d.outbox)
    else if owned && not transfer
    then err transfer_unconfirmed
    else (let (d', event) = approve_claim_row site claim listing (some m) actor now d in
        ok (d', now_approved, event))

-- `_apply_approve`
unfoldable pub apply_approve :
    Site → ℕ → ℕ → Option Membership → Actor → Approval → ℕ → Desk → Result ReviewRefusal Approved
unfolding manual_method_of decide_approval
apply_approve site pk operator membership actor a now d = do
  require (has_role editor_role membership) forbidden
  require (not (str_eq (site.strip a.notes) "")) notes_required
  method_used ← need (manual_method_of a.method_used) method_used_invalid
  claim ← need (claim_of d pk) ReviewRefusal.missing
  require (is_open_claim claim.status) ReviewRefusal.wrong_status
  listing ← need (listing_of d claim.listing) ReviewRefusal.missing
  require (not (is_listing_status listing.status suspended)) listing_suspended
  decide_approval site claim listing
      (record {
        method_used = method_used;
        notes = site.strip a.notes;
        evidence_ref = site.strip a.evidence_ref;
        operator = operator;
      })
      a.transfer actor now d

-- the claim's row after a rejection
abbrev pub rejected_row : Claim → ℕ → String → ℕ → Claim
rejected_row c operator reason now = record c {
  status = rejected;
  decided_at = some now;
  decided_by = some operator;
  rejection_reason = reason;
  code_hash = none;
}

-- whether this rejection blocks the pair, and the guard after it
abbrev pub is_blocking : Guard → Bool
is_blocking g = leb rejection_block_threshold (g.rejections + 1) && is_none g.claim_blocked_at

unfoldable pub rejected_guard : Guard → ℕ → Guard
rejected_guard g now = record g {
  rejections = g.rejections + 1;
  claim_blocked_at = if is_blocking g then some now else g.claim_blocked_at;
}

unfoldable pub queue_block : Bool → Claim → Actor → Desk → Desk
unfolding open_item
queue_block blocked c actor d =
    if blocked then open_item claim_block c "repeated_rejection" actor d else d

-- the writes of a rejection, on the locked rows
unfoldable pub reject_claim_row : Site → Claim → Guard → ℕ → String → Actor → ℕ → Desk → Desk
unfolding rejected_guard decide_claim_item queue_block
reject_claim_row site claim g operator reason actor now d =
    let c = rejected_row claim operator reason now in
    let saved = record d {
      claims = save_claim c d.claims;
      guards = save_guard (rejected_guard g now) d.guards;
      messages = expire_pending_code claim now d.messages;
    } in
    let told = queue_block (is_blocking g) c actor (
      decide_claim_item c reject operator reason actor now
        (emit (claim_rejected c reason (some operator)) c.pk actor saved)) in
    record told { messages = mail_rejection site c reason (is_blocking g) false now told.messages }

-- `_apply_reject`: the desk and the event that the command concludes with
unfoldable pub apply_reject :
    Site → ℕ → ℕ → Option Membership → Actor → String → ℕ → Desk → Result ReviewRefusal (Desk × ℕ)
unfolding reject_claim_row
apply_reject site pk operator membership actor text now d = do
  require (has_role editor_role membership) forbidden
  require (not (str_eq (site.strip text) "")) reason_required
  claim ← need (claim_of d pk) ReviewRefusal.missing
  require (is_open_claim claim.status) ReviewRefusal.wrong_status
  let (guards, g) = lock_guard d.guards claim.listing claim.claimant.pk
  ok (
    reject_claim_row site claim g operator (site.strip text) actor now
        (record d { guards = guards }),
    length d.outbox,
  )

abbrev is_item : ℕ → ModerationItem → Bool
is_item pk i = i.pk == pk

abbrev pub item_of : Desk → ℕ → Option ModerationItem
item_of d pk = find (is_item pk) d.items

-- what an unlock or an unblock clears, and the decision it records where there is nothing to clear
unfoldable pub cleared_guard : ItemType → Guard → Guard
cleared_guard verification_lock g = if is_none g.verification_locked_at then g else record g {
  verification_locked_at = none;
  cooldowns = 0;
  wrong_entries = 0;
  cooldown_until = none;
}
cleared_guard _ g = record g { claim_blocked_at = none }

unfoldable pub cleared_decision : ItemType → Decision → Guard → Decision
cleared_decision verification_lock decision g =
    if is_none g.verification_locked_at then already_cleared else decision
cleared_decision _ decision g = if is_none g.claim_blocked_at then already_cleared else decision

-- `_apply_queue_command`
unfoldable pub apply_queue_command :
    Site
    → ℕ
    → ℕ
    → Option Membership
    → Actor
    → String
    → ItemType
    → Decision
    → ℕ
    → Desk
    → Result ReviewRefusal (Desk × ℕ)
unfolding cleared_guard cleared_decision decide_item
apply_queue_command site pk operator membership actor text item_type decision now d = do
  require (has_role moderator_role membership) forbidden
  require (not (str_eq (site.strip text) "")) rationale_required
  item ← need (item_of d pk) ReviewRefusal.missing
  require (is_item_type item.item_type item_type) wrong_type
  require (is_open item.status) item_not_open
  let (guards, g) = lock_guard d.guards item.listing item.claimant
  ok (
    decide_item item (cleared_decision item_type decision g) operator (site.strip text) actor now
        (record d { guards = save_guard (cleared_guard item_type g) guards }),
    length d.outbox,
  )
