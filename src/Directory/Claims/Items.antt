-- ===== src/Directory/Claims/Items.antt =====
-- The moderation queue and the notice to staff (directory/claim_review.py `open_item`,
-- `_decide_item`, `_decide_claim_item`, `dispute`, `_operator_recipients`, `notify_operators`).
use osds.Prelude.{
  ℕ, ◌+◌, String, Bool, false, not, ◌&&◌, ◌||◌, none, some, List, [], ◌∷◌, ◌++◌, find, select, any,
  length, ◌==◌, leb, ltb, is_some, if◌then◌else◌,
}
use osds.Prelude.Time.{minutes, hours}
use text.Mathlib.Text.{◌==◌ as str_eq}
use osds.Audit.Actor.{Actor}
use osds.Audit.MailDrain.{OutboundMessage}
use osds.Tenants.Staff.{Membership, is_active, editor_role}
use osds.Directory.Claims.State.{
  ClaimStatus, pending_verification, Claim, ItemType, claim_dispute, item_open, decided, Decision,
  undecided, ModerationItem, ReviewReason, claim_disputed, moderation_queued, moderation_decided,
  Desk, waiting_claims, is_claim_status, is_item_type, is_open, is_manual,
}
use osds.Directory.Claims.Tables.{Site, save_claim, enqueue, emit}

-- the queries of the review queue
abbrev pub in_review : Claim → Bool
in_review c =
    is_claim_status c.status pending_verification && (is_manual c.method || is_some c.verified_at)

abbrev pub is_open_item : ItemType → ModerationItem → Bool
is_open_item t i = is_item_type i.item_type t && is_open i.status

-- `waiting_claims_count`
abbrev pub waiting_claims_count : Desk → ℕ
waiting_claims_count d =
    length (select in_review d.claims) + length (select (is_open_item claim_dispute) d.items)

abbrev may_decide : Membership → Bool
may_decide m = (is_active m.status && leb editor_role m.role) && m.operator_active

-- the addresses, each once, in the order of the memberships
unfoldable pub recipients_of : Site → List Membership → List String → List String
recipients_of site [] found = found
recipients_of site (m ∷ memberships) found =
    let address = site.lower (site.strip m.email) in
    recipients_of site memberships (
      if may_decide m && (not (str_eq address "") && not (any (str_eq address) found))
      then found ++ address ∷ []
      else found)

-- `_operator_recipients`
abbrev pub operator_recipients : Site → List Membership → List String
operator_recipients site memberships = recipients_of site memberships []

abbrev notice_kind : String
notice_kind = "claim.review_notice"

abbrev pub notice_throttle : ℕ
notice_throttle = minutes 15

abbrev pub notice_ttl : ℕ
notice_ttl = hours 48

abbrev is_to : String → OutboundMessage → Bool
is_to address m = elim m.to_address [ none ↦ false | some to ↦ str_eq to address ]

-- a notice that the address was sent within the throttle
abbrev pub is_recent : ℕ → String → OutboundMessage → Bool
is_recent now address m =
    (str_eq m.kind notice_kind && is_to address m) && ltb now (m.created_at + notice_throttle)

abbrev is_notice_due : ℕ → List OutboundMessage → String → Bool
is_notice_due now messages address = not (any (is_recent now address) messages)

-- the loop of `_send_operator_notice`
unfoldable pub send_notices :
    Site → ℕ → List String → ℕ → List OutboundMessage → List OutboundMessage
send_notices site waiting [] now messages = messages
send_notices site waiting (address ∷ addresses) now messages =
    send_notices site waiting addresses now
      (enqueue site messages notice_kind address (waiting_claims waiting) (now + notice_ttl) now)

-- `notify_operators`
unfoldable pub notify_operators : Site → ℕ → Desk → Desk
unfolding send_notices recipients_of
notify_operators site now d = record d {
  messages =
      send_notices site (waiting_claims_count d)
        (select (is_notice_due now d.messages) (operator_recipients site d.memberships)) now
        d.messages;
}

-- the open item of a dispute's claim, or of the pair
abbrev pub is_same_item : ItemType → Claim → ModerationItem → Bool
is_same_item t c i =
    is_open_item t i
    && (if is_item_type t claim_dispute
        then elim i.claim [ none ↦ false | some pk ↦ pk == c.pk ]
        else i.listing == c.listing && i.claimant == c.claimant.pk)

abbrev pub new_item : ℕ → ItemType → Claim → String → ModerationItem
new_item pk t c rule = record {
  pk = pk;
  item_type = t;
  status = item_open;
  listing = c.listing;
  claimant = c.claimant.pk;
  claim = some c.pk;
  rule_triggered = rule;
  decision = undecided;
  decided_by = none;
  decided_at = none;
  rationale = "";
}

-- `open_item`
unfoldable pub open_item : ItemType → Claim → String → Actor → Desk → Desk
open_item t c rule actor d = elim (find (is_same_item t c) d.items) [
  | some i ↦ d
  | none ↦
      let item = new_item (length d.items) t c rule in
      emit (moderation_queued item) item.pk actor (record d { items = d.items ++ item ∷ [] })
]

unfoldable pub save_item : ModerationItem → List ModerationItem → List ModerationItem
save_item i [] = []
save_item i (row ∷ rows) = (if row.pk == i.pk then i else row) ∷ save_item i rows

-- `_decide_item`
unfoldable pub decide_item : ModerationItem → Decision → ℕ → String → Actor → ℕ → Desk → Desk
unfolding save_item
decide_item item decision operator rationale actor now d =
    let i = record item {
      status = decided;
      decision = decision;
      decided_by = some operator;
      decided_at = some now;
      rationale = rationale;
    } in
    emit (moderation_decided i) i.pk actor (record d { items = save_item i d.items })

-- `_decide_claim_item`
unfoldable pub decide_claim_item : Claim → Decision → ℕ → String → Actor → ℕ → Desk → Desk
unfolding decide_item
decide_claim_item c decision operator rationale actor now d =
    elim (find (is_same_item claim_dispute c) d.items) [
      | none ↦ d
      | some i ↦ decide_item i decision operator rationale actor now d
    ]

-- `dispute`: the desk, and the claim as it now is
unfoldable pub dispute : Site → Claim → Actor → ℕ → Desk → Desk × Claim
unfolding open_item notify_operators
dispute site claim actor now d =
    let c = record claim { status = ClaimStatus.disputed; review_reason = ReviewReason.disputed } in
    let saved = record d { claims = save_claim c d.claims } in
    let queued =
      open_item claim_dispute c "duplicate_claim" actor
        (emit (claim_disputed c) c.pk actor saved) in
    (notify_operators site now queued, c)
