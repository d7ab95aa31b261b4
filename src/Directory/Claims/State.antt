-- ===== src/Directory/Claims/State.antt =====
-- The rows and the events of claims (directory/models.py `Claim`, `ClaimVerificationGuard`,
-- `ModerationItem`). Public ids are keys, and a row that names another joins it where the code reads
-- the other's columns.
use osds.Prelude.{ℕ, String, Bool, Option, List, true, false}
use osds.Audit.Actor.{Actor}
use osds.Audit.MailDrain.{OutboundMessage}
use osds.Billing.Model.{ListingStatus, Owner}
use osds.Tenants.Staff.{Membership}

-- `Claim.Status`
pub data ClaimStatus : Type 0 where
  pending_verification approved rejected abandoned disputed superseded : ClaimStatus

-- `Claim.Method`
pub data Method : Type 0 where
  manual phone_otp domain_email gbp_oauth postcard : Method

-- `Claim.ManualMethod`
pub data ManualMethod : Type 0 where
  phone email postcard website social in_person document other : ManualMethod

-- `Claim.review_reason`; `unset` is the empty text
pub data ReviewReason : Type 0 where
  unset chosen no_website locked mail_unavailable address_mismatch disputed : ReviewReason

-- `Claim`. A hash that was cleared is null.
pub record Claim : Type 0 where
  pub pk : ℕ
  pub listing : ℕ
  pub claimant : Owner
  pub status : ClaimStatus
  pub method : Method
  pub requested_method : Method
  pub review_reason : ReviewReason
  pub verification_started_at : Option ℕ
  pub expires_at : Option ℕ
  pub attempts : ℕ
  pub code_hash : Option String
  pub code_message : Option ℕ
  pub manual_method_used : Option ManualMethod
  pub verified_by : Option ℕ
  pub verified_at : Option ℕ
  pub verification_notes : String
  pub evidence_ref : String
  pub decided_at : Option ℕ
  pub decided_by : Option ℕ
  pub rejection_reason : String

-- `ClaimVerificationGuard`, of a listing and a claimant
pub record Guard : Type 0 where
  pub listing : ℕ
  pub claimant : ℕ
  pub wrong_entries : ℕ
  pub cooldowns : ℕ
  pub cooldown_until : Option ℕ
  pub verification_locked_at : Option ℕ
  pub rejections : ℕ
  pub claim_blocked_at : Option ℕ
  pub last_code_sent_at : Option ℕ
  pub codes_sent_window_start : Option ℕ
  pub codes_sent_in_window : ℕ

-- `ModerationItem.ItemType` and `ModerationItem.Status`
pub data ItemType : Type 0 where
  claim_dispute verification_lock claim_block : ItemType

pub data ItemStatus : Type 0 where
  item_open decided : ItemStatus

-- `ModerationItem.decision`
pub data Decision : Type 0 where
  undecided approve reject unlocked unblocked already_cleared : Decision

-- `ModerationItem`
pub record ModerationItem : Type 0 where
  pub pk : ℕ
  pub item_type : ItemType
  pub status : ItemStatus
  pub listing : ℕ
  pub claimant : ℕ
  pub claim : Option ℕ
  pub rule_triggered : String
  pub decision : Decision
  pub decided_by : Option ℕ
  pub decided_at : Option ℕ
  pub rationale : String

-- The columns of `Listing` that claims read and write.
pub record Listing : Type 0 where
  pub pk : ℕ
  pub status : ListingStatus
  pub owner : Option Owner
  pub email : String
  pub website : String

-- `DirectoryUser`; claims and listings join its first three columns
pub record User : Type 0 where
  pub owner : Owner
  pub name : String
  pub phone_e164 : String

-- `Consent`, of a claim
pub record Consent : Type 0 where
  pub claim : ℕ
  pub channel : String
  pub granted : Bool
  pub granted_at : Option ℕ
  pub ip : Option String
  pub text_version : String

-- `ConsentText`
pub record ConsentText : Type 0 where
  pub key : String
  pub version : String
  pub body : String

-- The claimant as a submission describes them.
pub record Claimant : Type 0 where
  pub name : String
  pub email : String
  pub phone_e164 : String
  pub role_claimed : String

-- why a verification failed
pub data FailReason : Type 0 where
  ineligible wrong_code cooldown locked : FailReason

-- The `data` of the events, but for masked destinations.
pub data ClaimEvent : Type 0 where
  user_created : User → ClaimEvent
  claim_submitted : Claim → Claimant → List Consent → ClaimEvent
  verification_started : Claim → ClaimEvent
  verification_failed : Claim → FailReason → Option ℕ → Option ℕ → ClaimEvent
  claim_disputed : Claim → ClaimEvent
  moderation_queued moderation_decided : ModerationItem → ClaimEvent
  claim_approved : Claim → Bool → Bool → ClaimEvent
  owner_assigned : ℕ → Owner → ℕ → Option Owner → ClaimEvent
  listing_updated : Listing → ClaimEvent
  notified_existing_contacts : ℕ → ℕ → List String → ClaimEvent
  claim_rejected : Claim → String → Option ℕ → ClaimEvent

-- One `emit`.
pub record Emitted : Type 0 where
  pub event : ClaimEvent
  pub subject : ℕ
  pub actor : Actor

-- The tables in reach.
pub record Desk : Type 0 where
  pub claims : List Claim
  pub guards : List Guard
  pub items : List ModerationItem
  pub listings : List Listing
  pub messages : List OutboundMessage
  pub outbox : List Emitted
  pub memberships : List Membership
  pub users : List User
  pub consents : List Consent
  pub consent_texts : List ConsentText

-- What a mail says: the code, the link that signs an owner in, the notices to staff and to the contacts of a listing, and a rejection
-- with its reason, whether it blocks the pair and whether another claim won.
pub data Letter : Type 0 where
  verification_code : ℕ → String → ℕ → Letter
  signin_link : String → ℕ → Letter
  waiting_claims : ℕ → Letter
  existing_contact : ℕ → Letter
  rejection : ℕ → String → Bool → Bool → Letter

abbrev pub is_claim_status : ClaimStatus → ClaimStatus → Bool
is_claim_status pending_verification pending_verification = true
is_claim_status approved approved = true
is_claim_status rejected rejected = true
is_claim_status abandoned abandoned = true
is_claim_status ClaimStatus.disputed ClaimStatus.disputed = true
is_claim_status superseded superseded = true
is_claim_status _ _ = false

abbrev pub is_item_type : ItemType → ItemType → Bool
is_item_type claim_dispute claim_dispute = true
is_item_type verification_lock verification_lock = true
is_item_type claim_block claim_block = true
is_item_type _ _ = false

abbrev pub is_open : ItemStatus → Bool
is_open item_open = true
is_open decided = false

abbrev pub is_domain_email : Method → Bool
is_domain_email domain_email = true
is_domain_email _ = false

abbrev pub is_manual : Method → Bool
is_manual manual = true
is_manual _ = false

-- `review_reason or reason`
abbrev pub reason_or : ReviewReason → ReviewReason → ReviewReason
reason_or unset reason = reason
reason_or old reason = old

-- `status in OPEN_CLAIM_STATUSES`, which is also `_VERIFIABLE_STATUSES`
abbrev pub is_open_claim : ClaimStatus → Bool
is_open_claim pending_verification = true
is_open_claim ClaimStatus.disputed = true
is_open_claim _ = false
