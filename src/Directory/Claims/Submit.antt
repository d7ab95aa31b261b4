-- ===== src/Directory/Claims/Submit.antt =====
-- Submitting a claim (directory/services.py `get_default_consent_text`, `enabled_claim_methods`,
-- `_match_or_create_user`, `_apply_submit_claim`), on a request that is normalised.
use Prim.Native.String.{◌++◌ as append}
use osds.Prelude.{
  ℕ, ◌+◌, String, Bool, true, false, not, ◌&&◌, Option, none, some, List, [], ◌∷◌, ◌++◌, any, find,
  length, is_empty, is_some, if◌then◌else◌, Result, ok, err, need, require, ◌>>=◌, ◌>>◌,
}
use text.Mathlib.Text.{◌==◌ as str_eq}
use osds.Audit.Actor.{visitor}
use osds.Billing.Model.{claimed, Owner}
use osds.Directory.Claims.State.{
  pending_verification, Method, manual, domain_email, ReviewReason, unset, chosen, Claim, Guard,
  Listing, User, Consent, ConsentText, Claimant, user_created, claim_submitted, Desk,
  is_domain_email, is_manual,
}
use osds.Directory.Claims.Tables.{Site, guard_of, emit}
use osds.Directory.Claims.Eligibility.{Text, domain_email_ineligibility}
use osds.Directory.Claims.Items.{notify_operators, dispute}
use osds.Directory.Claims.Approve.{is_listing_status}
use osds.Directory.Claims.Start.{VerificationRefusal, Started, apply_start}

-- the text of the method, the claimant, the consents by channel, and the address of the visitor
pub record Submission : Type 0 where
  pub method : String
  pub claimant : Claimant
  pub consent : List (String × Bool)
  pub ip : Option String

-- the two exceptions of a submission, and the one of the start that it calls
pub data SubmitRefusal : Type 0 where
  method_unknown method_disabled pair_blocked : SubmitRefusal
  consent_missing : String → SubmitRefusal
  not_started : VerificationRefusal → SubmitRefusal

-- a refusal of the submission itself, which its command catches
abbrev pub is_own : SubmitRefusal → Bool
is_own (not_started why) = false
is_own _ = true

-- `Claim.Method.values`
unfoldable pub method_of : String → Option Method
method_of text =
    if str_eq text "manual"
    then some manual
    else if str_eq text "phone_otp"
    then some Method.phone_otp
    else if str_eq text "domain_email"
    then some domain_email
    else if str_eq text "gbp_oauth"
    then some Method.gbp_oauth
    else if str_eq text "postcard"
    then some Method.postcard
    else none

-- `enabled_claim_methods`
abbrev pub enabled_claim_methods : Site → List String
enabled_claim_methods site =
    if is_empty site.enabled_methods then "manual" ∷ [] else site.enabled_methods

abbrev pub consent_channels : List String
consent_channels = "marketing_email" ∷ "marketing_sms" ∷ "automated_calls" ∷ []

abbrev pub is_channel : String → String × Bool → Bool
is_channel channel (name, granted) = str_eq name channel

-- the first channel that the request leaves out is the one reported
unfoldable pub consent_check : List (String × Bool) → List String → Result SubmitRefusal (Unit {0})
consent_check consent [] = ok tt
consent_check consent (channel ∷ channels) =
    let rest = consent_check consent channels in
    if any (is_channel channel) consent then rest else err (consent_missing channel)

abbrev pub default_consent_body : String
default_consent_body =
    "PLACEHOLDER -- the operator must replace this with reviewed legal wording before enabling claims in production.\n\nBy submitting this claim, you confirm you are authorised to manage this listing on behalf of the business named above. Each consent below is independent and you may decline any of them without affecting your claim."

abbrev is_consent_text : ConsentText → Bool
is_consent_text t = str_eq t.key "consent" && str_eq t.version "v1"

abbrev text_version : ConsentText → String
text_version t = append t.key (append "-" t.version)

-- `get_default_consent_text`: the table, and the text as `Consent.text_version` has it
unfoldable pub get_default_consent_text : List ConsentText → List ConsentText × String
get_default_consent_text texts = elim (find is_consent_text texts) [
  | some t ↦ (texts, text_version t)
  | none ↦
      let t : ConsentText = record {
        key = "consent";
        version = "v1";
        body = default_consent_body;
      } in
      (texts ++ t ∷ [], text_version t)
]

abbrev is_user_of : String → User → Bool
is_user_of email u = str_eq u.owner.email email

-- `_match_or_create_user`: the table, the user, and whether it was minted
unfoldable pub match_or_create_user : List User → Claimant → List User × User × Bool
match_or_create_user users c = elim (find (is_user_of c.email) users) [
  | some u ↦ (users, u, false)
  | none ↦
      let u : User = record {
        owner = record { pk = length users; public_id = length users; email = c.email };
        name = c.name;
        phone_e164 = c.phone_e164;
      } in
      (users ++ u ∷ [], u, true)
]

abbrev pub is_blocked : Option Guard → Bool
is_blocked none = false
is_blocked (some g) = is_some g.claim_blocked_at

abbrev chosen_if_manual : Method → ReviewReason
chosen_if_manual method = if is_manual method then chosen else unset

-- what an ineligible claim flips to
abbrev flipped_method : Option ReviewReason → Method × ReviewReason
flipped_method none = (domain_email, unset)
flipped_method (some reason) = (manual, reason)

-- the method that the claim gets, and why a human sees it
unfoldable pub effective_method :
    Site → Text → List Guard → Listing → Owner → Method → Method × ReviewReason
unfolding domain_email_ineligibility
effective_method site text guards listing owner method =
    if is_domain_email method
    then flipped_method (domain_email_ineligibility text site.email_available guards listing owner)
    else (method, chosen_if_manual method)

abbrev pub new_claim : ℕ → ℕ → Owner → Method → Method → ReviewReason → Claim
new_claim pk listing claimant method requested reason = record {
  pk = pk;
  listing = listing;
  claimant = claimant;
  status = pending_verification;
  method = method;
  requested_method = requested;
  review_reason = reason;
  verification_started_at = none;
  expires_at = none;
  attempts = 0;
  code_hash = none;
  code_message = none;
  manual_method_used = none;
  verified_by = none;
  verified_at = none;
  verification_notes = "";
  evidence_ref = "";
  decided_at = none;
  decided_by = none;
  rejection_reason = "";
}

abbrev granted_in : List (String × Bool) → String → Bool
granted_in consent channel = elim (find (is_channel channel) consent) [
  | none ↦ false
  | some (name, granted) ↦ granted
]

-- the consents of a claim, one for each channel
unfoldable pub consent_rows :
    ℕ → List (String × Bool) → Option String → String → ℕ → List String → List Consent
consent_rows claim consent ip version now [] = []
consent_rows claim consent ip version now (channel ∷ channels) =
    let granted = granted_in consent channel in
    record {
      claim = claim;
      channel = channel;
      granted = granted;
      granted_at = if granted then some now else none;
      ip = if granted then ip else none;
      text_version = version;
    }
    ∷ consent_rows claim consent ip version now channels

abbrev pub lift_start : Result VerificationRefusal Started → Result SubmitRefusal (Desk × Claim)
lift_start (ok (d, c, result, event)) = ok (d, c)
lift_start (err why) = err (not_started why)

-- verification starts with the submission of a claim by mail
unfoldable pub start_submitted :
    Bool → Site → Text → String → ℕ → Claim → Desk → Result SubmitRefusal (Desk × Claim)
unfolding apply_start
start_submitted true site text code now c d = lift_start (apply_start site text code c.pk now d)
start_submitted false site text code now c d = ok (d, c)

-- a claimed listing makes a dispute; a claim for a human makes a notice
unfoldable pub route_submitted : Site → Listing → Owner → ℕ → Desk → Claim → Desk
unfolding dispute notify_operators
route_submitted site listing owner now d c =
    if is_listing_status listing.status claimed
    then (dispute site c (visitor owner.public_id) now d).0
    else if is_manual c.method
    then notify_operators site now d
    else d

-- the desk with the new rows and events, and the claim
unfoldable pub create_claim :
    Site → Text → Submission → Listing → Method → String → ℕ → Bool → User → Desk → Desk × Claim
unfolding effective_method consent_rows
create_claim site text s listing method version now minted user d =
    let d1 =
      if minted
      then emit (user_created user) user.owner.public_id (visitor user.owner.public_id) d
      else d in
    let (method', reason) = effective_method site text d.guards listing user.owner method in
    let c = new_claim (length d.claims) listing.pk user.owner method' method reason in
    let consents = consent_rows c.pk s.consent s.ip version now consent_channels in
    (
      emit (claim_submitted c s.claimant consents) c.pk (visitor user.owner.public_id)
          (record d1 { claims = d.claims ++ c ∷ []; consents = d.consents ++ consents }),
      c,
    )

-- the writes of a submission that passes its checks, with the event of `claim.submitted`
unfoldable pub submitting :
    Site
    → Text
    → Submission
    → Listing
    → Method
    → String
    → String
    → ℕ
    → Bool
    → User
    → Desk
    → Result SubmitRefusal (Desk × Claim × ℕ)
unfolding create_claim start_submitted route_submitted
submitting site text s listing method version code now minted user d = do
  let (created, c) = create_claim site text s listing method version now minted user d
  started ← start_submitted (is_domain_email c.method) site text code now c created
  ok (
    route_submitted site listing user.owner now started.0 started.1,
    started.1,
    if minted then length d.outbox + 1 else length d.outbox,
  )

-- `_apply_submit_claim`
unfoldable pub apply_submit :
    Site → Text → Submission → Listing → String → ℕ → Desk → Result SubmitRefusal (Desk × Claim × ℕ)
unfolding method_of consent_check get_default_consent_text match_or_create_user submitting
apply_submit site text s listing code now d = do
  method ← need (method_of s.method) method_unknown
  require (any (str_eq s.method) (enabled_claim_methods site)) method_disabled
  consent_check s.consent consent_channels
  let (texts, version) = get_default_consent_text d.consent_texts
  let (users, user, minted) = match_or_create_user d.users s.claimant
  require (not (is_blocked (guard_of d.guards listing.pk user.owner.pk))) pair_blocked
  submitting site text s listing method version code now minted user
      (record d { users = users; consent_texts = texts })
