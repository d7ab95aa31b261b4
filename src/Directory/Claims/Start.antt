-- ===== src/Directory/Claims/Start.antt =====
-- Sending a code (directory/services.py `_resolve_domain_email_ttl`, `_flip_to_manual`,
-- `_apply_start_verification`). The code itself, from `secrets`, is an argument.
use osds.Prelude.{
  ℕ, ◌+◌, String, Bool, false, ◌&&◌, Option, none, some, length, leb, ltb, is_none, if◌then◌else◌,
  Result, ok, need, require, ◌>>=◌, ◌>>◌,
}
use osds.Prelude.Time.{seconds, minutes, hours}
use osds.Audit.Actor.{visitor}
use osds.Directory.Claims.State.{
  ClaimStatus, manual, Claim, Guard, ReviewReason, FailReason, verification_started,
  verification_failed, Desk, verification_code, is_claim_status, is_domain_email, is_open_claim,
  reason_or,
}
use osds.Directory.Claims.Tables.{
  Site, claim_of, save_claim, lock_guard, save_guard, listing_of, enqueue, expire_pending_code,
  emit,
}
use osds.Directory.Claims.Eligibility.{Text, domain_email_ineligibility}
use osds.Directory.Claims.Items.{notify_operators}

-- the reasons of `VerificationRefused`; `missing` is the `DoesNotExist` of a row that is gone
pub data VerificationRefusal : Type 0 where
  wrong_status wrong_method already_verified locked cooldown cap : VerificationRefusal
  no_active_code expired missing : VerificationRefusal

pub data StartResult : Type 0 where
  sent ineligible cooldown cap : StartResult

abbrev pub min_seconds_between_sends : ℕ
min_seconds_between_sends = 60

abbrev pub max_sends_per_window : ℕ
max_sends_per_window = 5

abbrev pub send_window : ℕ
send_window = hours 24

-- `_resolve_domain_email_ttl`, in minutes, from the stored setting
abbrev pub ttl_minutes : Option ℕ → ℕ
ttl_minutes none = 1440
ttl_minutes (some m) = if leb 15 m && leb m 2880 then m else 1440

-- `_flip_to_manual`
abbrev pub flipped : Claim → ReviewReason → Claim
flipped c reason = record c {
  method = manual;
  code_hash = none;
  review_reason = reason_or c.review_reason reason;
}

-- `t is not None and t > now`
abbrev pub is_after : Option ℕ → ℕ → Bool
is_after none now = false
is_after (some t) now = ltb now t

-- the window that a send counts in, and the sends in it so far
abbrev pub window_of : Guard → ℕ → ℕ × ℕ
window_of g now = elim g.codes_sent_window_start [
  | none ↦ (now, 0)
  | some start ↦ if leb (start + send_window) now then (now, 0) else (start, g.codes_sent_in_window)
]

abbrev is_too_soon : Option ℕ → ℕ → Bool
is_too_soon none now = false
is_too_soon (some last) now = ltb now (last + seconds min_seconds_between_sends)

-- whether a code may go out now
unfoldable pub send_check : Guard → ℕ → StartResult
send_check g now =
    if is_after g.cooldown_until now
    then StartResult.cooldown
    else if is_too_soon g.last_code_sent_at now
    then StartResult.cap
    else if leb max_sends_per_window (window_of g now).1
    then StartResult.cap
    else sent

-- the guard's counters after a send
unfoldable pub sent_guard : Guard → ℕ → Guard
sent_guard g now = record g {
  last_code_sent_at = some now;
  codes_sent_window_start = some (window_of g now).0;
  codes_sent_in_window = (window_of g now).1 + 1;
}

-- the checks of the claim's state that a start and a verification share
unfoldable pub state_check : Claim → Result VerificationRefusal (Unit {0})
state_check c = do
  require (is_open_claim c.status) VerificationRefusal.wrong_status
  require (is_domain_email c.method) VerificationRefusal.wrong_method
  require (is_none c.verified_at) VerificationRefusal.already_verified

unfoldable pub notify_unless_disputed : Site → ClaimStatus → ℕ → Desk → Desk
notify_unless_disputed site status now d =
    if is_claim_status status ClaimStatus.disputed then d else notify_operators site now d

-- the branch of a claim that may no longer be proved by mail
unfoldable pub flip_claim : Site → Claim → ReviewReason → ℕ → Desk → Desk
unfolding notify_operators
flip_claim site claim reason now d =
    let c = flipped claim reason in
    let saved = record d {
      claims = save_claim c d.claims;
      messages = expire_pending_code claim now d.messages;
    } in
    emit (verification_failed c FailReason.ineligible none none) c.pk (visitor c.claimant.public_id)
      (notify_unless_disputed site c.status now saved)

-- the branch that sends a code
unfoldable pub send_code : Site → String → Claim → Guard → ℕ → Desk → Desk × Claim
unfolding sent_guard
send_code site code claim g now d =
    let expires_at = now + minutes (ttl_minutes site.domain_email_minutes) in
    let messages = expire_pending_code claim now d.messages in
    let c = record claim {
      code_hash = some (site.hash_code claim.pk code);
      verification_started_at = some now;
      expires_at = some expires_at;
      code_message = some (length messages);
    } in
    (
      emit (verification_started c) c.pk (visitor c.claimant.public_id) (record d {
        claims = save_claim c d.claims;
        guards = save_guard (sent_guard g now) d.guards;
        messages =
            enqueue site messages "claim.verification_code" claim.claimant.email
              (verification_code claim.pk code expires_at) expires_at now;
      }),
      c,
    )

-- the desk, the claim, the result, and the event that the call itself caused
abbrev pub Started : Type 0
Started = Desk × Claim × StartResult × Option ℕ

unfoldable pub sending : Site → String → Claim → Guard → ℕ → Desk → StartResult → Started
unfolding send_code
sending site code claim g now d sent =
    let (d', c) = send_code site code claim g now d in (d', c, sent, some (length d.outbox))
sending site code claim g now d result = (d, claim, result, none)

unfoldable pub starting : Site → String → Claim → Guard → ℕ → Desk → Option ReviewReason → Started
unfolding flip_claim send_check sending
starting site code claim g now d (some reason) = (
  flip_claim site claim reason now d,
  flipped claim reason,
  StartResult.ineligible,
  some (length d.outbox),
)
starting site code claim g now d none = sending site code claim g now d (send_check g now)

-- `_apply_start_verification`
unfoldable pub apply_start :
    Site → Text → String → ℕ → ℕ → Desk → Result VerificationRefusal Started
unfolding state_check starting
apply_start site text code pk now d = do
  claim ← need (claim_of d pk) VerificationRefusal.missing
  listing ← need (listing_of d claim.listing) VerificationRefusal.missing
  let (guards, g) = lock_guard d.guards claim.listing claim.claimant.pk
  state_check claim
  ok (
      starting site code claim g now (record d { guards = guards })
        (domain_email_ineligibility text site.email_available guards listing claim.claimant))
