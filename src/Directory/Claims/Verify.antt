-- ===== src/Directory/Claims/Verify.antt =====
-- Entering a code (directory/services.py `_apply_verify_claim_code`).
use osds.Prelude.{
  ℕ, ◌+◌, String, Bool, true, false, not, Option, none, some, length, leb, is_none, if◌then◌else◌,
  Result, ok, need, require, ◌>>=◌, ◌>>◌,
}
use osds.Prelude.Time.{minutes}
use text.Mathlib.Text.{◌==◌ as str_eq}
use osds.Audit.Actor.{visitor}
use osds.Directory.Claims.State.{
  ClaimStatus, manual, Claim, Guard, Listing, ReviewReason, FailReason, verification_lock,
  verification_failed, Desk, is_claim_status, reason_or,
}
use osds.Directory.Claims.Tables.{
  Site, claim_of, save_claim, lock_guard, save_guard, listing_of, expire_pending_code, emit,
}
use osds.Directory.Claims.Items.{open_item, notify_operators}
use osds.Directory.Claims.Approve.{resolve_verified_claim}
use osds.Directory.Claims.Start.{VerificationRefusal, state_check, is_after}

abbrev pub cooldown_minutes : ℕ
cooldown_minutes = 15

abbrev pub max_wrong_entries : ℕ
max_wrong_entries = 5

abbrev pub max_cooldowns : ℕ
max_cooldowns = 3

abbrev is_expired : Option ℕ → ℕ → Bool
is_expired none now = false
is_expired (some t) now = leb t now

-- the checks, in the order in which their reason is reported; the hash of the live code
unfoldable pub verify_check : Claim → Guard → ℕ → Result VerificationRefusal String
unfolding state_check
verify_check c g now = do
  state_check c
  require (is_none g.verification_locked_at) VerificationRefusal.locked
  require (not (is_after g.cooldown_until now)) VerificationRefusal.cooldown
  hash ← need c.code_hash VerificationRefusal.no_active_code
  require (not (is_expired c.expires_at now)) VerificationRefusal.expired
  ok hash

-- the guard after a wrong entry
unfoldable pub wrong_guard : Guard → ℕ → Guard
wrong_guard g now =
    if leb max_wrong_entries (g.wrong_entries + 1)
    then record g {
      wrong_entries = 0;
      cooldowns = g.cooldowns + 1;
      cooldown_until = some (now + minutes cooldown_minutes);
      verification_locked_at =
          if leb max_cooldowns (g.cooldowns + 1) then some now else g.verification_locked_at;
    }
    else record g { wrong_entries = g.wrong_entries + 1 }

-- why a wrong entry failed
unfoldable pub wrong_reason : Guard → FailReason
wrong_reason g =
    if leb max_wrong_entries (g.wrong_entries + 1)
    then (if leb max_cooldowns (g.cooldowns + 1) then FailReason.locked else FailReason.cooldown)
    else FailReason.wrong_code

-- the claim after a wrong entry
unfoldable pub wrong_claim : Claim → FailReason → Claim
wrong_claim c FailReason.locked = record c {
  attempts = c.attempts + 1;
  code_hash = none;
  method = manual;
  review_reason = reason_or c.review_reason ReviewReason.locked;
}
wrong_claim c FailReason.cooldown = record c { attempts = c.attempts + 1; code_hash = none }
wrong_claim c _ = record c { attempts = c.attempts + 1 }

abbrev pub is_lock : FailReason → Bool
is_lock FailReason.locked = true
is_lock _ = false

-- a lock opens the operator's item, and tells the staff unless a dispute already did
unfoldable pub queue_lock : Site → Claim → FailReason → ℕ → Desk → Desk
unfolding open_item notify_operators
queue_lock site c reason now d =
    if is_lock reason
    then (let queued =
          open_item verification_lock c "verification_cooldowns_exhausted"
            (visitor c.claimant.public_id) d in
        if is_claim_status c.status ClaimStatus.disputed
        then queued
        else notify_operators site now queued)
    else d

-- a wrong code
unfoldable pub enter_wrong : Site → Claim → Guard → ℕ → Desk → Desk
unfolding wrong_guard wrong_reason wrong_claim queue_lock
enter_wrong site claim g now d =
    let reason = wrong_reason g in
    let c = wrong_claim claim reason in
    let g' = wrong_guard g now in
    queue_lock site c reason now (
      emit (verification_failed c reason (some (g.wrong_entries + 1)) (some g'.cooldowns)) c.pk
        (visitor c.claimant.public_id)
        (record d {
          claims = save_claim c d.claims;
          guards = save_guard g' d.guards;
          messages =
              if is_lock reason then expire_pending_code claim now d.messages else d.messages;
        }))

-- the right code: evidence for the reviewer of a dispute, and a decision for any other claim
unfoldable pub enter_right : Site → Claim → Listing → ℕ → Desk → Desk × Option ℕ
unfolding resolve_verified_claim
enter_right site claim listing now d =
    let c = record claim { verified_at = some now; code_hash = none } in
    let saved = record d { claims = save_claim c d.claims } in
    if is_claim_status c.status ClaimStatus.disputed
    then (saved, none)
    else resolve_verified_claim site c listing now saved

-- the desk, whether the code was right, and the event that the command concludes with
abbrev pub Entered : Type 0
Entered = Desk × Bool × Option ℕ

unfoldable pub entering : Bool → Site → Claim → Listing → Guard → ℕ → Desk → Entered
unfolding enter_right enter_wrong
entering true site claim listing g now d =
    let (d', event) = enter_right site claim listing now d in (d', true, event)
entering false site claim listing g now d =
    (enter_wrong site claim g now d, false, some (length d.outbox))

-- `_apply_verify_claim_code`
unfoldable pub apply_verify : Site → String → ℕ → ℕ → Desk → Result VerificationRefusal Entered
unfolding verify_check entering
apply_verify site code pk now d = do
  claim ← need (claim_of d pk) VerificationRefusal.missing
  listing ← need (listing_of d claim.listing) VerificationRefusal.missing
  let (guards, g) = lock_guard d.guards claim.listing claim.claimant.pk
  hash ← verify_check claim g now
  ok (
      entering (str_eq hash (site.hash_code claim.pk code)) site claim listing g now
        (record d { guards = guards }))
