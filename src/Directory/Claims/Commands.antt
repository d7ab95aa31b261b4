-- ===== src/Directory/Claims/Commands.antt =====
-- The commands of a claim (directory/services.py `start_claim_verification`, `verify_claim_code`,
-- directory/claim_review.py `approve_claim`, `reject_claim`, `unlock_verification`, `unblock_claims`,
-- directory/claim_limits.py): the rate limit or the role, a received row, and its conclusion.
use osds.Directory.Claims.Submit.{Submission, apply_submit}
use osds.Prelude.{ℕ, String, length, Option, none, some, List, Result, ok, err, if◌then◌else◌}
use osds.Audit.Actor.{Actor, visitor, claimant}
use osds.Audit.CommandLog.{log_received}
use osds.Audit.RateLimit.{Check, check}
use osds.Tenants.Staff.{Membership, membership_of, actor_of}
use osds.Directory.Claims.State.{
  Claim, Listing, verification_lock, claim_block, unlocked, unblocked, Desk,
}
use osds.Directory.Claims.Start.{apply_start}
use osds.Directory.Claims.Verify.{apply_verify}
use osds.Directory.Claims.Decide.{
  ReviewRefusal, Approval, Approved, apply_approve, apply_reject, apply_queue_command,
}
use osds.Directory.Claims.Limits.{check_submit, check_verify, check_resend}
use osds.Directory.Claims.Ends.{
  Office, World, CommandEnd, log_block, conclude_start, conclude_verify, conclude_submit, Settled,
  conclude_review, limited,
}

-- the rate limit, and the command behind it with its received row
unfoldable pub behind_limit :
    World
    → Office
    → String
    → Actor
    → List Check
    → ℕ
    → (Office → ℕ → Office × CommandEnd)
    → Office × CommandEnd
unfolding log_block log_received check
behind_limit w o command actor checks now k =
    let (counters, verdict) = check w.hashing checks now o.counters in
    let (received, pk) = log_received o.log command none actor "" in
    if verdict.allowed then k (record o { counters = counters; log = received }) pk else (
      record o { counters = counters; log = log_block o.log command actor verdict },
      limited verdict,
    )

-- `start_claim_verification`. The limits and the command each read the clock.
unfoldable pub start_claim_verification :
    World → Claim → String → String → ℕ → ℕ → Office → Office × CommandEnd
unfolding behind_limit conclude_start apply_start
start_claim_verification w claim ip code checked_at now o =
    behind_limit w o "claim.start_verification" (visitor claim.claimant.public_id)
      (check_resend ip claim.claimant.email) checked_at
      (λ o' pk. conclude_start o' pk (apply_start w.site w.text code claim.pk now o'.desk))

-- `verify_claim_code`
unfoldable pub verify_claim_code :
    World → Claim → String → String → ℕ → ℕ → Office → Office × CommandEnd
unfolding behind_limit conclude_verify apply_verify
verify_claim_code w claim ip code checked_at now o =
    behind_limit w o "claim.verify" (visitor claim.claimant.public_id) (check_verify ip) checked_at
      (λ o' pk. conclude_verify o' pk (apply_verify w.site code claim.pk now o'.desk))

abbrev pub ip_or_empty : Option String → String
ip_or_empty none = ""
ip_or_empty (some ip) = ip

-- `submit_claim`, once the request is normalised
unfoldable pub submit_claim :
    World → Submission → Listing → String → ℕ → ℕ → Office → Office × CommandEnd
unfolding behind_limit conclude_submit apply_submit
submit_claim w s listing code checked_at now o =
    behind_limit w o "claim.submit" (claimant (length o.desk.claims))
      (check_submit (ip_or_empty s.ip) s.claimant.email) checked_at
      (λ o' pk.
        conclude_submit o' pk s.method (apply_submit w.site w.text s listing code now o'.desk))

-- an operator's command: the membership, the actor, and the received row
unfoldable pub reviewed :
    Office
    → String
    → ℕ
    → (Option Membership → Actor → Desk → Result ReviewRefusal Settled)
    → Office × CommandEnd
unfolding log_received conclude_review
reviewed o command operator apply =
    let m = membership_of o.desk.memberships operator in
    let actor = actor_of operator m in
    let (received, pk) = log_received o.log command none actor "" in
    conclude_review (record o { log = received }) pk (apply m actor o.desk)

abbrev pub with_approval : Result ReviewRefusal Approved → Result ReviewRefusal Settled
with_approval (ok (d, outcome, event)) = ok (d, some outcome, event)
with_approval (err why) = err why

abbrev pub with_settled : Result ReviewRefusal (Desk × ℕ) → Result ReviewRefusal Settled
with_settled (ok (d, event)) = ok (d, none, event)
with_settled (err why) = err why

-- `approve_claim`
unfoldable pub approve_claim : World → ℕ → ℕ → Approval → ℕ → Office → Office × CommandEnd
unfolding reviewed apply_approve
approve_claim w pk operator a now o =
    reviewed o "claim.approve" operator
      (λ m actor d. with_approval (apply_approve w.site pk operator m actor a now d))

-- `reject_claim`
unfoldable pub reject_claim : World → ℕ → ℕ → String → ℕ → Office → Office × CommandEnd
unfolding reviewed apply_reject
reject_claim w pk operator text now o =
    reviewed o "claim.reject" operator
      (λ m actor d. with_settled (apply_reject w.site pk operator m actor text now d))

-- `unlock_verification`, `unblock_claims`
unfoldable pub unlock_verification : World → ℕ → ℕ → String → ℕ → Office → Office × CommandEnd
unfolding reviewed apply_queue_command
unlock_verification w pk operator text now o =
    reviewed o "claim.unlock_verification" operator (λ m actor d.
      with_settled
        (apply_queue_command w.site pk operator m actor text verification_lock unlocked now d))

unfoldable pub unblock_claims : World → ℕ → ℕ → String → ℕ → Office → Office × CommandEnd
unfolding reviewed apply_queue_command
unblock_claims w pk operator text now o = reviewed o "claim.unblock" operator (λ m actor d.
    with_settled (apply_queue_command w.site pk operator m actor text claim_block unblocked now d))

-- one command, of a visitor or of an operator
pub data Command : Type 0 where
  submit : Submission → Listing → String → ℕ → ℕ → Command
  start_verification verify : Claim → String → String → ℕ → ℕ → Command
  approve : ℕ → ℕ → Approval → ℕ → Command
  reject unlock unblock : ℕ → ℕ → String → ℕ → Command

unfoldable pub serve : World → Command → Office → Office × CommandEnd
unfolding submit_claim start_claim_verification verify_claim_code approve_claim reject_claim
    unlock_verification unblock_claims
serve w (submit s listing code checked_at now) o = submit_claim w s listing code checked_at now o
serve w (start_verification claim ip code checked_at now) o =
    start_claim_verification w claim ip code checked_at now o
serve w (verify claim ip code checked_at now) o = verify_claim_code w claim ip code checked_at now o
serve w (approve pk operator a now) o = approve_claim w pk operator a now o
serve w (reject pk operator text now) o = reject_claim w pk operator text now o
serve w (unlock pk operator text now) o = unlock_verification w pk operator text now o
serve w (unblock pk operator text now) o = unblock_claims w pk operator text now o
