-- ===== src/Directory/Claims/Logged.antt =====
-- The rows that the commands of a claim leave in the log (directory/services.py,
-- directory/claim_review.py, audit/command_log.py).
use osds.Prelude.{
  ℕ, refl, sym, String, Bool, true, false, Option, List, length, Result, inl, inr, Bool-cases,
  if◌then◌else◌,
}
use mathlib.Core.List.{append-nil}
use osds.Audit.Actor.{Actor, visitor, claimant}
use osds.Audit.RateLimit.{Check, check, Verdict, Counter}
use osds.Audit.CommandLog.{log_received}
use osds.Audit.CommandLog.Rows.{Keyed, log_conclude-last}
use osds.Tenants.Staff.{Membership, membership_of, actor_of}
use osds.Directory.Claims.State.{Desk, verification_lock, claim_block, unlocked, unblocked}
use osds.Directory.Claims.Start.{apply_start}
use osds.Directory.Claims.Verify.{apply_verify}
use osds.Directory.Claims.Decide.{ReviewRefusal, apply_approve, apply_reject, apply_queue_command}
use osds.Directory.Claims.Submit.{apply_submit}
use osds.Directory.Claims.Limits.{check_submit, check_resend, check_verify}
use osds.Directory.Claims.Ends.{
  conclude_submit, Office, World, Settled, CommandEnd, limited, conclude_start, conclude_verify,
  log_block,
}
use osds.Directory.Claims.Commands.{
  submit, submit_claim, ip_or_empty, behind_limit, reviewed, with_approval, with_settled, Command,
  start_verification, verify, approve, reject, unlock, unblock, serve, start_claim_verification,
  verify_claim_code, approve_claim, reject_claim, unlock_verification, unblock_claims,
}
use osds.Directory.Claims.Rows.{
  submit_event, start_event, verify_event, review_event, with_row, LeavesRows,
  conclude_submit-LeavesRows, conclude_start-LeavesRows, conclude_verify-LeavesRows,
  conclude_review-LeavesRows,
}

-- who gives a command, and under which name
abbrev pub command_name : Command → String
command_name (submit s listing code checked_at now) = "claim.submit"
command_name (start_verification claim ip code checked_at now) = "claim.start_verification"
command_name (verify claim ip code checked_at now) = "claim.verify"
command_name (approve pk operator a now) = "claim.approve"
command_name (reject pk operator text now) = "claim.reject"
command_name (unlock pk operator text now) = "claim.unlock_verification"
command_name (unblock pk operator text now) = "claim.unblock"

abbrev operator_actor : Office → ℕ → Actor
operator_actor o operator = actor_of operator (membership_of o.desk.memberships operator)

abbrev pub command_actor : Office → Command → Actor
command_actor o (submit s listing code checked_at now) = claimant (length o.desk.claims)
command_actor o (start_verification claim ip code checked_at now) = visitor claim.claimant.public_id
command_actor o (verify claim ip code checked_at now) = visitor claim.claimant.public_id
command_actor o (approve pk operator a now) = operator_actor o operator
command_actor o (reject pk operator text now) = operator_actor o operator
command_actor o (unlock pk operator text now) = operator_actor o operator
command_actor o (unblock pk operator text now) = operator_actor o operator

limited-LeavesRows :
    (event : Option ℕ) (o : Office) (command : String) (actor : Actor) (counters : List Counter)
    (v : Verdict)
    → Keyed o.log
    → LeavesRows o command actor event
        (record o { counters = counters; log = log_block o.log command actor v }, limited v)
unfolding log_block log_received
limited-LeavesRows event o command actor counters v k = elim (Bool-cases v.first_block) [
  | inl e ↦ (rw (e, log_block) (log_conclude-last o.log _ _ _ _ _ k refl), refl)
  | inr e ↦ (rw (e, log_block) (sym (append-nil o.log)), refl)
]

limit_if-LeavesRows :
    (test : Bool) (event : Option ℕ) (o : Office) (command : String) (actor : Actor)
    (counters : List Counter) (v : Verdict) (k : Office → ℕ → Office × CommandEnd)
    → Keyed o.log
    → ((counters : List Counter)
        → LeavesRows o command actor event
            (k (record (with_row o command actor) { counters = counters }) (length o.log)))
    → LeavesRows o command actor event (
        if test
        then k (record (with_row o command actor) { counters = counters }) (length o.log)
        else (record o { counters = counters; log = log_block o.log command actor v }, limited v))
limit_if-LeavesRows true event o command actor counters v k keyed h = h counters
limit_if-LeavesRows false event o command actor counters v k keyed h =
    limited-LeavesRows event o command actor counters v keyed

behind_limit-LeavesRows :
    (event : Option ℕ) (w : World) (o : Office) (command : String) (actor : Actor)
    (checks : List Check) (now : ℕ) (k : Office → ℕ → Office × CommandEnd)
    → Keyed o.log
    → ((counters : List Counter)
        → LeavesRows o command actor event
            (k (record (with_row o command actor) { counters = counters }) (length o.log)))
    → LeavesRows o command actor event (behind_limit w o command actor checks now k)
unfolding behind_limit log_received
behind_limit-LeavesRows event w o command actor checks now k keyed h =
    limit_if-LeavesRows (check w.hashing checks now o.counters).1.allowed event o command actor
      (check w.hashing checks now o.counters).0 (check w.hashing checks now o.counters).1 k keyed h

reviewed-LeavesRows :
    (o : Office) (command : String) (operator : ℕ)
    (apply : Option Membership → Actor → Desk → Result ReviewRefusal Settled)
    → Keyed o.log
    → LeavesRows o command
        (operator_actor o operator)
        (review_event
          (apply (membership_of o.desk.memberships operator) (operator_actor o operator) o.desk))
        (reviewed o command operator apply)
unfolding reviewed log_received
reviewed-LeavesRows o command operator apply k =
    conclude_review-LeavesRows o command (operator_actor o operator) _ k

-- the event that the command's transaction gives to it
abbrev pub command_event : World → Office → Command → Option ℕ
command_event w o (submit s listing code checked_at now) =
    submit_event (apply_submit w.site w.text s listing code now o.desk)
command_event w o (start_verification claim ip code checked_at now) =
    start_event (apply_start w.site w.text code claim.pk now o.desk)
command_event w o (verify claim ip code checked_at now) =
    verify_event (apply_verify w.site code claim.pk now o.desk)
command_event w o (approve pk operator a now) = review_event (
    with_approval (
      apply_approve w.site pk operator (membership_of o.desk.memberships operator)
        (operator_actor o operator) a now o.desk))
command_event w o (reject pk operator text now) = review_event (
    with_settled (
      apply_reject w.site pk operator (membership_of o.desk.memberships operator)
        (operator_actor o operator) text now o.desk))
command_event w o (unlock pk operator text now) = review_event (
    with_settled (
      apply_queue_command w.site pk operator (membership_of o.desk.memberships operator)
        (operator_actor o operator) text verification_lock unlocked now o.desk))
command_event w o (unblock pk operator text now) = review_event (
    with_settled (
      apply_queue_command w.site pk operator (membership_of o.desk.memberships operator)
        (operator_actor o operator) text claim_block unblocked now o.desk))

-- A command leaves its rows at the end of the log, under its name and by who gave it: one that was applied, with
-- the event that its transaction gave, one that was refused, with its reason, one left open where a row it needs
-- is gone, and, for a command that a rate limit stops, one the first time in the window and none after. A
-- command that a limit stops, a submission or an operator's command that is refused, and one whose row is gone
-- change no table but the log and the counters. The keys of the log's rows are below its length.
pub serve-LeavesRows :
    (w : World) (command : Command) (o : Office)
    → Keyed o.log
    → LeavesRows o
        (command_name command)
        (command_actor o command)
        (command_event w o command)
        (serve w command o)
unfolding serve submit_claim start_claim_verification verify_claim_code approve_claim reject_claim
    unlock_verification unblock_claims
serve-LeavesRows w (submit s listing code checked_at now) o k =
    behind_limit-LeavesRows (submit_event (apply_submit w.site w.text s listing code now o.desk)) w
      o "claim.submit" (claimant (length o.desk.claims))
      (check_submit (ip_or_empty s.ip) s.claimant.email) checked_at
      (λ o' pk.
        conclude_submit o' pk s.method (apply_submit w.site w.text s listing code now o'.desk))
      k (λ counters. conclude_submit-LeavesRows o _ _ counters s.method _ k)
serve-LeavesRows w (start_verification claim ip code checked_at now) o k =
    behind_limit-LeavesRows (start_event (apply_start w.site w.text code claim.pk now o.desk)) w o
      "claim.start_verification" (visitor claim.claimant.public_id)
      (check_resend ip claim.claimant.email) checked_at
      (λ o' pk. conclude_start o' pk (apply_start w.site w.text code claim.pk now o'.desk)) k
      (λ counters. conclude_start-LeavesRows o _ _ counters _ k)
serve-LeavesRows w (verify claim ip code checked_at now) o k =
    behind_limit-LeavesRows (verify_event (apply_verify w.site code claim.pk now o.desk)) w o
      "claim.verify" (visitor claim.claimant.public_id) (check_verify ip) checked_at
      (λ o' pk. conclude_verify o' pk (apply_verify w.site code claim.pk now o'.desk)) k
      (λ counters. conclude_verify-LeavesRows o _ _ counters _ k)
serve-LeavesRows w (approve pk operator a now) o k =
    reviewed-LeavesRows o "claim.approve" operator
      (λ m actor d. with_approval (apply_approve w.site pk operator m actor a now d)) k
serve-LeavesRows w (reject pk operator text now) o k =
    reviewed-LeavesRows o "claim.reject" operator
      (λ m actor d. with_settled (apply_reject w.site pk operator m actor text now d)) k
serve-LeavesRows w (unlock pk operator text now) o k =
    reviewed-LeavesRows o "claim.unlock_verification" operator
      (λ m actor d.
        with_settled
          (apply_queue_command w.site pk operator m actor text verification_lock unlocked now d))
      k
serve-LeavesRows w (unblock pk operator text now) o k =
    reviewed-LeavesRows o "claim.unblock" operator
      (λ m actor d.
        with_settled
          (apply_queue_command w.site pk operator m actor text claim_block unblocked now d))
      k
