-- ===== src/Directory/Claims/Served.antt =====
-- What every command of a claim keeps and leaves (directory/services.py, directory/claim_review.py,
-- directory/claim_limits.py).
use osds.Prelude.{
  length, ℕ, ◌≡◌, String, Option, List, [], ◌∷◌, Result, ok, err, inl, inr, Bool-cases, arith,
}
use osds.Audit.Actor.{Actor, visitor, claimant}
use osds.Audit.RateLimit.{Check, check}
use osds.Tenants.Staff.{Membership}
use osds.Directory.Claims.State.{
  Claim, Desk, ItemType, verification_lock, claim_block, Decision, unlocked, unblocked,
}
use osds.Directory.Claims.Start.{VerificationRefusal, StartResult, Started, apply_start}
use osds.Directory.Claims.Verify.{Entered, apply_verify}
use osds.Directory.Claims.Decide.{
  ReviewRefusal, Approved, apply_approve, apply_reject, apply_queue_command,
}
use osds.Directory.Claims.Owned.{SoundDesk}
use osds.Directory.Claims.Kept.{Keeps, apply_start-Keeps, apply_verify-Keeps}
use osds.Directory.Claims.Reviewed.{
  apply_approve-Keeps, apply_reject-Keeps, apply_queue_command-Keeps,
}
use osds.Directory.Claims.Submit.{SubmitRefusal, is_own, apply_submit}
use osds.Directory.Claims.Submitted.{apply_submit-Keeps}
use osds.Directory.Claims.Limits.{check_submit, check_resend, check_verify}
use osds.Directory.Claims.Ends.{
  conclude_submit, Office, World, Settled, CommandEnd, refuse_verification, conclude_start,
  conclude_verify, conclude_review,
}
use osds.Directory.Claims.Commands.{
  ip_or_empty, submit, submit_claim, behind_limit, reviewed, with_approval, with_settled, Command,
  start_verification, verify, approve, reject, unlock, unblock, serve, start_claim_verification,
  verify_claim_code, approve_claim, reject_claim, unlock_verification, unblock_claims,
}

refuse_verification-desk :
    (o : Office) (pk : ℕ) (why : VerificationRefusal)
    → (refuse_verification o pk why).0.desk ≡ o.desk
unfolding refuse_verification
refuse_verification-desk o pk why = ground arith

conclude_start-Sound :
    (o : Office) (pk : ℕ) (r : Result VerificationRefusal Started)
    → SoundDesk o.desk
    → Keeps (λ x. x.0) r
    → SoundDesk (conclude_start o pk r).0.desk
unfolding conclude_start
conclude_start-Sound o pk (err why) s k = rw (refuse_verification-desk o pk why) s
conclude_start-Sound o pk (ok (d, c, StartResult.sent, event)) s k = k
conclude_start-Sound o pk (ok (d, c, StartResult.ineligible, event)) s k = k
conclude_start-Sound o pk (ok (d, c, StartResult.cooldown, event)) s k = k
conclude_start-Sound o pk (ok (d, c, StartResult.cap, event)) s k = k

conclude_verify-Sound :
    (o : Office) (pk : ℕ) (r : Result VerificationRefusal Entered)
    → SoundDesk o.desk
    → Keeps (λ x. x.0) r
    → SoundDesk (conclude_verify o pk r).0.desk
unfolding conclude_verify
conclude_verify-Sound o pk (err why) s k = rw (refuse_verification-desk o pk why) s
conclude_verify-Sound o pk (ok (d, right, event)) s k = k

refused_review-desk :
    (o : Office) (pk : ℕ) (why : ReviewRefusal) → (conclude_review o pk (err why)).0.desk ≡ o.desk
unfolding conclude_review
refused_review-desk o pk why = ground arith

conclude_review-Sound :
    (o : Office) (pk : ℕ) (r : Result ReviewRefusal Settled)
    → SoundDesk o.desk
    → Keeps (λ x. x.0) r
    → SoundDesk (conclude_review o pk r).0.desk
unfolding conclude_review
conclude_review-Sound o pk (err why) s k = rw (refused_review-desk o pk why) s
conclude_review-Sound o pk (ok (d, end, event)) s k = k

conclude_submit-Sound :
    (o : Office) (pk : ℕ) (method : String) (r : Result SubmitRefusal (Desk × Claim × ℕ))
    → SoundDesk o.desk
    → Keeps (λ x. x.0) r
    → SoundDesk (conclude_submit o pk method r).0.desk
unfolding conclude_submit
conclude_submit-Sound o pk method (ok (d, c, event)) s k = k
conclude_submit-Sound o pk method (err why) s k = elim (Bool-cases (is_own why)) [
  | inl e ↦ rw (e, conclude_submit) s
  | inr e ↦ rw (e, conclude_submit) s
]

with_approval-Keeps :
    (r : Result ReviewRefusal Approved) → Keeps (λ x. x.0) r → Keeps (λ x. x.0) (with_approval r)
with_approval-Keeps (ok (d, outcome, event)) k = k
with_approval-Keeps (err why) k = tt

with_settled-Keeps :
    (r : Result ReviewRefusal (Desk × ℕ)) → Keeps (λ x. x.0) r → Keeps (λ x. x.0) (with_settled r)
with_settled-Keeps (ok (d, event)) k = k
with_settled-Keeps (err why) k = tt

behind_limit-Sound :
    (w : World) (o : Office) (command : String) (actor : Actor) (checks : List Check) (now : ℕ)
    (k : Office → ℕ → Office × CommandEnd)
    → SoundDesk o.desk
    → ((o' : Office) (pk : ℕ) → SoundDesk o'.desk → SoundDesk (k o' pk).0.desk)
    → SoundDesk (behind_limit w o command actor checks now k).0.desk
unfolding behind_limit
behind_limit-Sound w o command actor checks now k s h =
    elim (Bool-cases (check w.hashing checks now o.counters).1.allowed) [
      | inl e ↦ rw (e, behind_limit) (h _ _ s)
      | inr e ↦ rw (e, behind_limit) s
    ]

reviewed-Sound :
    (o : Office) (command : String) (operator : ℕ)
    (apply : Option Membership → Actor → Desk → Result ReviewRefusal Settled)
    → SoundDesk o.desk
    → ((m : Option Membership) (actor : Actor) → Keeps (λ x. x.0) (apply m actor o.desk))
    → SoundDesk (reviewed o command operator apply).0.desk
unfolding reviewed
reviewed-Sound o command operator apply s h = conclude_review-Sound _ _ _ s (h _ _)

queued-Sound :
    (w : World) (o : Office) (command : String) (pk operator : ℕ) (text : String) (t : ItemType)
    (decision : Decision) (now : ℕ)
    → SoundDesk o.desk
    → SoundDesk
        (reviewed o command operator (λ m actor d.
          with_settled
            (apply_queue_command w.site pk operator m actor text t decision now d))).0.desk
queued-Sound w o command pk operator text t decision now s =
    reviewed-Sound o command operator
      (λ m actor d.
        with_settled (apply_queue_command w.site pk operator m actor text t decision now d))
      s
      (λ m actor.
        with_settled-Keeps
          (apply_queue_command w.site pk operator m actor text t decision now o.desk)
          (apply_queue_command-Keeps w.site pk operator m actor text t decision now o.desk s))

serve-Sound :
    (w : World) (command : Command) (o : Office)
    → SoundDesk o.desk
    → SoundDesk (serve w command o).0.desk
unfolding serve submit_claim start_claim_verification verify_claim_code approve_claim reject_claim
    unlock_verification unblock_claims
serve-Sound w (submit sub listing code checked_at now) o s =
    behind_limit-Sound w o "claim.submit" (claimant (length o.desk.claims))
      (check_submit (ip_or_empty sub.ip) sub.claimant.email) checked_at
      (λ o' pk.
        conclude_submit o' pk sub.method (apply_submit w.site w.text sub listing code now o'.desk))
      s
      (λ o' pk s'.
        conclude_submit-Sound o' pk sub.method
          (apply_submit w.site w.text sub listing code now o'.desk) s'
          (apply_submit-Keeps w.site w.text sub listing code now o'.desk s'))
serve-Sound w (start_verification claim ip code checked_at now) o s =
    behind_limit-Sound w o "claim.start_verification" (visitor claim.claimant.public_id)
      (check_resend ip claim.claimant.email) checked_at
      (λ o' pk. conclude_start o' pk (apply_start w.site w.text code claim.pk now o'.desk)) s
      (λ o' pk s'.
        conclude_start-Sound o' pk (apply_start w.site w.text code claim.pk now o'.desk) s'
          (apply_start-Keeps w.site w.text code claim.pk now o'.desk s'))
serve-Sound w (verify claim ip code checked_at now) o s =
    behind_limit-Sound w o "claim.verify" (visitor claim.claimant.public_id) (check_verify ip)
      checked_at (λ o' pk. conclude_verify o' pk (apply_verify w.site code claim.pk now o'.desk)) s
      (λ o' pk s'.
        conclude_verify-Sound o' pk (apply_verify w.site code claim.pk now o'.desk) s'
          (apply_verify-Keeps w.site code claim.pk now o'.desk s'))
serve-Sound w (approve pk operator a now) o s =
    reviewed-Sound o "claim.approve" operator
      (λ m actor d. with_approval (apply_approve w.site pk operator m actor a now d)) s
      (λ m actor.
        with_approval-Keeps (apply_approve w.site pk operator m actor a now o.desk)
          (apply_approve-Keeps w.site pk operator m actor a now o.desk s))
serve-Sound w (reject pk operator text now) o s =
    reviewed-Sound o "claim.reject" operator
      (λ m actor d. with_settled (apply_reject w.site pk operator m actor text now d)) s
      (λ m actor.
        with_settled-Keeps (apply_reject w.site pk operator m actor text now o.desk)
          (apply_reject-Keeps w.site pk operator m actor text now o.desk s))
serve-Sound w (unlock pk operator text now) o s =
    queued-Sound w o "claim.unlock_verification" pk operator text verification_lock unlocked now s
serve-Sound w (unblock pk operator text now) o s =
    queued-Sound w o "claim.unblock" pk operator text claim_block unblocked now s

unfoldable pub serve_all : World → List Command → Office → Office
unfolding serve
serve_all w [] o = o
serve_all w (command ∷ commands) o = serve_all w commands (serve w command o).0

-- Whatever commands are given, by visitors and operators and in any order, what holds of the owners
-- keeps holding: on each listing at most one claim is approved, and the listing of an approved claim is
-- claimed and owned by that claim's claimant.
pub serve_all-Sound :
    (w : World) (commands : List Command) (o : Office)
    → SoundDesk o.desk
    → SoundDesk (serve_all w commands o).desk
unfolding serve_all
serve_all-Sound w [] o s = s
serve_all-Sound w (command ∷ commands) o s =
    serve_all-Sound w commands (serve w command o).0 (serve-Sound w command o s)
