-- ===== src/Directory/Claims/Ends.antt =====
-- How a command of a claim ends, and the conclusion of its row (directory/services.py,
-- directory/claim_review.py `_conclude_refused`).
use Prim.Native.String.{◌++◌ as append}
use osds.Directory.Claims.Submit.{SubmitRefusal, is_own}
use osds.Prelude.{
  ℕ, String, Bool, true, false, Option, none, some, List, Result, ok, err, if◌then◌else◌,
}
use osds.Audit.Actor.{Actor}
use osds.Audit.CommandLog.{
  Problem, Log, LogOutcome, applied, rejected, blocked, reason, rate_limited, missing_consent,
  errors, log_received, log_conclude,
}
use osds.Audit.RateLimit.{Verdict, Hashing, Counter}
use osds.Directory.Claims.State.{Claim, Desk}
use osds.Directory.Claims.Tables.{Site}
use osds.Directory.Claims.Eligibility.{Text}
use osds.Directory.Claims.Start.{VerificationRefusal, StartResult, Started}
use osds.Directory.Claims.Verify.{Entered}
use osds.Directory.Claims.Decide.{ReviewRefusal, forbidden, ApproveOutcome}

-- What a command reads and writes.
pub record Office : Type 0 where
  pub desk : Desk
  pub log : Log
  pub counters : List Counter

-- What does not change: the site, the text functions, and what the rate limits hash with.
pub record World : Type 0 where
  pub site : Site
  pub text : Text
  pub hashing : Hashing

-- How a command ends: `gone` is an exception that gets out and leaves the row open.
pub data CommandEnd : Type 0 where
  submitted : ℕ → CommandEnd
  submit_refused : String → SubmitRefusal → CommandEnd
  started : StartResult → CommandEnd
  entered : Bool → CommandEnd
  approval : ApproveOutcome → CommandEnd
  settled gone : CommandEnd
  refused : VerificationRefusal → CommandEnd
  review_refused : ReviewRefusal → CommandEnd
  limited : Verdict → CommandEnd

abbrev pub verification_code_of : VerificationRefusal → String
verification_code_of VerificationRefusal.wrong_status = "status"
verification_code_of VerificationRefusal.wrong_method = "method"
verification_code_of VerificationRefusal.already_verified = "verified"
verification_code_of VerificationRefusal.locked = "locked"
verification_code_of VerificationRefusal.cooldown = "cooldown"
verification_code_of VerificationRefusal.cap = "cap"
verification_code_of VerificationRefusal.no_active_code = "no_active_code"
verification_code_of VerificationRefusal.expired = "expired"
verification_code_of VerificationRefusal.missing = ""

abbrev pub review_code_of : ReviewRefusal → String
review_code_of forbidden = "forbidden"
review_code_of ReviewRefusal.notes_required = "notes_required"
review_code_of ReviewRefusal.method_used_invalid = "method_used_invalid"
review_code_of ReviewRefusal.wrong_status = "status"
review_code_of ReviewRefusal.listing_suspended = "listing_suspended"
review_code_of ReviewRefusal.transfer_unconfirmed = "transfer_unconfirmed"
review_code_of ReviewRefusal.reason_required = "reason_required"
review_code_of ReviewRefusal.rationale_required = "rationale_required"
review_code_of ReviewRefusal.wrong_type = "wrong_type"
review_code_of ReviewRefusal.item_not_open = "item_not_open"
review_code_of ReviewRefusal.missing = ""

abbrev pub rule_name : Option String → String
rule_name none = ""
rule_name (some name) = name

-- a blocked command leaves a row where its rule blocks for the first time in the window
unfoldable pub log_block : Log → String → Actor → Verdict → Log
unfolding log_received log_conclude
log_block log command actor v =
    let (received, pk) = log_received log command none actor "" in
    if v.first_block
    then log_conclude received pk blocked none (some (rate_limited (rule_name v.rule)))
    else log

-- the conclusion of a command that was refused
unfoldable pub conclude_refusal : Office → ℕ → LogOutcome → String → Office
unfolding log_conclude
conclude_refusal o pk outcome code = record o {
  log = log_conclude o.log pk outcome none (some (reason code));
}

unfoldable pub conclude_applied : Office → ℕ → Option ℕ → Desk → Office
unfolding log_conclude
conclude_applied o pk event d = record o {
  desk = d;
  log = log_conclude o.log pk applied event none;
}

abbrev pub is_gone : VerificationRefusal → Bool
is_gone VerificationRefusal.missing = true
is_gone _ = false

-- `except VerificationRefused`; a `DoesNotExist` gets out and leaves the row open
unfoldable pub refuse_verification : Office → ℕ → VerificationRefusal → Office × CommandEnd
unfolding conclude_refusal
refuse_verification o pk why =
    if is_gone why
    then (o, gone)
    else (conclude_refusal o pk rejected (verification_code_of why), refused why)

-- what `start_claim_verification` does after its row is received
unfoldable pub conclude_start :
    Office → ℕ → Result VerificationRefusal Started → Office × CommandEnd
unfolding conclude_refusal conclude_applied refuse_verification
conclude_start o pk (err why) = refuse_verification o pk why
conclude_start o pk (ok (d, c, StartResult.cooldown, event)) = (
  record (conclude_refusal o pk rejected "cooldown") { desk = d },
  refused VerificationRefusal.cooldown,
)
conclude_start o pk (ok (d, c, StartResult.cap, event)) =
    (record (conclude_refusal o pk rejected "cap") { desk = d }, refused VerificationRefusal.cap)
conclude_start o pk (ok (d, c, result, event)) = (conclude_applied o pk event d, started result)

unfoldable pub conclude_verify :
    Office → ℕ → Result VerificationRefusal Entered → Office × CommandEnd
unfolding conclude_applied refuse_verification
conclude_verify o pk (err why) = refuse_verification o pk why
conclude_verify o pk (ok (d, right, event)) = (conclude_applied o pk event d, entered right)

-- the `problem` of a refused submission
abbrev pub submit_problem : String → SubmitRefusal → Problem
submit_problem method SubmitRefusal.method_unknown =
    errors "method is not one of domain_email, gbp_oauth, manual, phone_otp, postcard"
submit_problem method SubmitRefusal.method_disabled =
    errors (append "verification method '" (append method "' is not enabled for this tenant"))
submit_problem method SubmitRefusal.pair_blocked =
    errors "this address is blocked from claiming this listing"
submit_problem method (SubmitRefusal.consent_missing channel) = missing_consent channel
submit_problem method (SubmitRefusal.not_started why) = errors ""

-- what `submit_claim` does after its row is received; no handler is for the exception of the start
unfoldable pub conclude_submit :
    Office → ℕ → String → Result SubmitRefusal (Desk × Claim × ℕ) → Office × CommandEnd
unfolding conclude_applied log_conclude
conclude_submit o pk method (ok (d, c, event)) =
    (conclude_applied o pk (some event) d, submitted c.pk)
conclude_submit o pk method (err why) =
    if is_own why
    then (
      record o { log = log_conclude o.log pk rejected none (some (submit_problem method why)) },
      submit_refused method why,
    )
    else (o, gone)

-- `_conclude_refused`
abbrev pub refusal_outcome : ReviewRefusal → LogOutcome
refusal_outcome forbidden = blocked
refusal_outcome _ = rejected

-- a decision's desk, what an approval came to, and the event that the command concludes with
abbrev pub Settled : Type 0
Settled = Desk × Option ApproveOutcome × ℕ

abbrev pub review_end : Option ApproveOutcome → CommandEnd
review_end none = settled
review_end (some outcome) = approval outcome

abbrev pub is_missing : ReviewRefusal → Bool
is_missing ReviewRefusal.missing = true
is_missing _ = false

unfoldable pub conclude_review : Office → ℕ → Result ReviewRefusal Settled → Office × CommandEnd
unfolding conclude_refusal conclude_applied
conclude_review o pk (err why) =
    if is_missing why
    then (o, gone)
    else (conclude_refusal o pk (refusal_outcome why) (review_code_of why), review_refused why)
conclude_review o pk (ok (d, outcome, event)) =
    (conclude_applied o pk (some event) d, review_end outcome)
