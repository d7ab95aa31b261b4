-- ===== src/Directory/Claims/Rows.antt =====
-- The row that the end of a claim's command leaves in the log (directory/services.py,
-- directory/claim_review.py, audit/command_log.py).
use osds.Prelude.{
  ℕ, ◌≡◌, refl, String, Bool, true, false, Option, none, some, List, [], ◌∷◌, ◌++◌, length, Result,
  ok, err, if◌then◌else◌,
}
use osds.Audit.Actor.{Actor}
use osds.Audit.RateLimit.{Counter}
use osds.Audit.CommandLog.{
  log_conclude, LogOutcome, applied, rejected, blocked, Problem, reason, rate_limited, CommandRow,
  Log,
}
use osds.Audit.CommandLog.Rows.{Keyed, log_conclude-last}
use osds.Directory.Claims.Start.{VerificationRefusal, StartResult, Started}
use osds.Directory.Claims.Verify.{Entered}
use osds.Directory.Claims.Decide.{ReviewRefusal}
use osds.Directory.Claims.State.{Claim, Desk}
use osds.Directory.Claims.Submit.{SubmitRefusal, is_own}
use osds.Directory.Claims.Ends.{
  submitted, submit_refused, submit_problem, conclude_submit, Office, Settled, CommandEnd, started,
  entered, approval, settled, gone, refused, review_refused, limited, refuse_verification, is_gone,
  is_missing, conclude_start, conclude_verify, conclude_review, verification_code_of,
  review_code_of, rule_name, refusal_outcome, conclude_refusal, conclude_applied,
}

-- the row that a command receives
abbrev pub received_row : Log → String → Actor → CommandRow
received_row log command actor = record {
  pk = length log;
  command = command;
  idempotency_key = none;
  adapter_id = "";
  actor = actor;
  outcome = none;
  result_event_id = none;
  problem = none;
  concluded = false;
}

abbrev pub concluded_row : CommandRow → LogOutcome → Option ℕ → Option Problem → List CommandRow
concluded_row row outcome event problem =
    record row {
      outcome = some outcome;
      result_event_id = event;
      problem = problem;
      concluded = true;
    }
    ∷ []

-- The rows of a command that ended so: an applied one names its event, a refused one its reason, and one
-- whose row of a table is gone is left open. A command that a limit stops leaves a row the first time in
-- a window.
abbrev pub end_rows : CommandEnd → Option ℕ → CommandRow → List CommandRow
end_rows (submitted pk) event row = concluded_row row applied event none
end_rows (submit_refused method why) event row =
    concluded_row row rejected none (some (submit_problem method why))
end_rows (started result) event row = concluded_row row applied event none
end_rows (entered right) event row = concluded_row row applied event none
end_rows (approval outcome) event row = concluded_row row applied event none
end_rows settled event row = concluded_row row applied event none
end_rows gone event row = row ∷ []
end_rows (refused why) event row =
    concluded_row row rejected none (some (reason (verification_code_of why)))
end_rows (review_refused why) event row =
    concluded_row row (refusal_outcome why) none (some (reason (review_code_of why)))
end_rows (limited v) event row =
    if v.first_block
    then concluded_row row blocked none (some (rate_limited (rule_name v.rule)))
    else []

-- the event that a transaction of each kind gives to its command
abbrev pub submit_event : Result SubmitRefusal (Desk × Claim × ℕ) → Option ℕ
submit_event (ok (d, c, event)) = some event
submit_event (err why) = none

abbrev pub start_event : Result VerificationRefusal Started → Option ℕ
start_event (ok (d, c, result, event)) = event
start_event (err why) = none

abbrev pub verify_event : Result VerificationRefusal Entered → Option ℕ
verify_event (ok (d, right, event)) = event
verify_event (err why) = none

abbrev pub review_event : Result ReviewRefusal Settled → Option ℕ
review_event (ok (d, outcome, event)) = some event
review_event (err why) = none

-- Those rows are at the end of the log, with that event, and an operator's refused command, a refused submission,
-- one that a limit stopped and one whose row is gone leave the desk as it was.
abbrev pub LeavesRows : Office → String → Actor → Option ℕ → Office × CommandEnd → Type 0
LeavesRows o command actor event (o', end) =
    (o'.log ≡ o.log ++ end_rows end event (received_row o.log command actor)) × (elim end [
      | submitted pk ↦ Unit {0}
      | submit_refused method why ↦ o'.desk ≡ o.desk
      | started result ↦ Unit {0}
      | entered right ↦ Unit {0}
      | approval outcome ↦ Unit {0}
      | settled ↦ Unit {0}
      | gone ↦ o'.desk ≡ o.desk
      | refused why ↦ Unit {0}
      | review_refused why ↦ o'.desk ≡ o.desk
      | limited v ↦ o'.desk ≡ o.desk
    ])

-- the office of a command once its row is received
abbrev pub with_row : Office → String → Actor → Office
with_row o command actor = record o { log = o.log ++ received_row o.log command actor ∷ [] }

refuse_if-LeavesRows :
    (test : Bool) (o : Office) (command : String) (actor : Actor) (counters : List Counter)
    (why : VerificationRefusal)
    → Keyed o.log
    → LeavesRows o command actor none (
        if test then (record (with_row o command actor) { counters = counters }, gone) else (
          conclude_refusal
              (record (with_row o command actor) { counters = counters })
              (length o.log)
              rejected
              (verification_code_of why),
          refused why,
        ))
unfolding conclude_refusal
refuse_if-LeavesRows true o command actor counters why k = (refl, refl)
refuse_if-LeavesRows false o command actor counters why k =
    (log_conclude-last o.log _ _ _ _ _ k refl, tt)

refuse_verification-LeavesRows :
    (o : Office) (command : String) (actor : Actor) (counters : List Counter)
    (why : VerificationRefusal)
    → Keyed o.log
    → LeavesRows o command actor none (
        refuse_verification
          (record (with_row o command actor) { counters = counters })
          (length o.log)
          why)
unfolding refuse_verification
refuse_verification-LeavesRows o command actor counters why k =
    refuse_if-LeavesRows (is_gone why) o command actor counters why k

pub conclude_start-LeavesRows :
    (o : Office) (command : String) (actor : Actor) (counters : List Counter)
    (r : Result VerificationRefusal Started)
    → Keyed o.log
    → LeavesRows o command actor (start_event r) (
        conclude_start (record (with_row o command actor) { counters = counters }) (length o.log) r)
unfolding conclude_start conclude_refusal conclude_applied
conclude_start-LeavesRows o command actor counters (err why) k =
    refuse_verification-LeavesRows o command actor counters why k
conclude_start-LeavesRows o command actor counters (ok (d, c, StartResult.sent, event)) k =
    (log_conclude-last o.log _ _ _ _ _ k refl, tt)
conclude_start-LeavesRows o command actor counters (ok (d, c, StartResult.ineligible, event)) k =
    (log_conclude-last o.log _ _ _ _ _ k refl, tt)
conclude_start-LeavesRows o command actor counters (ok (d, c, StartResult.cooldown, event)) k =
    (log_conclude-last o.log _ _ _ _ _ k refl, tt)
conclude_start-LeavesRows o command actor counters (ok (d, c, StartResult.cap, event)) k =
    (log_conclude-last o.log _ _ _ _ _ k refl, tt)

pub conclude_verify-LeavesRows :
    (o : Office) (command : String) (actor : Actor) (counters : List Counter)
    (r : Result VerificationRefusal Entered)
    → Keyed o.log
    → LeavesRows o command actor (verify_event r) (
        conclude_verify
          (record (with_row o command actor) { counters = counters })
          (length o.log)
          r)
unfolding conclude_verify conclude_applied
conclude_verify-LeavesRows o command actor counters (err why) k =
    refuse_verification-LeavesRows o command actor counters why k
conclude_verify-LeavesRows o command actor counters (ok (d, right, event)) k =
    (log_conclude-last o.log _ _ _ _ _ k refl, tt)

submit_if-LeavesRows :
    (test : Bool) (o : Office) (command : String) (actor : Actor) (counters : List Counter)
    (method : String) (why : SubmitRefusal)
    → Keyed o.log
    → LeavesRows o command actor none (
        if test
        then (
          record o {
            counters = counters;
            log =
                log_conclude
                  (o.log ++ received_row o.log command actor ∷ [])
                  (length o.log)
                  rejected
                  none
                  (some (submit_problem method why));
          },
          submit_refused method why,
        )
        else (record (with_row o command actor) { counters = counters }, gone))
submit_if-LeavesRows true o command actor counters method why k =
    (log_conclude-last o.log _ _ _ _ _ k refl, refl)
submit_if-LeavesRows false o command actor counters method why k = (refl, refl)

pub conclude_submit-LeavesRows :
    (o : Office) (command : String) (actor : Actor) (counters : List Counter) (method : String)
    (r : Result SubmitRefusal (Desk × Claim × ℕ))
    → Keyed o.log
    → LeavesRows o command actor (submit_event r) (
        conclude_submit
          (record (with_row o command actor) { counters = counters })
          (length o.log)
          method
          r)
unfolding conclude_submit conclude_applied
conclude_submit-LeavesRows o command actor counters method (err why) k =
    submit_if-LeavesRows (is_own why) o command actor counters method why k
conclude_submit-LeavesRows o command actor counters method (ok (d, c, event)) k =
    (log_conclude-last o.log _ _ _ _ _ k refl, tt)

review_if-LeavesRows :
    (test : Bool) (o : Office) (command : String) (actor : Actor) (why : ReviewRefusal)
    → Keyed o.log
    → LeavesRows o command actor none (
        if test then (with_row o command actor, gone) else (
          conclude_refusal
              (with_row o command actor)
              (length o.log)
              (refusal_outcome why)
              (review_code_of why),
          review_refused why,
        ))
unfolding conclude_refusal
review_if-LeavesRows true o command actor why k = (refl, refl)
review_if-LeavesRows false o command actor why k = (log_conclude-last o.log _ _ _ _ _ k refl, refl)

pub conclude_review-LeavesRows :
    (o : Office) (command : String) (actor : Actor) (r : Result ReviewRefusal Settled)
    → Keyed o.log
    → LeavesRows o command actor
        (review_event r)
        (conclude_review (with_row o command actor) (length o.log) r)
unfolding conclude_review conclude_refusal conclude_applied
conclude_review-LeavesRows o command actor (err why) k =
    review_if-LeavesRows (is_missing why) o command actor why k
conclude_review-LeavesRows o command actor (ok (d, none, event)) k =
    (log_conclude-last o.log _ _ _ _ _ k refl, tt)
conclude_review-LeavesRows o command actor (ok (d, some outcome, event)) k =
    (log_conclude-last o.log _ _ _ _ _ k refl, tt)
