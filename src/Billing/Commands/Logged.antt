-- ===== src/Billing/Commands/Logged.antt =====
-- The row that a command leaves in the log (billing/commands.py `_run`).
use osds.Prelude.{
  ℕ, ◌≡◌, refl, String, Bool, true, false, none, some, [], ◌∷◌, ◌++◌, length, Result, ok, err,
}
use osds.Audit.Actor.{Actor}
use osds.Audit.CommandLog.{applied, reason, CommandRow, log_received}
use osds.Audit.CommandLog.Rows.{Keyed, log_conclude-last}
use osds.Billing.Machine.{Error}
use osds.Billing.Entitlements.Apply.{Outcome}
use osds.Billing.Entitlements.Database.{Db}
use osds.Tenants.Staff.{membership_of, actor_of}
use osds.Billing.Commands.{
  Office, Failure, refuse, moving, refusal_code, refusal_outcome, CommandEnd, done, refused, raised,
  conclude, run, guarded, is_manager,
}

-- the row of a command that ended so
abbrev pub ended_row : CommandEnd → CommandRow → CommandRow
ended_row (done outcome) row = record row {
  outcome = some applied;
  result_event_id = none;
  problem = none;
  concluded = true;
}
ended_row (refused why) row = record row {
  outcome = some (refusal_outcome why);
  result_event_id = none;
  problem = some (reason (refusal_code why));
  concluded = true;
}
ended_row (raised e) row = row

-- the row that `run` receives
abbrev pub received_row : Office → String → ℕ → CommandRow
received_row o command operator = record {
  pk = length o.log;
  command = command;
  idempotency_key = none;
  adapter_id = "";
  actor = actor_of operator (membership_of o.memberships operator);
  outcome = none;
  result_event_id = none;
  problem = none;
  concluded = false;
}

-- The row is at the end of the log, and the tables are as they were unless the command was done by a
-- manager.
abbrev pub LoggedAs : Office → String → ℕ → Office × CommandEnd → Type 0
LoggedAs o command operator (o', end) =
    (o'.log ≡ o.log ++ ended_row end (received_row o command operator) ∷ [])
    × (o'.memberships ≡ o.memberships)
    × (elim end [
      | done outcome ↦ is_manager (membership_of o.memberships operator) ≡ true
      | refused why ↦ o'.db ≡ o.db
      | raised e ↦ o'.db ≡ o.db
    ])

conclude-LoggedAs :
    (o : Office) (command : String) (operator : ℕ) (m : Bool) (r : Result Failure (Db × Outcome))
    → Keyed o.log
    → is_manager (membership_of o.memberships operator) ≡ m
    → LoggedAs o command operator (
        conclude
          (record o { log = o.log ++ received_row o command operator ∷ [] })
          (length o.log)
          (guarded m r))
unfolding conclude
conclude-LoggedAs o command operator false r k e =
    (log_conclude-last o.log _ _ _ _ _ k refl, refl, refl)
conclude-LoggedAs o command operator true (ok (db, outcome)) k e =
    (log_conclude-last o.log _ _ _ _ _ k refl, refl, e)
conclude-LoggedAs o command operator true (err (refuse why)) k e =
    (log_conclude-last o.log _ _ _ _ _ k refl, refl, refl)
conclude-LoggedAs o command operator true (err (moving (Error.invalid_transition s t))) k e =
    (log_conclude-last o.log _ _ _ _ _ k refl, refl, refl)
conclude-LoggedAs o command operator true (err (moving (Error.missing_parameters l))) k e =
    (log_conclude-last o.log _ _ _ _ _ k refl, refl, refl)
conclude-LoggedAs o command operator true (err (moving (Error.unknown_status v))) k e =
    (log_conclude-last o.log _ _ _ _ _ k refl, refl, refl)
conclude-LoggedAs o command operator true (err (moving (Error.not_due t))) k e = (refl, refl, refl)
conclude-LoggedAs o command operator true (err (moving (Error.key_error name))) k e =
    (refl, refl, refl)
conclude-LoggedAs o command operator true (err (moving Error.no_listing)) k e = (refl, refl, refl)

-- A command of any kind leaves one row more, which says who gave it and how it ended: applied, blocked for
-- a role below manager, rejected with the refusal's code, or unconcluded where an exception got out.
-- Only a manager's command that was applied changes the tables; no command changes the memberships.
-- The keys of the log's rows are below its length.
pub run-LoggedAs :
    (o : Office) (command : String) (operator : ℕ) (apply : Actor → Result Failure (Db × Outcome))
    → Keyed o.log
    → LoggedAs o command operator (run o command operator apply)
unfolding run log_received
run-LoggedAs o command operator apply k = conclude-LoggedAs o command operator _ _ k refl
