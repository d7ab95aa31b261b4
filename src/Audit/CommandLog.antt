-- ===== src/Audit/CommandLog.antt =====
-- The command log (audit/command_log.py): a row is written before a command's transaction opens, and
-- its outcome after it has settled. The payload and the trace id are left out, and `concluded_at` is
-- a mark.
pub mod Rows
use osds.Prelude.{
  ℕ, String, Bool, true, false, Option, none, some, List, [], ◌∷◌, ◌++◌, length, ◌==◌,
  if◌then◌else◌,
}
use osds.Audit.Actor.{Actor}

-- `CommandLog.Outcome`
pub data LogOutcome : Type 0 where
  applied rejected blocked : LogOutcome

-- `problem`: a reason, a rate limit's rule, a consent that is missing, what is wrong with a request, or
-- the mark of a replay
pub data Problem : Type 0 where
  reason rate_limited missing_consent errors : String → Problem
  idempotent_replay : Problem

-- `CommandLog`. `outcome` is null in a row whose command threw.
pub record CommandRow : Type 0 where
  pub pk : ℕ
  pub command : String
  pub idempotency_key : Option String
  pub adapter_id : String
  pub actor : Actor
  pub outcome : Option LogOutcome
  pub result_event_id : Option ℕ
  pub problem : Option Problem
  pub concluded : Bool

-- The table, in the order of its keys: the row with key `k` is the one at place `k`.
abbrev pub Log : Type 0
Log = List CommandRow

-- `log_received`: the log with the row, and the row's key
unfoldable pub log_received : Log → String → Option String → Actor → String → Log × ℕ
log_received log command key actor origin = (
  log
      ++ (record {
        pk = length log;
        command = command;
        idempotency_key = key;
        adapter_id = origin;
        actor = actor;
        outcome = none;
        result_event_id = none;
        problem = none;
        concluded = false;
      }
          ∷ []),
  length log,
)

-- `log_conclude`
unfoldable pub log_conclude : Log → ℕ → LogOutcome → Option ℕ → Option Problem → Log
log_conclude [] pk outcome event problem = []
log_conclude (row ∷ log) pk outcome event problem =
    (if row.pk == pk
      then record row {
        outcome = some outcome;
        result_event_id = event;
        problem = problem;
        concluded = true;
      }
      else row)
    ∷ log_conclude log pk outcome event problem

-- `log_replay`: written already concluded, with the prior result's event
unfoldable pub log_replay : Log → String → Option String → Actor → CommandRow → Log
log_replay log command key actor prior =
    log
    ++ (record {
      pk = length log;
      command = command;
      idempotency_key = key;
      adapter_id = "";
      actor = actor;
      outcome = some applied;
      result_event_id = prior.result_event_id;
      problem = some idempotent_replay;
      concluded = true;
    }
        ∷ [])
