-- ===== src/Audit/CommandLog/Rows.antt =====
-- Concluding the last row of the log (audit/command_log.py).
use osds.Prelude.{ℕ, ◌≡◌, Bool, true, Option, some, [], ◌∷◌, ◌++◌, all, length, ltb, arith}
use osds.Audit.CommandLog.{LogOutcome, Problem, CommandRow, Log, log_conclude}

-- The rows of a log have keys below its length.
abbrev is_below : ℕ → CommandRow → Bool
is_below n row = ltb row.pk n

abbrev pub Keyed : Log → Type 0
Keyed log = all (is_below (length log)) log ≡ true

pub log_conclude-last :
    (log : Log) (n : ℕ) (row : CommandRow) (outcome : LogOutcome) (event : Option ℕ)
    (problem : Option Problem)
    → all (is_below n) log ≡ true
    → row.pk ≡ n
    → log_conclude (log ++ row ∷ []) n outcome event problem
      ≡ log
        ++ (record row {
          outcome = some outcome;
          result_event_id = event;
          problem = problem;
          concluded = true;
        }
            ∷ [])
unfolding log_conclude
log_conclude-last [] n row outcome event problem k e = ground arith
log_conclude-last (x ∷ log) n row outcome event problem k e =
    ground (arith, log_conclude-last log n row outcome event problem)
