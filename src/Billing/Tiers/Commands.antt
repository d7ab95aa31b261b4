-- ===== src/Billing/Tiers/Commands.antt =====
-- The commands around the writes (billing/tiers.py, audit/command_log.py `settings_command`).
use osds.Prelude.{
  ℕ, String, Bool, true, false, Option, none, some, List, [], ◌∷◌, find, if◌then◌else◌, Result, ok,
  err,
}
use osds.Audit.Actor.{admin}
use osds.Audit.CommandLog.{applied, rejected, reason, log_received, log_conclude}
use osds.Billing.Tiers.State.{Fields, Shelf, Shop, TierError, data_error, gone}
use osds.Billing.Tiers.Writes.{apply_create, apply_delete, apply_update, has_tier_pk}

-- whether an exception is in `refused`
abbrev is_tier_error : TierError → Bool
is_tier_error data_error = false
is_tier_error gone = false
is_tier_error e = true

-- `settings_command`: an exception that is not a refusal leaves the row unconcluded
unfoldable pub settings_command : ℕ → Shelf → Result TierError Shelf → Shelf × Option TierError
unfolding log_received log_conclude
settings_command operator d r =
    let (log, pk) = log_received d.log "settings.update" none (admin operator) "" in
    elim r [
      | ok d' ↦ (record d' { log = log_conclude log pk applied none none }, none)
      | err e ↦ (
        record d {
          log =
              if is_tier_error e
              then log_conclude log pk rejected none (some (reason "invalid"))
              else log;
        },
        some e,
      )
    ]

pub data TierCommand : Type 0 where
  create : String → Fields → TierCommand
  update : ℕ → Option String → (Fields → Fields) → TierCommand
  delete : ℕ → TierCommand

-- `create_tier`, `update_tier`, `delete_tier`
unfoldable pub administer : Shop → ℕ → TierCommand → Shelf → Shelf × Option TierError
unfolding settings_command apply_create apply_update apply_delete
administer s operator (create key fields) d =
    settings_command operator d (apply_create s operator key fields d)
administer s operator (update pk key change) d = elim (find (has_tier_pk pk) d.tiers) [
  | none ↦ (d, some gone)
  | some t ↦ settings_command operator d (apply_update s operator t key change d)
]
administer s operator (delete pk) d = elim (find (has_tier_pk pk) d.tiers) [
  | none ↦ (d, some gone)
  | some t ↦ settings_command operator d (apply_delete operator t d)
]

unfoldable pub administer_all : Shop → List (ℕ × TierCommand) → Shelf → Shelf
unfolding administer
administer_all s [] d = d
administer_all s ((operator, command) ∷ commands) d =
    administer_all s commands (administer s operator command d).0
