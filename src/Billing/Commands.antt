-- ===== src/Billing/Commands.antt =====
-- The operator's entitlement commands (billing/commands.py): comp, revoke and override, each in a
-- received row, a guarded move and the row's conclusion. `strip` is Python's `str.strip`.
pub mod Logged
pub mod Landed
use osds.Prelude.{
  ℕ, String, Bool, true, false, not, ◌&&◌, ◌||◌, Option, none, some, List, find, ◌==◌, leb, ltb,
  Result, ok, err, ◌>>=◌, ◌>>◌, require, need, if◌then◌else◌,
}
use text.Mathlib.Text.{◌==◌ as str_eq}
use osds.Audit.Actor.{Actor, staff, admin}
use osds.Audit.CommandLog.{
  Log, applied, rejected, blocked, reason, log_received, log_conclude, LogOutcome,
}
use osds.Billing.Model.{Tier, Status, comped, Trigger, grant, revoke, override, Entitlement}
use osds.Tenants.Staff.{Membership, manage_role, membership_of, actor_of}
use osds.Billing.Machine.{Error, missing_parameters, unknown_status, is_status}
use osds.Billing.Entitlements.Fields.{Params, no_params}
use osds.Billing.Entitlements.Apply.{Call, Outcome}
use osds.Billing.Entitlements.Database.{Db, entitlement_of, apply_trigger}

-- What a command reads and writes.
pub record Office : Type 0 where
  pub db : Db
  pub log : Log
  pub memberships : List Membership

-- the reasons of `EntitlementRefused`
pub data Refusal : Type 0 where
  forbidden reason_required tier_unknown tier_slot expiry_in_past not_comped invalid_state : Refusal
  bad_parameters : Refusal

abbrev pub refusal_code : Refusal → String
refusal_code forbidden = "forbidden"
refusal_code reason_required = "reason_required"
refusal_code tier_unknown = "tier_unknown"
refusal_code tier_slot = "tier_slot"
refusal_code expiry_in_past = "expiry_in_past"
refusal_code not_comped = "not_comped"
refusal_code invalid_state = "invalid_state"
refusal_code bad_parameters = "bad_parameters"

-- What leaves `apply`: a guard's refusal, or the exception of the move.
pub data Failure : Type 0 where
  refuse : Refusal → Failure
  moving : Error → Failure

-- How a command ends.
pub data CommandEnd : Type 0 where
  done : Outcome → CommandEnd
  refused : Refusal → CommandEnd
  raised : Error → CommandEnd

-- not `membership is None or membership.role < MANAGE_ROLE`
abbrev pub is_manager : Option Membership → Bool
is_manager none = false
is_manager (some m) = not (ltb m.role manage_role)

abbrev refusal_outcome : Refusal → LogOutcome
refusal_outcome forbidden = blocked
refusal_outcome _ = rejected

-- the command's end, on the office with its received row
unfoldable pub conclude : Office → ℕ → Result Failure (Db × Outcome) → Office × CommandEnd
conclude o pk (ok (db, outcome)) =
    (record o { db = db; log = log_conclude o.log pk applied none none }, done outcome)
conclude o pk (err (refuse why)) = (
  record o {
    log = log_conclude o.log pk (refusal_outcome why) none (some (reason (refusal_code why)));
  },
  refused why,
)
conclude o pk (err (moving (Error.invalid_transition s t))) = (
  record o { log = log_conclude o.log pk rejected none (some (reason "invalid_state")) },
  refused invalid_state,
)
conclude o pk (err (moving (missing_parameters l))) = (
  record o { log = log_conclude o.log pk rejected none (some (reason "bad_parameters")) },
  refused bad_parameters,
)
conclude o pk (err (moving (unknown_status v))) = (
  record o { log = log_conclude o.log pk rejected none (some (reason "bad_parameters")) },
  refused bad_parameters,
)
conclude o pk (err (moving e)) = (o, raised e)

-- the role's guard, and what it guards
abbrev guarded : Bool → Result Failure (Db × Outcome) → Result Failure (Db × Outcome)
guarded true r = r
guarded false r = err (refuse forbidden)

-- `_run`
unfoldable pub run :
    Office → String → ℕ → (Actor → Result Failure (Db × Outcome)) → Office × CommandEnd
unfolding conclude
run o command operator apply =
    let m = membership_of o.memberships operator in
    let actor = actor_of operator m in
    let (log, pk) = log_received o.log command none actor "" in
    conclude (record o { log = log }) pk (guarded (is_manager m) (apply actor))

abbrev pub lift_move : Result Error (Db × Outcome) → Result Failure (Db × Outcome)
lift_move (ok r) = ok r
lift_move (err e) = err (moving e)

abbrev has_key : String → Tier → Bool
has_key key t = str_eq t.key key

-- `_tier`
unfoldable pub tier_of : List Tier → String → Result Failure Tier
tier_of tiers key = do
  tier ← need (if str_eq key "" then none else find (has_key key) tiers) (refuse tier_unknown)
  require (not tier.uses_slot) (refuse tier_slot)
  ok tier

-- `_reason`
unfoldable pub reason_of : (String → String) → String → Result Failure String
reason_of strip text = do
  require (not (str_eq (strip text) "")) (refuse reason_required)
  ok (strip text)

abbrev pub is_future : ℕ → Option ℕ → Bool
is_future now none = true
is_future now (some t) = not (leb t now)

-- `apply` of `grant_comp`
unfoldable pub apply_grant :
    (String → String)
    → Db
    → ℕ
    → ℕ
    → String
    → String
    → Option ℕ
    → ℕ
    → Actor
    → Result Failure (Db × Outcome)
unfolding tier_of reason_of
apply_grant strip db listing_pk operator tier_key text expires_at now actor = do
  why ← reason_of strip text
  tier ← tier_of db.tiers tier_key
  require (is_future now expires_at) (refuse expiry_in_past)
  lift_move (
      apply_trigger db listing_pk grant (record { now = now; actor = actor; origin = "" })
        (record no_params {
          tier = some tier;
          operator = some operator;
          reason = some why;
          expires_at = expires_at;
        }))

unfoldable pub grant_comp :
    (String → String) → Office → ℕ → ℕ → String → String → Option ℕ → ℕ → Office × CommandEnd
unfolding run
grant_comp strip o listing_pk operator tier_key text expires_at now =
    run o "entitlement.grant" operator
      (apply_grant strip o.db listing_pk operator tier_key text expires_at now)

abbrev pub is_comped : Option Entitlement → Bool
is_comped none = false
is_comped (some ent) = is_status ent.status comped

-- `apply` of `revoke_comp`
unfoldable pub apply_revoke :
    (String → String) → Db → ℕ → ℕ → String → ℕ → Actor → Result Failure (Db × Outcome)
unfolding reason_of
apply_revoke strip db listing_pk operator text now actor = do
  why ← reason_of strip text
  require (is_comped (entitlement_of db listing_pk)) (refuse not_comped)
  lift_move (
      apply_trigger db listing_pk revoke (record { now = now; actor = actor; origin = "" })
        (record no_params { operator = some operator; reason = some why }))

unfoldable pub revoke_comp : (String → String) → Office → ℕ → ℕ → String → ℕ → Office × CommandEnd
unfolding run
revoke_comp strip o listing_pk operator text now =
    run o "entitlement.revoke" operator (apply_revoke strip o.db listing_pk operator text now)

abbrev pub some_tier : Result Failure Tier → Result Failure (Option Tier)
some_tier (ok t) = ok (some t)
some_tier (err e) = err e

-- `apply` of `override_entitlement`
unfoldable pub apply_override :
    (String → String)
    → Db
    → ℕ
    → ℕ
    → String
    → String
    → String
    → Option ℕ
    → Option ℕ
    → ℕ
    → Actor
    → Result Failure (Db × Outcome)
unfolding tier_of reason_of
apply_override strip db listing_pk operator to_status text tier_key period_end trial_ends_at now
      actor =
    do
      why ← reason_of strip text
      tier ← if str_eq tier_key "" then ok none else some_tier (tier_of db.tiers tier_key)
      require (not (str_eq to_status "comped")) (refuse invalid_state)
      lift_move (
          apply_trigger db listing_pk override (record { now = now; actor = actor; origin = "" })
            (record no_params {
              tier = tier;
              operator = some operator;
              reason = some why;
              to_status = some to_status;
              period_end = period_end;
              trial_ends_at = trial_ends_at;
            }))

unfoldable pub override_entitlement :
    (String → String)
    → Office
    → ℕ
    → ℕ
    → String
    → String
    → String
    → Option ℕ
    → Option ℕ
    → ℕ
    → Office × CommandEnd
unfolding run
override_entitlement strip o listing_pk operator to_status text tier_key period_end trial_ends_at
      now =
    run o "entitlement.override" operator (
      apply_override strip o.db listing_pk operator to_status text tier_key period_end trial_ends_at
        now)
