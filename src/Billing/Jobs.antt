-- ===== src/Billing/Jobs.antt =====
-- The tick jobs of billing (billing/jobs.py): the clock's half of the state machine, and the renewal
-- notice of a term.
use osds.Prelude.{
  ℕ, ◌+◌, ◌-◌, ◌/◌, Bool, true, false, ◌&&◌, ◌||◌, Option, none, some, List, [], ◌∷◌, ◌++◌, find,
  select, take, length, ◌==◌, leb, ltb, if◌then◌else◌, is_none, Result, ok, err,
}
use osds.Prelude.Time.{days}
use osds.Billing.Model.{trialing, active, past_due, grace, canceled, comped, Entitlement, Trigger}
use osds.Audit.Actor.{system}
use osds.Billing.Events.{Event, entitlement_renewal_due}
use osds.Billing.Machine.{
  Error, not_due, is_status, is_term, elapsed, is_due, clock_triggers, trial_overdue_window,
  renewal_notice,
}
use osds.Billing.Entitlements.Fields.{no_params}
use osds.Billing.Entitlements.Apply.{Call, Outcome}
use osds.Billing.Entitlements.Database.{Db, apply_trigger, listing_of, save_entitlement}

abbrev pub chunk : ℕ
chunk = 200

-- `_due_q`: a comparison with NULL is not true
unfoldable pub is_due_row : ℕ → Entitlement → Bool
is_due_row now ent =
    (is_status ent.status past_due && elapsed ent.dunning_ends_at now)
    || ((is_status ent.status grace && elapsed ent.grace_ends_at now)
        || ((is_status ent.status canceled && elapsed ent.current_period_end now)
            || ((is_status ent.status comped && elapsed ent.comp_expires_at now)
                || ((is_status ent.status active
                      && (is_term ent.billing_mode && elapsed ent.current_period_end now))
                    || (is_status ent.status trialing
                        && elapsed ent.trial_ends_at (now - trial_overdue_window))))))

-- `_trigger_for`
unfoldable pub trigger_for : Entitlement → ℕ → Option Trigger
trigger_for ent now = find (λ t. is_due ent t now) clock_triggers

-- the worker's call of `apply_trigger`, with the default actor and origin
abbrev pub tick : ℕ → Call
tick now = record { now = now; actor = system "billing"; origin = "" }

-- How one row of a pass ends: passed over, moved, or by an exception that ends the pass.
pub data RowEnd : Type 0 where
  skipped : RowEnd
  moved : Db → RowEnd
  raised : Error → RowEnd

-- `except machine.NotDue: continue`
abbrev pub row_end : Result Error (Db × Outcome) → RowEnd
row_end (ok (db, _)) = moved db
row_end (err (not_due t)) = skipped
row_end (err e) = raised e

unfoldable pub move_row : Db → ℕ → Entitlement → RowEnd
move_row db now ent = elim (trigger_for ent now) [
  | none ↦ skipped
  | some t ↦ row_end (apply_trigger db ent.listing_id t (tick now) no_params)
]

-- Each row commits on its own, so an exception leaves the rows before it moved.
unfoldable pub move_rows : List Entitlement → ℕ → Db → ℕ → Db × ℕ × Option Error
move_rows [] now db done = (db, done, none)
move_rows (ent ∷ rows) now db done = elim (move_row db now ent) [
  | skipped ↦ move_rows rows now db done
  | moved db' ↦ move_rows rows now db' (done + 1)
  | raised e ↦ (db, done, some e)
]

-- `TickResult`, with the database and the exception, if any
pub record Pass : Type 0 where
  pub db : Db
  pub done : ℕ
  pub more : Bool
  pub error : Option Error

unfoldable pub entitlement_transitions : Db → ℕ → Pass
unfolding move_rows move_row
entitlement_transitions db now =
    let rows = take chunk (select (is_due_row now) db.entitlements) in
    let (db', done, error) = move_rows rows now db 0 in
    record { db = db'; done = done; more = length rows == chunk; error = error }

-- the filter of `renewal_notices`
unfoldable pub is_renewal_due : ℕ → Entitlement → Bool
is_renewal_due now ent =
    is_status ent.status active
    && (is_term ent.billing_mode
        && (is_none ent.renewal_notified_at && elim ent.current_period_end [
          | none ↦ false
          | some t ↦ ltb now t && leb t (now + renewal_notice)
        ]))

-- `_notify_renewal`, on the row that it has locked and the listing's public id: the row and the event
unfoldable pub notify_renewal : Entitlement → ℕ → ℕ → Option (Entitlement × Event)
notify_renewal locked listing_public_id now = elim locked.current_period_end [
  | none ↦ none
  | some ends ↦
      if is_status locked.status active && (is_none locked.renewal_notified_at && ltb now ends)
      then some (
        record locked { renewal_notified_at = some now },
        record {
          subject = locked.public_id;
          actor = system "billing";
          origin = "";
          content =
              entitlement_renewal_due locked.public_id listing_public_id ((ends - now) / days 1)
                locked.term_days;
        },
      )
      else none
]

-- The row is looked up again under its lock; what is left of the pass does not see the exception of
-- a listing that is gone, which the foreign key rules out.
unfoldable pub notify_row : Db → ℕ → Entitlement → Db × Bool
unfolding notify_renewal
notify_row db now ent = elim (find (λ e. e.pk == ent.pk) db.entitlements) [
  | none ↦ (db, false)
  | some locked ↦ elim (listing_of db ent.listing_id) [
    | none ↦ (db, false)
    | some listing ↦ elim (notify_renewal locked listing.public_id now) [
      | none ↦ (db, false)
      | some (e, event) ↦ (
        record db {
          entitlements = save_entitlement e db.entitlements;
          outbox = db.outbox ++ (event ∷ []);
        },
        true,
      )
    ]
  ]
]

unfoldable pub notify_rows : List Entitlement → ℕ → Db → ℕ → Db × ℕ
unfolding notify_row
notify_rows [] now db done = (db, done)
notify_rows (ent ∷ rows) now db done =
    let (db', sent) = notify_row db now ent in
    notify_rows rows now db' (if sent then done + 1 else done)

unfoldable pub renewal_notices : Db → ℕ → Pass
unfolding notify_rows is_renewal_due
renewal_notices db now =
    let rows = take chunk (select (is_renewal_due now) db.entitlements) in
    let (db', done) = notify_rows rows now db 0 in
    record { db = db'; done = done; more = length rows == chunk; error = none }
