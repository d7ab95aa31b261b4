-- ===== src/Billing/Commands/Landed.antt =====
-- Where the commands leave an entitlement (billing/commands.py `grant_comp`, `revoke_comp`,
-- `override_entitlement`).
use osds.Prelude.{
  ℕ, ◌≡◌, ◌≢◌, refl, String, Bool, true, false, none, some, Option, Result, ok, err, Result-cases,
  ◌>>=◌, Option-cases, inl, inr, arith, require, not, if◌then◌else◌,
}
use text.Mathlib.Text.{◌==◌ as str_eq}
use mathlib.Core.Path.{subst}
use osds.Audit.Actor.{Actor}
use osds.Billing.Model.{Status, comped, expired, Trigger, grant, revoke, override}
use osds.Billing.Machine.{Error}
use osds.Billing.Machine.Table.{landing}
use osds.Billing.Entitlements.Fields.{Params}
use osds.Billing.Entitlements.Override.{status_of_value}
use osds.Billing.Entitlements.Apply.{Call, Outcome, move}
use osds.Billing.Entitlements.Landing.{LandsOn, move-landing}
use osds.Billing.Entitlements.Saved.{HasStatus, settled-outcome, apply_trigger-saved}
use osds.Billing.Entitlements.Database.{Db, entitlement_of, listing_of, ensure, apply_trigger}
use osds.Tenants.Staff.{membership_of, actor_of}
use osds.Billing.Commands.{
  Failure, refuse, moving, conclude, run, guarded, is_manager, Office, done, invalid_state,
  expiry_in_past, not_comped, is_future, is_comped, some_tier, lift_move, tier_of, reason_of,
  apply_grant, apply_revoke, apply_override, grant_comp, revoke_comp, override_entitlement,
}

-- A successful call leaves the status that the table gives.
pub apply_trigger-LandsOn :
    (db : Db) (listing_pk : ℕ) (t : Trigger) (c : Call) (p : Params) {db' : Db} {out : Outcome}
    → apply_trigger db listing_pk t c p ≡ ok (db', out)
    → LandsOn (landing out.from_status t) p out.to_status
unfolding apply_trigger
apply_trigger-LandsOn db listing_pk t c p {db'} {out} h =
    elim (Option-cases (listing_of db listing_pk)) [
      | inl e ↦ absurd (ground arith)
      | inr (listing, l) ↦
          elim (Result-cases (ensure db listing_pk t p (entitlement_of db listing_pk))) [
            | inr (e, fails) ↦ absurd (ground arith)
            | inl ((db'', ent), created) ↦ elim (Result-cases (move db''.tiers c t p ent listing)) [
              | inr (e, fails) ↦ absurd (ground arith)
              | inl (m, moves) ↦
                  let o = settled-outcome m ent db''.tiers c t p listing moves in
                  let same : m.outcome ≡ out = ground arith in
                  subst (λ x. LandsOn (landing x.from_status t) p x.to_status) same
                    (rw (o.0, o.1) (move-landing db''.tiers c t p ent listing moves))
            ]
          ]
    ]

guarded-done :
    (o : Office) (pk : ℕ) (manager : Bool) (r : Result Failure (Db × Outcome)) {out : Outcome}
    → (conclude o pk (guarded manager r)).1 ≡ done out
    → r ≡ ok ((conclude o pk (guarded manager r)).0.db, out)
unfolding conclude
guarded-done o pk false r h = absurd (ground arith)
guarded-done o pk true (ok (db, out')) h = ground arith
guarded-done o pk true (err (refuse why)) h = absurd (ground arith)
guarded-done o pk true (err (moving e)) h = absurd (ground arith)

run-done :
    (o : Office) (command : String) (operator : ℕ) (apply : Actor → Result Failure (Db × Outcome))
    {out : Outcome}
    → (run o command operator apply).1 ≡ done out
    → apply (actor_of operator (membership_of o.memberships operator))
      ≡ ok ((run o command operator apply).0.db, out)
unfolding run
run-done o command operator apply h =
    guarded-done _ _ (is_manager (membership_of o.memberships operator))
      (apply (actor_of operator (membership_of o.memberships operator))) h

lift_move-ok : (r : Result Error (Db × Outcome)) {x : Db × Outcome} → lift_move r ≡ ok x → r ≡ ok x
lift_move-ok r h = ground arith

-- the text "comped" is the only one of that status
not_comped_value :
    (v : String) {s : Status} → str_eq v "comped" ≡ false → status_of_value v ≡ some s → s ≢ comped
unfolding status_of_value
not_comped_value v n h e = ground arith

-- The guards of a command, taken apart.
passed :
    {A B : Type 0} (r : Result Failure A) (s : A → Result Failure B) {x : B}
    → (r >>= s) ≡ ok x
    → (a : A) × (r ≡ ok a) × (s a ≡ ok x)
passed (ok a) s h = (a, refl, h)
passed (err e) s h = absurd (ground arith)

override-landing :
    (db : Db) (listing_pk : ℕ) (c : Call) (p : Params) (v : String) {db' : Db} {out : Outcome}
    → p.to_status ≡ some v
    → str_eq v "comped" ≡ false
    → lift_move (apply_trigger db listing_pk override c p) ≡ ok (db', out)
    → (status_of_value v ≡ some out.to_status)
      × (out.to_status ≢ comped)
      × HasStatus db' listing_pk out.to_status
unfolding landing
override-landing db listing_pk c p v {out = out} e n h =
    let (w, named, known) = apply_trigger-LandsOn db listing_pk override c p (lift_move-ok _ h) in
    let same : w ≡ v = ground arith in
    let k = subst (λ x. status_of_value x ≡ some out.to_status) same known in
    (k, not_comped_value v n k, apply_trigger-saved db listing_pk override c p (lift_move-ok _ h))

apply_override-landing :
    (strip : String → String) (db : Db) (listing_pk operator : ℕ) (to_status text tier_key : String)
    (period_end trial_ends_at : Option ℕ) (now : ℕ) (actor : Actor) {db' : Db} {out : Outcome}
    → apply_override strip db listing_pk operator to_status text tier_key period_end trial_ends_at
        now actor
      ≡ ok (db', out)
    → (status_of_value to_status ≡ some out.to_status)
      × (out.to_status ≢ comped)
      × HasStatus db' listing_pk out.to_status
unfolding apply_override
apply_override-landing strip db listing_pk operator to_status text tier_key period_end trial_ends_at
      now actor {db'} {out} h =
    let (why, w, h1) = passed (reason_of strip text) _ h in
    let (tier, t, h2) =
      passed (if str_eq tier_key "" then ok none else some_tier (tier_of db.tiers tier_key)) _ h1 in
    let (u, g, h3) =
      passed (require (not (str_eq to_status "comped")) (refuse invalid_state)) _ h2 in
    override-landing db listing_pk _ _ to_status refl (ground arith) h3

-- An override that is done leaves the listing's entitlement in the table in the status whose value the operator
-- gave, which is not `comped` and is the one that it answers.
pub override_entitlement-landing :
    (strip : String → String) (o : Office) (listing_pk operator : ℕ)
    (to_status text tier_key : String) (period_end trial_ends_at : Option ℕ) (now : ℕ)
    {out : Outcome}
    → (override_entitlement strip o listing_pk operator to_status text tier_key period_end
        trial_ends_at now).1
      ≡ done out
    → (status_of_value to_status ≡ some out.to_status)
      × (out.to_status ≢ comped)
      × HasStatus
          (override_entitlement strip o listing_pk operator to_status text tier_key period_end
            trial_ends_at now).0.db
          listing_pk
          out.to_status
unfolding override_entitlement
override_entitlement-landing strip o listing_pk operator to_status text tier_key period_end
      trial_ends_at now h =
    apply_override-landing strip o.db listing_pk operator to_status text tier_key period_end
      trial_ends_at now (actor_of operator (membership_of o.memberships operator))
      (run-done o "entitlement.override" operator
        (apply_override strip o.db listing_pk operator to_status text tier_key period_end
          trial_ends_at now)
        h)

grant-comped :
    (db : Db) (listing_pk : ℕ) (c : Call) (p : Params) {db' : Db} {out : Outcome}
    → lift_move (apply_trigger db listing_pk grant c p) ≡ ok (db', out)
    → HasStatus db' listing_pk comped
unfolding landing
grant-comped db listing_pk c p {db'} h =
    subst (λ s. HasStatus db' listing_pk s)
      (apply_trigger-LandsOn db listing_pk grant c p (lift_move-ok _ h))
      (apply_trigger-saved db listing_pk grant c p (lift_move-ok _ h))

apply_grant-comped :
    (strip : String → String) (db : Db) (listing_pk operator : ℕ) (tier_key text : String)
    (expires_at : Option ℕ) (now : ℕ) (actor : Actor) {db' : Db} {out : Outcome}
    → apply_grant strip db listing_pk operator tier_key text expires_at now actor ≡ ok (db', out)
    → HasStatus db' listing_pk comped
unfolding apply_grant
apply_grant-comped strip db listing_pk operator tier_key text expires_at now actor h =
    let (why, w, h1) = passed (reason_of strip text) _ h in
    let (tier, t, h2) = passed (tier_of db.tiers tier_key) _ h1 in
    let (u, g, h3) = passed (require (is_future now expires_at) (refuse expiry_in_past)) _ h2 in
    grant-comped db listing_pk _ _ h3

revoke-expired :
    (db : Db) (listing_pk : ℕ) (c : Call) (p : Params) {db' : Db} {out : Outcome}
    → lift_move (apply_trigger db listing_pk revoke c p) ≡ ok (db', out)
    → HasStatus db' listing_pk expired
unfolding landing
revoke-expired db listing_pk c p {db'} h =
    subst (λ s. HasStatus db' listing_pk s)
      (apply_trigger-LandsOn db listing_pk revoke c p (lift_move-ok _ h))
      (apply_trigger-saved db listing_pk revoke c p (lift_move-ok _ h))

apply_revoke-expired :
    (strip : String → String) (db : Db) (listing_pk operator : ℕ) (text : String) (now : ℕ)
    (actor : Actor) {db' : Db} {out : Outcome}
    → apply_revoke strip db listing_pk operator text now actor ≡ ok (db', out)
    → HasStatus db' listing_pk expired
unfolding apply_revoke
apply_revoke-expired strip db listing_pk operator text now actor h =
    let (why, w, h1) = passed (reason_of strip text) _ h in
    let (u, g, h2) =
      passed (require (is_comped (entitlement_of db listing_pk)) (refuse not_comped)) _ h1 in
    revoke-expired db listing_pk _ _ h2

-- A comp that is done leaves the listing's entitlement in the table as `comped`, and a revocation that is done
-- leaves it there as `expired`.
pub comp-landing :
    (strip : String → String) (o o' : Office) (listing_pk operator : ℕ) (tier_key text : String)
    (expires_at : Option ℕ) (now : ℕ) {out out' : Outcome}
    → (grant_comp strip o listing_pk operator tier_key text expires_at now).1 ≡ done out
    → (revoke_comp strip o' listing_pk operator text now).1 ≡ done out'
    → HasStatus
        (grant_comp strip o listing_pk operator tier_key text expires_at now).0.db
        listing_pk
        comped
      × HasStatus (revoke_comp strip o' listing_pk operator text now).0.db listing_pk expired
unfolding grant_comp revoke_comp
comp-landing strip o o' listing_pk operator tier_key text expires_at now h h' = (
  apply_grant-comped strip o.db listing_pk operator tier_key text expires_at now
      (actor_of operator (membership_of o.memberships operator))
      (run-done o "entitlement.grant" operator
        (apply_grant strip o.db listing_pk operator tier_key text expires_at now) h),
  apply_revoke-expired strip o'.db listing_pk operator text now
      (actor_of operator (membership_of o'.memberships operator))
      (run-done o' "entitlement.revoke" operator
        (apply_revoke strip o'.db listing_pk operator text now) h'),
)
