-- ===== src/Billing/CommandExamples.antt =====
-- Tests of the operator's commands on a concrete office, and instances of their theorems.
use osds.Prelude.{◌≡◌, ◌≢◌, refl, none, some, [], ◌∷◌, String, length}
use osds.Audit.CommandLog.{log_received, log_conclude}
use osds.Billing.Model.{comped, expired, active}
use osds.Billing.Machine.{rule_for}
use osds.Billing.Entitlements.Mutate.{mutate}
use osds.Billing.Entitlements.Display.{effective_tier, set_tier, visibility_after}
use osds.Billing.Entitlements.Emit.{event_data, emit_all}
use osds.Billing.Entitlements.Apply.{tier_cause, settled, emit_rule, move}
use osds.Billing.Entitlements.Override.{
  status_of_value, override_to, override_known, mutate_override,
}
use osds.Billing.Entitlements.Database.{
  entitlement_of, listing_of, ensure, commit, apply_trigger, save_entitlement, save_listing,
}
use osds.Billing.Notices.{after_transition}
use osds.Billing.Commands.{
  Office, CommandEnd, refused, forbidden, conclude, run, tier_of, reason_of, apply_grant,
  grant_comp, apply_revoke, revoke_comp, apply_override, override_entitlement,
}
use osds.Tenants.Staff.{MembershipStatus}
use osds.Prelude.{true}
use osds.Billing.Commands.Logged.{LoggedAs, run-LoggedAs}
use osds.Billing.Entitlements.Saved.{HasStatus}
use osds.Billing.Commands.Landed.{override_entitlement-landing, comp-landing}
use osds.Billing.ReportExamples.{world}

abbrev strip : String → String
strip text = text

-- operator 4 is a manager, and operator 5 an editor
abbrev office : Office
office = record {
  db = world.db;
  log = [];
  memberships =
      record {
        operator = 4;
        status = MembershipStatus.active;
        role = 3;
        email = "m@example.org";
        operator_active = true;
      }
      ∷ record {
        operator = 5;
        status = MembershipStatus.active;
        role = 2;
        email = "e@example.org";
        operator_active = true;
      }
      ∷ [];
}

command_steps : Office × CommandEnd
unfolding grant_comp revoke_comp override_entitlement run conclude tier_of reason_of apply_grant
    apply_revoke apply_override apply_trigger entitlement_of listing_of ensure commit move rule_for
    mutate emit_rule emit_all event_data effective_tier set_tier visibility_after tier_cause
    after_transition settled log_received log_conclude save_entitlement save_listing status_of_value
    override_to override_known mutate_override
command_steps = grant_comp strip office 7 4 "gold" "a friend" none 5

-- the manager's comp is done and then revoked; the editor's is refused
commands_run :
    let (o, end) = grant_comp strip office 7 4 "gold" "a friend" none 5 in
    let (o', end') = revoke_comp strip o 7 4 "a friend" 9 in
    (length o.db.entitlements ≡ 1)
    × (length o.log ≡ 1)
    × (length o'.log ≡ 2)
    × ((grant_comp strip office 7 5 "gold" "a friend" none 5).1 ≡ refused forbidden)
unfolding command_steps
commands_run = (refl, refl, refl, refl)

run-LoggedAs_example :
    LoggedAs office "entitlement.grant" 5
      (run office "entitlement.grant" 5 (apply_grant strip office.db 7 5 "gold" "a friend" none 5))
run-LoggedAs_example =
    run-LoggedAs office "entitlement.grant" 5
      (apply_grant strip office.db 7 5 "gold" "a friend" none 5) refl

override_entitlement-landing_example :
    (status_of_value "active" ≡ some active)
    × (active ≢ comped)
    × HasStatus
        (override_entitlement strip office 7 4 "active" "paid by cheque" "gold"
          (some 100)
          none
          5).0.db
        7
        active
unfolding command_steps
override_entitlement-landing_example =
    override_entitlement-landing strip office 7 4 "active" "paid by cheque" "gold" (some 100) none 5
      refl

comp-landing_example :
    HasStatus (grant_comp strip office 7 4 "gold" "a friend" none 9).0.db 7 comped
    × HasStatus
        (revoke_comp strip
          (grant_comp strip office 7 4 "gold" "a friend" none 5).0
          7
          4
          "a friend"
          9).0.db
        7
        expired
unfolding command_steps
comp-landing_example =
    comp-landing strip office (grant_comp strip office 7 4 "gold" "a friend" none 5).0 7 4 "gold"
      "a friend" none 9 refl refl
