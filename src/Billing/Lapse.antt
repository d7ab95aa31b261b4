-- ===== src/Billing/Lapse.antt =====
-- What becomes of an entitlement that nobody pays for (billing/jobs.py over billing/entitlements.py).
use osds.Prelude.{ℕ, ◌≡◌, ◌≤◌, ◌+◌, none, some, List, ok, arith}
use osds.Billing.Model.{
  Status, trialing, past_due, grace, expired, Entitlement, Tier, Listing, dunning_elapsed,
  grace_elapsed, trial_overdue,
}
use osds.Billing.Events.{Event}
use osds.Billing.Machine.{Rule, is_due, dunning_window, grace_window, trial_overdue_window}
use osds.Billing.Entitlements.Fields.{Params, Facts, no_params}
use osds.Billing.Entitlements.Mutate.{mutate}
use osds.Billing.Entitlements.Display.{visibility_after}
use osds.Billing.Entitlements.Apply.{Call, settled, move}
use osds.Billing.Entitlements.Moves.{move-Steps}
use osds.Billing.Jobs.{chunk, is_due_row, trigger_for, tick, entitlement_transitions}
use osds.Billing.Entitlements.Database.{Db, entitlement_of}
use osds.Billing.Entitlements.Saved.{HasStatus}
use osds.Billing.Passes.{Consistent, Moves, due_count, entitlement_transitions-Moves}

settled-fields :
    (tiers : List Tier) (c : Call) (rule : Rule) (prior : Status) (ent : Entitlement)
    (listing : Listing) (evs : List Event)
    → let e = (settled tiers c rule prior ent listing evs).ent in
      (e.status ≡ ent.status)
      × (e.dunning_ends_at ≡ ent.dunning_ends_at)
      × (e.grace_ends_at ≡ ent.grace_ends_at)
unfolding settled visibility_after
settled-fields tiers c rule prior ent listing evs = ground arith

overdue_fields :
    (ent : Entitlement) (rule : Rule) (now : ℕ) (p : Params) {m : Entitlement × Facts}
    → ent.status ≡ trialing
    → mutate trial_overdue ent rule now p ≡ ok m
    → (m.0.status ≡ past_due) × (m.0.dunning_ends_at ≡ some (now + dunning_window))
unfolding mutate
overdue_fields ent rule now p s h = ground arith

downgraded_fields :
    (ent : Entitlement) (rule : Rule) (now : ℕ) (p : Params) {m : Entitlement × Facts}
    → mutate dunning_elapsed ent rule now p ≡ ok m
    → (m.0.status ≡ grace) × (m.0.grace_ends_at ≡ some (now + grace_window))
unfolding mutate
downgraded_fields ent rule now p h = ground arith

expired_fields :
    (ent : Entitlement) (rule : Rule) (now : ℕ) (p : Params) {m : Entitlement × Facts}
    → mutate grace_elapsed ent rule now p ≡ ok m
    → m.0.status ≡ expired
unfolding mutate
expired_fields ent rule now p h = ground arith

overdue_move :
    (now : ℕ) (r e : Entitlement) (ends : ℕ)
    → Moves now r e
    → r.status ≡ trialing
    → r.trial_ends_at ≡ some ends
    → ends + trial_overdue_window ≤ now
    → (e.status ≡ past_due) × (e.dunning_ends_at ≡ some (now + dunning_window))
overdue_move now r e ends m s t h =
    let first : trigger_for r now ≡ some trial_overdue =
      unfold trigger_for is_due in ground arith in
    let same : m.trigger ≡ trial_overdue = cc (m.found, first) in
    let moves : move m.tiers (tick now) trial_overdue no_params r m.listing ≡ ok m.result =
      rw same at m.moves in
    let st = move-Steps m.tiers (tick now) trial_overdue no_params r m.listing moves in
    ground (
      arith,
      m.leaves,
      st.leaves,
      overdue_fields r st.rule now no_params s st.mutates,
      settled-fields m.tiers (tick now) st.rule r.status st.mutated.0 m.listing st.events,
    )

downgraded_move :
    (now : ℕ) (r e : Entitlement) (ends : ℕ)
    → Moves now r e
    → r.status ≡ past_due
    → r.dunning_ends_at ≡ some ends
    → ends ≤ now
    → (e.status ≡ grace) × (e.grace_ends_at ≡ some (now + grace_window))
downgraded_move now r e ends m s t h =
    let first : trigger_for r now ≡ some dunning_elapsed =
      unfold trigger_for is_due in ground arith in
    let same : m.trigger ≡ dunning_elapsed = cc (m.found, first) in
    let moves : move m.tiers (tick now) dunning_elapsed no_params r m.listing ≡ ok m.result =
      rw same at m.moves in
    let st = move-Steps m.tiers (tick now) dunning_elapsed no_params r m.listing moves in
    ground (
      arith,
      m.leaves,
      st.leaves,
      downgraded_fields r st.rule now no_params st.mutates,
      settled-fields m.tiers (tick now) st.rule r.status st.mutated.0 m.listing st.events,
    )

expired_move :
    (now : ℕ) (r e : Entitlement) (ends : ℕ)
    → Moves now r e
    → r.status ≡ grace
    → r.grace_ends_at ≡ some ends
    → ends ≤ now
    → e.status ≡ expired
expired_move now r e ends m s t h =
    let first : trigger_for r now ≡ some grace_elapsed =
      unfold trigger_for is_due in ground arith in
    let same : m.trigger ≡ grace_elapsed = cc (m.found, first) in
    let moves : move m.tiers (tick now) grace_elapsed no_params r m.listing ≡ ok m.result =
      rw same at m.moves in
    let st = move-Steps m.tiers (tick now) grace_elapsed no_params r m.listing moves in
    ground (
      arith,
      m.leaves,
      st.leaves,
      expired_fields r st.rule now no_params st.mutates,
      settled-fields m.tiers (tick now) st.rule r.status st.mutated.0 m.listing st.events,
    )

-- The entitlement of a listing that is on trial, with no payment report, is past due after a pass of the worker three
-- days or more past the trial's end, in grace after a pass 14 days or more later, and expired after one 30 days or
-- more later. No pass ends by an exception. The entitlements' keys and listings are unique, their listings are in the
-- table, and none of the passes finds more than 200 rows due.
pub pass-lapses :
    (db : Db) (l : ℕ) (r : Entitlement) (ends now now' now'' : ℕ)
    → Consistent db
    → entitlement_of db l ≡ some r
    → r.status ≡ trialing
    → r.trial_ends_at ≡ some ends
    → ends + trial_overdue_window ≤ now
    → now + dunning_window ≤ now'
    → now' + grace_window ≤ now''
    → due_count now db ≤ chunk
    → due_count now' (entitlement_transitions db now).db ≤ chunk
    → due_count now'' (entitlement_transitions (entitlement_transitions db now).db now').db ≤ chunk
    → let overdue = entitlement_transitions db now in
      let downgraded = entitlement_transitions overdue.db now' in
      let lapsed = entitlement_transitions downgraded.db now'' in
      (HasStatus overdue.db l past_due × (overdue.error ≡ none))
      × (HasStatus downgraded.db l grace × (downgraded.error ≡ none))
      × (HasStatus lapsed.db l expired × (lapsed.error ≡ none))
pass-lapses db l r ends now now' now'' k f s t h h' h'' few few' few'' =
    let (k1, fine1, e1, m1, f1) =
      entitlement_transitions-Moves db now l r k (omega arith) few f
        (unfold is_due_row in ground arith) in
    let a = overdue_move now r e1 ends m1 s t h in
    let (k2, fine2, e2, m2, f2) =
      entitlement_transitions-Moves (entitlement_transitions db now).db now' l e1 k1 (omega arith)
        few' f1 (unfold is_due_row in ground arith) in
    let b = downgraded_move now' e1 e2 (now + dunning_window) m2 a.0 a.1 h' in
    let (k3, fine3, e3, m3, f3) =
      entitlement_transitions-Moves
        (entitlement_transitions (entitlement_transitions db now).db now').db now'' l e2 k2
        (omega arith) few'' f2 (unfold is_due_row in ground arith) in
    let c = expired_move now'' e2 e3 (now' + grace_window) m3 b.0 b.1 h'' in
    (((e1, f1, a.0), fine1), ((e2, f2, b.0), fine2), ((e3, f3, c), fine3))
