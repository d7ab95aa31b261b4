-- ===== src/Billing/Entitlements/Totality.antt =====
-- Which errors a move raises (billing/entitlements.py): never that of a fact that was not set.
use osds.Prelude.{
  Option-cases, ◌>>=◌, ℕ, ◌≡◌, true, Option, none, some, List, String, Result, ok, err, is_ok,
  Result-cases, inl, inr, arith,
}
use osds.Billing.Model.{Status, trialing, Entitlement, Tier, Listing, Trigger, start, override}
use osds.Billing.Machine.{Rule, Error, key_error, rule_for}
use osds.Billing.Machine.Table.{
  rule_for-err, emitted, landing, legal, rule_events, rule_to, legal_of_rule,
}
use osds.Billing.Entitlements.Fields.{Params, Facts}
use osds.Billing.Entitlements.Override.{override_known, mutate_override, status_of_value}
use osds.Billing.Entitlements.Mutate.{mutate, with_status}
use osds.Billing.Entitlements.Overridden.{override-Overridden}
use osds.Billing.Entitlements.Emit.{event_data, emit_all}
use osds.Billing.Entitlements.Apply.{Call, emit_rule, move}

-- The facts that the events of a legal move read are set.
pub emit_rule-ok :
    (tiers : List Tier) (c : Call) (t : Trigger) (p : Params) (ent : Entitlement) (rule : Rule)
    (listing : Listing) (m : Entitlement × Facts)
    → rule.events ≡ emitted ent.status t
    → rule.to ≡ landing ent.status t
    → legal ent.status t ≡ true
    → mutate t ent rule c.now p ≡ ok m
    → is_ok (emit_rule tiers c rule p ent.status m listing) ≡ true
unfolding mutate emit_rule emit_all event_data emitted landing
emit_rule-ok tiers c start p ent rule listing m e r l h = ground arith
emit_rule-ok tiers c override p ent rule listing m e r l h =
    let o = override-Overridden ent rule c.now p h in ground (arith, o.by_operator, o.with_reason)
emit_rule-ok tiers c t p ent rule listing m e r l h = ground arith

override_known-ne-key_error :
    (to : Option Status) (v : String) (ent : Entitlement) (now : ℕ) (p : Params) (k : String)
    → ¬ (override_known to v ent now p ≡ err (key_error k))
unfolding override_known
override_known-ne-key_error none v ent now p k h = ground arith
override_known-ne-key_error (some trialing) v ent now p k h = ground arith
override_known-ne-key_error (some to) v ent now p k h = ground arith

override-ne-key_error :
    (ent : Entitlement) (now : ℕ) (p : Params) (k : String)
    → ¬ (mutate_override ent now p ≡ err (key_error k))
unfolding mutate_override
override-ne-key_error ent now p k h = elim (Option-cases p.to_status) [
  | inl e ↦ ground arith
  | inr (v, e) ↦ ground (arith, override_known-ne-key_error (status_of_value v) v ent now p k)
]

wrapped_err :
    (r : Result Error (Entitlement × Facts)) {e : Error}
    → (r >>= λ x. ok (with_status x)) ≡ err e
    → r ≡ err e
wrapped_err (ok (e, f)) h = cc
wrapped_err (err e) h = ground arith

mutate-ne-key_error :
    (t : Trigger) (ent : Entitlement) (rule : Rule) (now : ℕ) (p : Params) (k : String)
    → ¬ (mutate t ent rule now p ≡ err (key_error k))
unfolding mutate
mutate-ne-key_error start ent rule now p k h = ground arith
mutate-ne-key_error override ent rule now p k h =
    override-ne-key_error ent now p k (wrapped_err (mutate_override ent now p) h)
mutate-ne-key_error t ent rule now p k h = ground arith

-- A move raises a refusal of the table, of the clock or of the parameters, never that of a missing
-- fact: `move` with the error `key_error`.
pub move-ne-key_error :
    (tiers : List Tier) (c : Call) (t : Trigger) (p : Params) (ent : Entitlement)
    (listing : Listing) (k : String)
    → ¬ (move tiers c t p ent listing ≡ err (key_error k))
unfolding move
move-ne-key_error tiers c t p ent listing k h = elim (Result-cases (rule_for ent.status t)) [
  | inr (e, no_rule) ↦ ground (arith, rule_for-err ent.status t no_rule)
  | inl (rule, ruled) ↦ elim (Result-cases (mutate t ent rule c.now p)) [
    | inr (e, fails) ↦ ground (arith, mutate-ne-key_error t ent rule c.now p k)
    | inl (m, mutates) ↦ ground (
      arith,
      emit_rule-ok tiers c t p ent rule listing m (rule_events _ _ ruled) (rule_to _ _ ruled)
          (legal_of_rule _ _ ruled) mutates,
    )
  ]
]
