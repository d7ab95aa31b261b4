-- ===== src/Billing/Entitlements/Overridden.antt =====
-- A successful override (billing/entitlements.py `_mutate`), taken apart.
use osds.Prelude.{
  ℕ, ◌≡◌, refl, true, some, String, is_some, Result, ok, err, ◌>>=◌, Option-cases, inl, inr, arith,
}
use osds.Billing.Model.{Status, trialing, Entitlement, override}
use osds.Billing.Machine.{Rule, Error}
use osds.Billing.Entitlements.Fields.{Params, Facts}
use osds.Billing.Entitlements.Override.{status_of_value, override_known, mutate_override}
use osds.Billing.Entitlements.Mutate.{mutate, with_status}

pub record Overridden (ent : Entitlement) (now : ℕ) (p : Params) (e : Entitlement) : Type 0 where
  pub value : String
  pub to : Status
  pub facts : Facts
  pub by_operator : is_some p.operator ≡ true
  pub with_reason : is_some p.reason ≡ true
  pub named : p.to_status ≡ some value
  pub known : status_of_value value ≡ some to
  pub mutates : override_known (some to) value ent now p ≡ ok (e, facts)
  pub lands : e.status ≡ to

override_known-status :
    (to : Status) (v : String) (ent : Entitlement) (now : ℕ) (p : Params) {m : Entitlement × Facts}
    → override_known (some to) v ent now p ≡ ok m
    → m.0.status ≡ to
unfolding override_known
override_known-status trialing v ent now p h = ground arith
override_known-status to v ent now p h = ground arith

mutate_override-Overridden :
    (ent : Entitlement) (now : ℕ) (p : Params) {m : Entitlement × Facts}
    → mutate_override ent now p ≡ ok m
    → Overridden ent now p m.0
unfolding mutate_override
mutate_override-Overridden ent now p {m} h = elim (Option-cases p.to_status) [
  | inl e ↦ absurd (ground arith)
  | inr (v, e) ↦ elim (Option-cases (status_of_value v)) [
    | inl u ↦ absurd (ground arith)
    | inr (to, u) ↦
        let k : override_known (some to) v ent now p ≡ ok (m.0, m.1) = ground arith in
        record {
          value = v;
          to = to;
          facts = m.1;
          by_operator = ground arith;
          with_reason = ground arith;
          named = e;
          known = u;
          mutates = k;
          lands = override_known-status to v ent now p k;
        }
  ]
]

unwrap_status :
    (r : Result Error (Entitlement × Facts)) {m : Entitlement × Facts}
    → (r >>= λ x. ok (with_status x)) ≡ ok m
    → (m' : Entitlement × Facts) × (r ≡ ok m') × (m.0 ≡ m'.0)
unwrap_status (ok (e, f)) h = ((e, f), refl, ground arith)
unwrap_status (err e) h = cc

pub override-Overridden :
    (ent : Entitlement) (rule : Rule) (now : ℕ) (p : Params) {m : Entitlement × Facts}
    → mutate override ent rule now p ≡ ok m
    → Overridden ent now p m.0
unfolding mutate
override-Overridden ent rule now p h =
    let (m', e, same) = unwrap_status (mutate_override ent now p) h in
    rw same (mutate_override-Overridden ent now p e)
