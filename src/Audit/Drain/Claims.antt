-- ===== src/Audit/Drain/Claims.antt =====
-- What a claim promises (audit/worker/drain.py `_claim`, `_record`).
use osds.Prelude.{
  ℕ, ◌+◌, ◌≤◌, ◌≢◌, ◌≡◌, refl, sym, String, Bool, true, false, List, [], ◌∷◌, any, take, select,
  zero, suc, ◌==◌, inl, inr, Bool-cases, Option-cases, arith,
}
use mathlib.Core.List.{Memᴰ}
use mathlib.Core.List.Memᴰ.{cases_cons}
use mathlib.Core.Path.{subst}
use osds.Prelude.Time.{seconds}
use osds.Audit.Drain.State.{OutboxEvent, Delivery, Subscriber}
use osds.Audit.Drain.Attempt.{
  Disposition, is_claimed, record_as, attempt_delivery, subscriber_for, Fields,
}
use osds.Audit.Drain.Outcomes.{record_rows-unclaimed}
use osds.Audit.Drain.Claim.{
  claim_visibility_seconds, is_pending, is_same_line, is_earlier, is_claimable, claimed_rows, stamp,
}

Memᴰ-take : {A : Type 0} (x : A) (n : ℕ) (xs : List A) → Memᴰ x (take n xs) → Memᴰ x xs
Memᴰ-take x zero xs m = elim m [ ]
Memᴰ-take x (suc n) [] m = elim m [ ]
Memᴰ-take x (suc n) (y ∷ xs) (Memᴰ.head e) = Memᴰ.head e
Memᴰ-take x (suc n) (y ∷ xs) (Memᴰ.tail m) = Memᴰ.tail (Memᴰ-take x n xs m)

Memᴰ-select :
    {A : Type 0} (test : A → Bool) (x : A) (xs : List A) → Memᴰ x (select test xs) → test x ≡ true
Memᴰ-select test x [] m = elim m [ ]
Memᴰ-select test x (y ∷ xs) m = elim (Bool-cases (test y)) [
  | inr e ↦ Memᴰ-select test x xs (subst (Memᴰ x) (rw e refl) m)
  | inl e ↦ elim (cases_cons (subst (Memᴰ x) (rw e refl) m)) [
    | inl same ↦ rw same e
    | inr rest ↦ Memᴰ-select test x xs rest
  ]
]

==_eq : (a b : ℕ) → (a == b) ≡ true → a ≡ b
==_eq a b h = ground arith

unclaimed_any :
    (test : Delivery → Bool) (e : Delivery) (rows : List Delivery)
    → Memᴰ e rows
    → any test rows ≡ false
    → test e ≡ false
unclaimed_any test e [] m h = elim m [ ]
unclaimed_any test e (x ∷ rows) (Memᴰ.head s) h = rw s (ground arith)
unclaimed_any test e (x ∷ rows) (Memᴰ.tail m) h = unclaimed_any test e rows m (ground arith)

-- A claimed delivery is pending and due, and no pending delivery of the same adapter and subject has a
-- lower key: the deliveries of a subject reach an adapter in order.
pub claimed_rows-first :
    (rows : List Delivery) (now batch : ℕ) (row other : Delivery)
    → Memᴰ row (claimed_rows rows now batch)
    → Memᴰ other rows
    → is_pending other.status ≡ true
    → is_same_line row other ≡ true
    → (is_pending row.status ≡ true) × (row.next_attempt_at ≤ now) × (row.pk ≤ other.pk)
unfolding claimed_rows
claimed_rows-first rows now batch row other m n p s =
    let c : is_claimable rows now row ≡ true =
      Memᴰ-select (is_claimable rows now) row rows (Memᴰ-take row batch _ m) in
    let u : is_earlier row other ≡ false =
      unclaimed_any (is_earlier row) other rows n (ground arith) in
    ground arith

stamp-unclaimed :
    (d : Delivery) (pks : List ℕ) (now again : ℕ) (rows : List Delivery)
    → any (λ k. k == d.pk) pks ≡ true
    → d.next_attempt_at ≡ now + seconds claim_visibility_seconds
    → now ≢ again
    → any (is_claimed d) (stamp pks again rows) ≡ false
unfolding stamp
stamp-unclaimed d pks now again [] k e n = refl
stamp-unclaimed d pks now again (x ∷ rows) k e n = elim (Bool-cases (x.pk == d.pk)) [
  | inr other ↦ ground (arith, stamp-unclaimed d pks now again rows k e n)
  | inl same ↦
      let here : any (λ k. k == x.pk) pks ≡ true =
        subst (λ v. any (λ k. k == v) pks ≡ true) (sym (==_eq x.pk d.pk same)) k in
      rw here (ground (arith, stamp-unclaimed d pks now again rows k e n))
]

record_as-discarded :
    (d : Delivery) (now : ℕ) (f : Fields) (answer : Disposition) (rows : List Delivery)
    → any (is_claimed d) rows ≡ false
    → record_as rows d now f answer ≡ (rows, Disposition.discarded)
unfolding record_as
record_as-discarded d now f answer rows h = rw (h, record_rows-unclaimed d now f rows h) refl

-- When a delivery that was claimed at one time has been claimed again at another, the first claim's
-- attempt, whatever its handler answers, is discarded and changes nothing.
pub reclaimed-discarded :
    (fnmatch : String → String → Bool) (registry : List Subscriber) (jitter : ℕ → ℕ)
    (event : OutboxEvent) (d : Delivery) (pks : List ℕ) (rows : List Delivery) (now again late : ℕ)
    → any (λ k. k == d.pk) pks ≡ true
    → d.next_attempt_at ≡ now + seconds claim_visibility_seconds
    → now ≢ again
    → attempt_delivery fnmatch registry jitter event d (stamp pks again rows) late
      ≡ (stamp pks again rows, Disposition.discarded)
unfolding attempt_delivery
reclaimed-discarded fnmatch registry jitter event d pks rows now again late k e n =
    elim (Option-cases (subscriber_for fnmatch registry event.type d)) [
      | inl e' ↦
          rw (e', attempt_delivery)
            (record_as-discarded d late _ _ _ (stamp-unclaimed d pks now again rows k e n))
      | inr (s, e') ↦
          rw (e', attempt_delivery)
            (record_as-discarded d late _ _ _ (stamp-unclaimed d pks now again rows k e n))
    ]
