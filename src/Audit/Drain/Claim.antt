-- ===== src/Audit/Drain/Claim.antt =====
-- The claim of due deliveries (audit/worker/drain.py `_claim`): the first pending one of each adapter and
-- subject, if it is due. No other transaction holds a row's lock.
use osds.Prelude.{
  ℕ, ◌+◌, Bool, true, false, not, ◌&&◌, List, [], ◌∷◌, map, take, select, any, ◌==◌, leb, ltb,
  if◌then◌else◌,
}
use osds.Prelude.Time.{seconds}
use text.Mathlib.Text.{◌==◌ as str_eq}
use osds.Audit.Drain.State.{DeliveryStatus, Delivery}

abbrev pub claim_visibility_seconds : ℕ
claim_visibility_seconds = 90

abbrev pub is_pending : DeliveryStatus → Bool
is_pending DeliveryStatus.pending = true
is_pending _ = false

-- the same adapter and subject
abbrev pub is_same_line : Delivery → Delivery → Bool
is_same_line row other = str_eq other.adapter_id row.adapter_id && other.subject == row.subject

-- `earlier_pending`
abbrev pub is_earlier : Delivery → Delivery → Bool
is_earlier row other = is_same_line row other && (is_pending other.status && ltb other.pk row.pk)

abbrev pub is_claimable : List Delivery → ℕ → Delivery → Bool
is_claimable rows now row =
    (is_pending row.status && leb row.next_attempt_at now) && not (any (is_earlier row) rows)

unfoldable pub claimed_rows : List Delivery → ℕ → ℕ → List Delivery
claimed_rows rows now batch = take batch (select (is_claimable rows now) rows)

abbrev pub pk_of : Delivery → ℕ
pk_of row = row.pk

-- the update of the claimed rows
unfoldable pub stamp : List ℕ → ℕ → List Delivery → List Delivery
stamp pks now [] = []
stamp pks now (row ∷ rows) =
    (if any (λ k. k == row.pk) pks
      then record row { next_attempt_at = now + seconds claim_visibility_seconds }
      else row)
    ∷ stamp pks now rows

-- `_claim`: the table, and the keys of the claimed rows
unfoldable pub claim : List Delivery → ℕ → ℕ → List Delivery × List ℕ
claim rows now batch =
    let pks = map pk_of (claimed_rows rows now batch) in (stamp pks now rows, pks)
