-- ===== src/Audit/Drain/Outcomes.antt =====
-- What an attempt leaves of its row (audit/worker/drain.py `attempt_delivery`).
use osds.Prelude.{
  ◌||◌, ◌*◌, max, leb, none, Option, ℕ, ◌+◌, ◌≤◌, ◌<◌, ◌-◌, ◌^◌, min, ◌≡◌, refl, String, Bool, true,
  false, some, List, [], ◌∷◌, any, inl, inr, Option-cases, arith,
}
use mathlib.Core.List.{Memᴰ}
use osds.Prelude.Time.{seconds}
use osds.Audit.Drain.State.{
  OutboxEvent, DeliveryStatus, Delivery, HandleStatus, HandleResult, Subscriber,
}
use osds.Audit.Drain.Attempt.{
  max_attempts, backoff_cap_seconds, backoff, delay_of, Fields, Disposition, is_claimed, record_row,
  record_rows, record_as, outcome_of, attempt_delivery, subscriber_for, result_of,
}

pub backoff-le :
    (jitter : ℕ → ℕ) (n : ℕ)
    → ((b : ℕ) → jitter b ≤ seconds b)
    → backoff jitter n ≤ seconds backoff_cap_seconds
unfolding backoff
backoff-le jitter n j = omega (arith, j (min (2 ^ (n - 1)) backoff_cap_seconds))

-- what the handler came to, where the delivery still has its subscriber
abbrev pub handled : OutboxEvent → Delivery → ℕ → Option Subscriber → Option HandleResult
handled event d now none = none
handled event d now (some s) = some (result_of (s.handle event d.tenant now))

abbrev pub is_success : Option HandleResult → Bool
is_success none = false
is_success (some r) = elim r.status [
  | HandleStatus.ok ↦ true
  | HandleStatus.skipped ↦ true
  | HandleStatus.retry ↦ false
  | HandleStatus.failed ↦ false
]

-- a failure that no retry can mend
abbrev pub is_final : Option HandleResult → Bool
is_final none = true
is_final (some r) = elim r.status [
  | HandleStatus.ok ↦ false
  | HandleStatus.skipped ↦ false
  | HandleStatus.retry ↦ false
  | HandleStatus.failed ↦ r.permanent
]

-- the wait that the handler asked for
abbrev pub hint_of : Option HandleResult → ℕ
hint_of none = 0
hint_of (some r) = elim r.retry_after_ms [ none ↦ 0 | some ms ↦ ms * 1000 ]

-- the attempts that a row counts once the handler has run
abbrev pub completed_of : Option HandleResult → Delivery → Delivery → ℕ
completed_of none d row = row.attempt
completed_of (some r) d row = d.attempt + 1

-- When an attempt is answered so, with what the handler came to and the row that was `d` when it was claimed.
abbrev pub Ended : (ℕ → ℕ) → Option HandleResult → Disposition → ℕ → Delivery → Delivery → Type 0
Ended jitter r Disposition.delivered now d row =
    (is_success r ≡ true)
    × (row.status ≡ DeliveryStatus.delivered)
    × (row.delivered_at ≡ some now)
    × (row.attempt ≡ d.attempt + 1)
Ended jitter r Disposition.retried now d row =
    (is_success r ≡ false)
    × (is_final r ≡ false)
    × (row.status ≡ DeliveryStatus.pending)
    × (row.attempt ≡ d.attempt + 1)
    × (row.attempt < max_attempts)
    × (row.next_attempt_at
        ≡ now
          + min (max (backoff jitter (d.attempt + 1)) (hint_of r)) (seconds backoff_cap_seconds))
    × (backoff jitter (d.attempt + 1) ≤ seconds (2 ^ d.attempt))
Ended jitter r Disposition.dead now d row =
    (is_success r ≡ false)
    × ((is_final r || leb max_attempts (d.attempt + 1)) ≡ true)
    × (row.status ≡ DeliveryStatus.dead)
    × (row.attempt ≡ completed_of r d row)
Ended jitter r Disposition.discarded now d row = ⊥

-- A row whose claim still holds is recorded.
record_rows-Memᴰ :
    (d row : Delivery) (now : ℕ) (f : Fields) (rows : List Delivery)
    → Memᴰ row rows
    → is_claimed d row ≡ true
    → Memᴰ (record_row now f row) (record_rows rows d now f)
unfolding record_rows
record_rows-Memᴰ d row now f [] m c = elim m [ ]
record_rows-Memᴰ d row now f (x ∷ rows) (Memᴰ.head e) c = Memᴰ.head (rw (← e, c) refl)
record_rows-Memᴰ d row now f (x ∷ rows) (Memᴰ.tail m) c =
    Memᴰ.tail (record_rows-Memᴰ d row now f rows m c)

pub record_rows-unclaimed :
    (d : Delivery) (now : ℕ) (f : Fields) (rows : List Delivery)
    → any (is_claimed d) rows ≡ false
    → record_rows rows d now f ≡ rows
unfolding record_rows
record_rows-unclaimed d now f [] h = refl
record_rows-unclaimed d now f (x ∷ rows) h = ground (arith, record_rows-unclaimed d now f rows)

any-Memᴰ {ℓ} :
    {A : Type ℓ} (test : A → Bool) (x : A) (xs : List A)
    → Memᴰ x xs
    → test x ≡ true
    → any test xs ≡ true
any-Memᴰ test x [] m h = elim m [ ]
any-Memᴰ test x (y ∷ xs) (Memᴰ.head e) h = rw (← e, h) refl
any-Memᴰ test x (y ∷ xs) (Memᴰ.tail m) h = ground (arith, any-Memᴰ test x xs m h)

backoff-within :
    (jitter : ℕ → ℕ) (n : ℕ)
    → ((b : ℕ) → jitter b ≤ seconds b)
    → backoff jitter (n + 1) ≤ seconds (2 ^ n)
unfolding backoff
backoff-within jitter n j =
    let e : n + 1 - 1 ≡ n = omega arith in
    rw (backoff, e) (omega (arith, j (min (2 ^ n) backoff_cap_seconds)))

delay_of-hint :
    (jitter : ℕ → ℕ) (r : HandleResult) (n : ℕ)
    → ((b : ℕ) → jitter b ≤ seconds b)
    → delay_of jitter r n
      ≡ min (max (backoff jitter n) (hint_of (some r))) (seconds backoff_cap_seconds)
delay_of-hint jitter r n j = ground (arith, backoff-le jitter n j)

outcome_of-Ended :
    (jitter : ℕ → ℕ) (r : HandleResult) (d row : Delivery) (now : ℕ)
    → ((b : ℕ) → jitter b ≤ seconds b)
    → let (f, answer) = outcome_of jitter r (d.attempt + 1) now in
      Ended jitter (some r) answer now d (record_row now f row)
unfolding outcome_of record_row
outcome_of-Ended jitter r d row now j =
    ground (arith, delay_of-hint jitter r (d.attempt + 1) j, backoff-within jitter d.attempt j)

record_as-Recorded :
    (jitter : ℕ → ℕ) (r : Option HandleResult) (d row : Delivery) (now : ℕ) (f : Fields)
    (answer : Disposition) (rows : List Delivery)
    → Memᴰ row rows
    → is_claimed d row ≡ true
    → Ended jitter r answer now d (record_row now f row)
    → let (rows', answer') = record_as rows d now f answer in
      (row' : Delivery) × Memᴰ row' rows' × (row'.pk ≡ d.pk) × Ended jitter r answer' now d row'
unfolding record_as record_row
record_as-Recorded jitter r d row now f answer rows m c e = (
  record_row now f row,
  record_rows-Memᴰ d row now f rows m c,
  ground arith,
  rw (any-Memᴰ (is_claimed d) row rows m c) e,
)

-- An attempt of a delivery whose claim still holds leaves a row with its key that is as the answer says, and the
-- answer is what the handler came to: delivered where it succeeded or passed the event over; dead where its failure
-- is permanent, where this was the twelfth attempt, or where no subscriber is left to call; and otherwise waiting
-- for a retry, after the larger of the attempt's backoff and the wait that the handler asked for, an hour at most.
-- Each counts one more attempt but for the missing subscriber. The attempt is never discarded. The jitter of `n`
-- seconds is `n` seconds at most, so the backoff after `n` earlier attempts is 2 ^ n seconds at most.
pub attempt_delivery-Ended :
    (fnmatch : String → String → Bool) (registry : List Subscriber) (jitter : ℕ → ℕ)
    (event : OutboxEvent) (d row : Delivery) (rows : List Delivery) (now : ℕ)
    → ((b : ℕ) → jitter b ≤ seconds b)
    → Memᴰ row rows
    → is_claimed d row ≡ true
    → let (rows', answer) = attempt_delivery fnmatch registry jitter event d rows now in
      (row' : Delivery) × Memᴰ row' rows'
      × (row'.pk ≡ d.pk)
      × Ended jitter
          (handled event d now (subscriber_for fnmatch registry event.type d))
          answer
          now
          d
          row'
unfolding attempt_delivery record_row
attempt_delivery-Ended fnmatch registry jitter event d row rows now j m c =
    elim (Option-cases (subscriber_for fnmatch registry event.type d)) [
      | inl e ↦
          rw (e, attempt_delivery)
            (record_as-Recorded jitter none d row now _ _ rows m c (refl, refl, refl, refl))
      | inr (s, e) ↦
          rw (e, attempt_delivery)
            (record_as-Recorded jitter (some (result_of (s.handle event d.tenant now))) d row now _
              _ rows m c
              (outcome_of-Ended jitter (result_of (s.handle event d.tenant now)) d row now j))
    ]
