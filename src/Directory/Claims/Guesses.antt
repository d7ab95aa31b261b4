-- ===== src/Directory/Claims/Guesses.antt =====
-- How often a code can be guessed (directory/services.py): the guard of a listing and a claimant as a
-- machine of its own.
use osds.Prelude.{ℕ, suc, ◌+◌, ◌*◌, ◌≤◌, ◌<◌, ◌≡◌, refl, String, false, is_some, leb, ok, arith}
use osds.Directory.Claims.State.{Claim, Guard}
use osds.Directory.Claims.Tables.{new_guard}
use osds.Directory.Claims.Start.{StartResult, send_check, sent_guard, state_check}
use osds.Directory.Claims.Verify.{verify_check, wrong_guard}

-- The guards that wrong entries and sends lead to from `g`, with the number of the wrong entries. Any
-- claims may take part, at any times.
pub data Entries (g : Guard) : Guard → ℕ → Type 0 where
  start : {h : Guard} {n : ℕ} → h ≡ g → n ≡ 0 → Entries g h n
  wrong :
      {h k : Guard} {n m : ℕ}
      → Entries g h n
      → (c : Claim) (now : ℕ) (hash : String) → verify_check c h now ≡ ok hash
      → k ≡ wrong_guard h now
      → m ≡ suc n
      → Entries g k m
  send :
      {h k : Guard} {n : ℕ}
      → Entries g h n
      → (now : ℕ) → send_check h now ≡ StartResult.sent
      → k ≡ sent_guard h now
      → Entries g k n

-- The counters tell the number of wrong entries, and the pair is locked at the third cooldown.
pub record Counts (g : Guard) (n : ℕ) : Type 0 where
  pub counted : n ≡ g.cooldowns * 5 + g.wrong_entries
  pub below : g.wrong_entries < 5
  pub locks : is_some g.verification_locked_at ≡ leb 3 g.cooldowns
  pub few : n ≤ 15

verify_check-unlocked :
    (c : Claim) (g : Guard) (now : ℕ) {hash : String}
    → verify_check c g now ≡ ok hash
    → is_some g.verification_locked_at ≡ false
unfolding verify_check state_check
verify_check-unlocked c g now h = ground arith

wrong_guard-Counts :
    (g : Guard) (now n : ℕ)
    → is_some g.verification_locked_at ≡ false
    → Counts g n
    → Counts (wrong_guard g now) (suc n)
unfolding wrong_guard
wrong_guard-Counts g now n u c = record {
  counted = ground (arith, c.counted, c.below);
  below = ground (arith, c.below);
  locks = ground (arith, c.locks);
  few = ground (arith, c.counted, c.below, c.locks);
}

Entries-Counts : {g h : Guard} {n : ℕ} → Counts g 0 → Entries g h n → Counts h n
unfolding sent_guard
Entries-Counts c (start e z) = rw (e, z) c
Entries-Counts c (wrong run claim now hash p e m) =
    rw (e, m)
      (wrong_guard-Counts _ now _ (verify_check-unlocked claim _ now p) (Entries-Counts c run))
Entries-Counts c (send run now p e) =
    let i = Entries-Counts c run in
    rw e (record { counted = i.counted; below = i.below; locks = i.locks; few = i.few })

-- From a fresh guard, whatever claims the claimant has on the listing and however codes are sent and
-- entered, no more than fifteen wrong entries are taken, and the guard counts them: five for each
-- cooldown, and those since.
pub guesses_bounded :
    (listing claimant : ℕ) (g : Guard) (n : ℕ)
    → Entries (new_guard listing claimant) g n
    → (n ≤ 15) × (n ≡ g.cooldowns * 5 + g.wrong_entries)
guesses_bounded listing claimant g n run =
    let c =
      Entries-Counts
        (record { counted = refl; below = omega arith; locks = refl; few = omega arith }) run in
    (c.few, c.counted)
