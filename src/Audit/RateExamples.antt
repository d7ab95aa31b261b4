-- ===== src/Audit/RateExamples.antt =====
-- Tests of the rate limits on a concrete rule, and instances of their theorems.
use osds.Prelude.{◌≡◌, refl, true, false, [], ◌∷◌, ℕ}
use osds.Prelude.Time.{seconds}
use osds.Audit.RateLimit.{
  Rule, Check, Hashing, window_start, count_of, upsert, hit, check_rules, check_group, check,
}
use osds.Audit.RateLimit.Windows.{one, check_all, window_limit, check_short_circuit}

abbrev hashing : Hashing
hashing = record { tenant = "t"; hmac = λ text. text; ip_bucket = λ ip. ip }

-- two hits a minute
abbrev two : Rule
two = record { name = "claim.ip"; limit = 2; window = seconds 60 }

rate_steps : ℕ
unfolding check check_all check_group check_rules hit upsert count_of window_start
rate_steps = window_start 62135596861000000 (seconds 60)

-- two pass, the third is the first block, and waits for what is left of the minute
third_blocked :
    let earlier =
      check_all hashing "ip" "10.0.0.1" two (62135596861000000 ∷ 62135596862000000 ∷ []) [] in
    let verdict = (check hashing (one "ip" "10.0.0.1" two) 62135596863000000 earlier).1 in
    (verdict.allowed ≡ false) × (verdict.first_block ≡ true) × (verdict.retry_after ≡ 57)
unfolding rate_steps
third_blocked = (refl, refl, refl)

window_limit_example :
    let earlier =
      check_all hashing "ip" "10.0.0.1" two (62135596861000000 ∷ 62135596862000000 ∷ []) [] in
    let verdict = (check hashing (one "ip" "10.0.0.1" two) 62135596863000000 earlier).1 in
    (verdict.allowed ≡ false) × (verdict.first_block ≡ true)
unfolding rate_steps
window_limit_example =
    window_limit hashing "ip" "10.0.0.1" two (62135596861000000 ∷ 62135596862000000 ∷ [])
      62135596863000000 [] refl refl refl

abbrev strict : Check
strict = record { kind = "ip"; value = "10.0.0.1"; rules = record two { limit = 0 } ∷ [] }

abbrev by_email : Check
by_email = record { kind = "email"; value = "a@example.org"; rules = two ∷ [] }

check_short_circuit_example :
    check hashing (strict ∷ by_email ∷ []) 62135596861000000 []
    ≡ check hashing (strict ∷ []) 62135596861000000 []
unfolding rate_steps
check_short_circuit_example =
    check_short_circuit hashing (strict ∷ []) (by_email ∷ []) 62135596861000000 [] refl
