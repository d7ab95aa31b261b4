-- ===== src/Audit/RateLimit/Windows.antt =====
-- How many hits a window lets through (audit/ratelimit.py `check`).
use osds.Prelude.{
  ◌++◌, ℕ, ◌+◌, ◌≡◌, refl, ◌∙◌, ap, String, Bool, true, false, List, [], ◌∷◌, length, all, ◌==◌,
  ltb, arith, inl, inr, Option-cases,
}
use osds.Audit.RateLimit.{
  Rule, Check, Counter, Hashing, subject_hash, window_start, count_of, upsert, hit, check_rules,
  check_group, check, is_skipped,
}
use mathlib.Core.Path.{subst}
use text.Mathlib.TextPositions.{eq_refl}

upsert-count_of :
    (name digest : String) (start : ℕ) (counters : List Counter)
    → count_of name digest start (upsert name digest start counters)
      ≡ count_of name digest start counters + 1
unfolding upsert count_of
upsert-count_of name digest start [] = rw (eq_refl name, eq_refl digest) (ground arith)
upsert-count_of name digest start (c ∷ counters) =
    ground (arith, upsert-count_of name digest start counters)

-- one check against one rule
abbrev pub one : String → String → Rule → List Check
one kind value rule = record { kind = kind; value = value; rules = rule ∷ [] } ∷ []

check-one :
    (h : Hashing) (kind value : String) (rule : Rule) (now : ℕ) (counters : List Counter)
    → is_skipped h (record { kind = kind; value = value; rules = rule ∷ [] }) ≡ false
    → let digest = subject_hash h kind value in
      let start = window_start now rule.window in
      let (after, verdict) = check h (one kind value rule) now counters in
      let before = count_of rule.name digest start counters in
      (count_of rule.name digest start after ≡ before + 1)
      × (verdict.allowed ≡ ltb before rule.limit)
      × (verdict.first_block ≡ (before == rule.limit))
unfolding check check_group check_rules hit
check-one h kind value rule now counters s = ground (
  arith,
  upsert-count_of rule.name (subject_hash h kind value) (window_start now rule.window) counters,
)

-- the counters after checks at several times
unfoldable pub check_all : Hashing → String → String → Rule → List ℕ → List Counter → List Counter
check_all h kind value rule [] counters = counters
check_all h kind value rule (t ∷ times) counters =
    check_all h kind value rule times (check h (one kind value rule) t counters).0

abbrev pub is_in_window : Rule → ℕ → ℕ → Bool
is_in_window rule start t = window_start t rule.window == start

check_all-count_of :
    (h : Hashing) (kind value : String) (rule : Rule) (start : ℕ) (times : List ℕ)
    (counters : List Counter)
    → is_skipped h (record { kind = kind; value = value; rules = rule ∷ [] }) ≡ false
    → all (is_in_window rule start) times ≡ true
    → count_of rule.name
        (subject_hash h kind value)
        start
        (check_all h kind value rule times counters)
      ≡ count_of rule.name (subject_hash h kind value) start counters + length times
unfolding check_all
check_all-count_of h kind value rule start [] counters s w = omega arith
check_all-count_of h kind value rule start (t ∷ times) counters s w =
    let after = (check h (one kind value rule) t counters).0 in
    let here : window_start t rule.window ≡ start = ground arith in
    let counted : count_of rule.name (subject_hash h kind value) start after
        ≡ count_of rule.name (subject_hash h kind value) start counters + 1 =
      subst
        (λ x.
          count_of rule.name (subject_hash h kind value) x after
          ≡ count_of rule.name (subject_hash h kind value) x counters + 1)
        here (check-one h kind value rule t counters s).0 in
    let rest = check_all-count_of h kind value rule start times after s (ground arith) in
    omega (arith, counted, rest)

-- A window lets through as many hits as the rule's limit and no more, and its first block is the hit
-- after those: after earlier checks of the same subject against the same single rule in the same
-- window, none of which was counted before, a check is allowed if they were fewer than the limit,
-- and is the first block if they were as many. The subject is one that is not passed over.
pub window_limit :
    (h : Hashing) (kind value : String) (rule : Rule) (times : List ℕ) (now : ℕ)
    (counters : List Counter)
    → is_skipped h (record { kind = kind; value = value; rules = rule ∷ [] }) ≡ false
    → all (is_in_window rule (window_start now rule.window)) times ≡ true
    → count_of rule.name (subject_hash h kind value) (window_start now rule.window) counters ≡ 0
    → let earlier = check_all h kind value rule times counters in
      let verdict = (check h (one kind value rule) now earlier).1 in
      (verdict.allowed ≡ ltb (length times) rule.limit)
      × (verdict.first_block ≡ (length times == rule.limit))
window_limit h kind value rule times now counters s w z =
    let earlier = check_all h kind value rule times counters in
    let c = check-one h kind value rule now earlier s in
    let n : count_of rule.name (subject_hash h kind value) (window_start now rule.window) earlier
        ≡ length times =
      omega (
        arith,
        z,
        check_all-count_of h kind value rule (window_start now rule.window) times counters s w,
      ) in
    (c.1 ∙ ap (λ x. ltb x rule.limit) n, c.2 ∙ ap (λ x. x == rule.limit) n)

-- Once a group blocks, the check is over: if a list of groups is refused, it is refused in the same
-- way, with the same counters, with any groups behind it.
pub check_short_circuit :
    (h : Hashing) (checks more : List Check) (now : ℕ) (counters : List Counter)
    → (check h checks now counters).1.allowed ≡ false
    → check h (checks ++ more) now counters ≡ check h checks now counters
unfolding check
check_short_circuit h [] more now counters b = absurd (ground arith)
check_short_circuit h (c ∷ checks) more now counters b =
    elim (Option-cases (check_group h c now counters).1) [
      | inr (v, e) ↦ rw (e, check) refl
      | inl e ↦
          rw (e, check)
            (check_short_circuit h checks more now (check_group h c now counters).0 (ground arith))
    ]
