-- ===== src/Audit/RateLimit.antt =====
-- The fixed-window rate limits (audit/ratelimit.py). The keyed hash (Django's `salted_hmac`) and
-- `ip_bucket` (osds/client_ip.py, on Python's `ipaddress`) are parameters; the counters are one
-- tenant's.
pub mod Windows
use Prim.Native.String.{◌++◌ as append}
use osds.Prelude.{
  ℕ, ◌+◌, ◌-◌, ◌*◌, ◌/◌, max, String, Bool, true, false, ◌&&◌, ◌||◌, Option, none, some, List, [],
  ◌∷◌, ◌==◌, ltb, if◌then◌else◌,
}
use osds.Prelude.Time.{second}
use text.Mathlib.Text.{◌==◌ as str_eq}

-- `Rule`, with its window in microseconds
pub record Rule : Type 0 where
  pub name : String
  pub limit : ℕ
  pub window : ℕ

pub record Verdict : Type 0 where
  pub allowed : Bool
  pub rule : Option String
  pub retry_after : ℕ
  pub first_block : Bool

-- `Check`: the kind, the raw value ("" for none) and the rules
pub record Check : Type 0 where
  pub kind : String
  pub value : String
  pub rules : List Rule

-- `RateLimitCounter`
pub record Counter : Type 0 where
  pub rule : String
  pub subject_hash : String
  pub window_start : ℕ
  pub count : ℕ

-- What the hashes are made with: the tenant's public id, the keyed hash, and the bucket of an address.
pub record Hashing : Type 0 where
  pub tenant : String
  pub hmac : String → String
  pub ip_bucket : String → String

-- `subject_hash`
abbrev pub subject_hash : Hashing → String → String → String
subject_hash h kind value =
    let v = if str_eq kind "ip" then h.ip_bucket value else value in
    h.hmac (append h.tenant (append "\0" (append kind (append "\0" v))))

-- 1970-01-01, from which `timestamp` counts
abbrev pub epoch : ℕ
epoch = 62135596800000000

-- `_window_start`, for a time from the epoch on
unfoldable pub window_start : ℕ → ℕ → ℕ
window_start now window =
    let seconds = window / second in
    epoch + ((((now - epoch) / second) / seconds) * seconds) * second

abbrev pub is_counter : String → String → ℕ → Counter → Bool
is_counter name digest start c =
    str_eq c.rule name && (str_eq c.subject_hash digest && c.window_start == start)

-- the count of a key, 0 where it has no row
unfoldable pub count_of : String → String → ℕ → List Counter → ℕ
count_of name digest start [] = 0
count_of name digest start (c ∷ counters) =
    if is_counter name digest start c then c.count else count_of name digest start counters

-- `_UPSERT`
unfoldable pub upsert : String → String → ℕ → List Counter → List Counter
upsert name digest start [] =
    record { rule = name; subject_hash = digest; window_start = start; count = 1 } ∷ []
upsert name digest start (c ∷ counters) =
    let rest = upsert name digest start counters in
    if is_counter name digest start c then record c { count = c.count + 1 } ∷ counters else c ∷ rest

-- `_hit`: the counters, the count that `RETURNING` gives, and the window's end
unfoldable pub hit : Rule → String → ℕ → List Counter → List Counter × ℕ × ℕ
hit rule digest now counters =
    let start = window_start now rule.window in
    let after = upsert rule.name digest start counters in
    (after, count_of rule.name digest start after, start + rule.window)

-- `ceil` of a time in seconds
abbrev ceil_seconds : ℕ → ℕ
ceil_seconds t = (t + (second - 1)) / second

abbrev block : Rule → ℕ → ℕ → ℕ → Verdict
block rule count ends now = record {
  allowed = false;
  rule = some rule.name;
  retry_after = max 1 (ceil_seconds (ends - now));
  first_block = count == rule.limit + 1;
}

abbrev pub allow : Verdict
allow = record { allowed = true; rule = none; retry_after = 0; first_block = false }

-- the inner loop of `check`: null where no rule blocks
unfoldable pub check_rules : List Rule → String → ℕ → List Counter → List Counter × Option Verdict
unfolding hit
check_rules [] digest now counters = (counters, none)
check_rules (rule ∷ rules) digest now counters =
    let (after, count, ends) = hit rule digest now counters in
    let rest = check_rules rules digest now after in
    if ltb rule.limit count then (after, some (block rule count ends now)) else rest

-- the groups that `check` passes over
abbrev pub is_skipped : Hashing → Check → Bool
is_skipped h c = str_eq c.value "" || (str_eq c.kind "ip" && str_eq (h.ip_bucket c.value) "")

-- one group of `check`
unfoldable pub check_group : Hashing → Check → ℕ → List Counter → List Counter × Option Verdict
unfolding check_rules
check_group h c now counters =
    if is_skipped h c
    then (counters, none)
    else check_rules c.rules (subject_hash h c.kind c.value) now counters

-- `check`
unfoldable pub check : Hashing → List Check → ℕ → List Counter → List Counter × Verdict
check h [] now counters = (counters, allow)
check h (c ∷ checks) now counters =
    let (after, verdict) = check_group h c now counters in
    let rest = check h checks now after in elim verdict [ none ↦ rest | some v ↦ (after, v) ]
