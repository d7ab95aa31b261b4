-- ===== src/Directory/SignIn/Request.antt =====
-- The request of a link (directory/owner_auth.py `request_sign_in`, directory/owner_limits.py).
use osds.Prelude.{
  ℕ, ◌+◌, String, Bool, false, not, ◌&&◌, Option, none, some, List, [], ◌∷◌, ◌++◌, find, select,
  length, ◌==◌, leb, ltb, is_none, if◌then◌else◌,
}
use osds.Prelude.Time.{seconds, minutes, hours}
use text.Mathlib.Text.{◌==◌ as str_eq}
use osds.Audit.Actor.{Actor, visitor}
use osds.Audit.CommandLog.{
  Log, applied, rejected, blocked, reason, rate_limited, log_received, log_conclude,
}
use osds.Audit.MailDrain.{OutboundMessage}
use osds.Audit.RateLimit.{Rule, Check, check}
use osds.Billing.Model.{Owner}
use osds.Directory.Claims.State.{User, signin_link}
use osds.Directory.Claims.Tables.{enqueue, expire_message}
use osds.Directory.SignIn.State.{
  Door, Porch, SignInToken, max_links_per_hour, min_seconds_between_links, owns_a_listing,
  sign_in_available, signin_ttl,
}

abbrev pub is_token_of : ℕ → SignInToken → Bool
is_token_of user t = t.user == user

abbrev later_of : ℕ → Option ℕ → ℕ
later_of t none = t
later_of t (some u) = if leb u t then t else u

-- when the newest of these tokens was created
unfoldable pub newest : List SignInToken → Option ℕ
newest [] = none
newest (t ∷ tokens) = some (later_of t.created_at (newest tokens))

abbrev is_sooner : ℕ → ℕ → Option ℕ → Bool
is_sooner now gap none = false
is_sooner now gap (some t) = ltb now (t + gap)

abbrev is_within_hour : ℕ → SignInToken → Bool
is_within_hour now t = ltb now (t.created_at + hours 1)

-- `_throttled`
unfoldable pub throttled : List SignInToken → ℕ → ℕ → Option String
unfolding newest
throttled tokens user now =
    let own = select (is_token_of user) tokens in
    if is_sooner now (seconds min_seconds_between_links) (newest own)
    then some "too_soon"
    else if leb max_links_per_hour (length (select (is_within_hour now) own))
    then some "hourly_cap"
    else none

-- the links that a new one supersedes
abbrev pub is_live : ℕ → SignInToken → Bool
is_live now t = is_none t.used_at && ltb now t.expires_at

abbrev is_superseded : ℕ → ℕ → SignInToken → Bool
is_superseded user now t = is_token_of user t && is_live now t

unfoldable pub supersede_tokens : ℕ → ℕ → List SignInToken → List SignInToken
supersede_tokens user now [] = []
supersede_tokens user now (t ∷ tokens) =
    (if is_superseded user now t then record t { expires_at = now } else t)
    ∷ supersede_tokens user now tokens

-- `_expire_pending_message`
abbrev expire_mail : Option ℕ → ℕ → List OutboundMessage → List OutboundMessage
expire_mail none now messages = messages
expire_mail (some pk) now messages = expire_message pk now messages

unfoldable pub expire_mails : ℕ → ℕ → List SignInToken → List OutboundMessage → List OutboundMessage
unfolding expire_message
expire_mails user now [] messages = messages
expire_mails user now (t ∷ tokens) messages =
    expire_mails user now tokens
      (if is_superseded user now t then expire_mail t.message now messages else messages)

abbrev has_email : String → User → Bool
has_email address u = str_eq u.owner.email address

abbrev pub user_of : List User → String → Option User
user_of users address = if str_eq address "" then none else find (has_email address) users

-- what comes of a request, with the reason for the log
pub data Requested : Type 0 where
  sent unavailable : Requested
  ignored : String → Requested

-- the writes of a request that is granted
unfoldable pub send_link : Porch → String → Owner → ℕ → Door → Door
unfolding supersede_tokens expire_mails enqueue
send_link p secret user now d =
    let expires_at = now + signin_ttl in
    let messages = expire_mails user.pk now d.tokens d.messages in
    record d {
      messages =
          enqueue p.site messages "owner.signin_link" user.email (signin_link secret expires_at)
            expires_at now;
      tokens =
          supersede_tokens user.pk now d.tokens
          ++ record {
            pk = length d.tokens;
            user = user.pk;
            token_hash = p.digest secret;
            created_at = now;
            expires_at = expires_at;
            used_at = none;
            message = some (length messages);
          }
            ∷ [];
    }

-- `_apply_request`, for the user that the address names
unfoldable pub request_for : Porch → String → Option User → ℕ → Door → Door × Requested
unfolding throttled send_link
request_for p secret none now d = (d, ignored "not_an_owner")
request_for p secret (some u) now d =
    if not (owns_a_listing d.listings u.owner.pk)
    then (d, ignored "not_an_owner")
    else elim (throttled d.tokens u.owner.pk now) [
      | some why ↦ (d, ignored why)
      | none ↦ (send_link p secret u.owner now d, sent)
    ]

-- `_apply_request`
unfoldable pub apply_request : Porch → String → String → ℕ → Door → Door × Requested
unfolding request_for
apply_request p secret address now d =
    if not (sign_in_available p)
    then (d, unavailable)
    else request_for p secret (user_of d.users address) now d

abbrev pub request_ip : List Rule
request_ip =
    record { name = "owner.signin.ip.15m"; limit = 10; window = minutes 15 }
    ∷ record { name = "owner.signin.ip.24h"; limit = 40; window = hours 24 }
    ∷ []

-- `check_request`
abbrev pub check_request : String → List Check
check_request ip = record { kind = "ip"; value = ip; rules = request_ip } ∷ []

abbrev rule_name : Option String → String
rule_name none = ""
rule_name (some name) = name

-- the visitor who is nobody yet
abbrev pub nobody : Actor
nobody = visitor 0

abbrev conclude_request : Log → ℕ → Requested → Log
conclude_request log pk sent = log_conclude log pk applied none none
conclude_request log pk unavailable =
    log_conclude log pk rejected none (some (reason "unavailable"))
conclude_request log pk (ignored why) = log_conclude log pk rejected none (some (reason why))

-- `request_sign_in`: null where the rate limit stops it
unfoldable pub request_sign_in :
    Porch → String → String → String → ℕ → Door → Door × Option Requested
unfolding check log_received log_conclude apply_request
request_sign_in p secret email ip now d =
    let address = p.site.lower (p.site.strip email) in
    let (counters, verdict) = check p.hashing (check_request ip) now d.counters in
    let (log, pk) = log_received d.log "owner.request_signin" none nobody "" in
    let (d', outcome) =
      apply_request p secret address now (record d { counters = counters; log = log }) in
    if verdict.allowed
    then (record d' { log = conclude_request d'.log pk outcome }, some outcome)
    else (
      record d {
        counters = counters;
        log =
            if verdict.first_block
            then log_conclude log pk blocked none (some (rate_limited (rule_name verdict.rule)))
            else d.log;
      },
      none,
    )
