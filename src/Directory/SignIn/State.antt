-- ===== src/Directory/SignIn/State.antt =====
-- The tables of the owners' sign-in and its limits (directory/models.py, directory/owner_auth.py).
use osds.Prelude.{ℕ, String, Bool, false, ◌&&◌, Option, none, some, List, any, ◌==◌}
use osds.Prelude.Time.{seconds, hours, days}
use osds.Audit.CommandLog.{Log}
use osds.Audit.MailDrain.{OutboundMessage}
use osds.Audit.RateLimit.{Hashing, Counter}
use osds.Billing.Model.{Owner}
use osds.Directory.Claims.State.{Listing, User}
use osds.Directory.Claims.Tables.{Site}

-- `OwnerSignInToken`
pub record SignInToken : Type 0 where
  pub pk : ℕ
  pub user : ℕ
  pub token_hash : String
  pub created_at : ℕ
  pub expires_at : ℕ
  pub used_at : Option ℕ
  pub message : Option ℕ

-- `OwnerSession`
pub record Session : Type 0 where
  pub pk : ℕ
  pub user : ℕ
  pub token_hash : String
  pub last_seen_at : ℕ
  pub expires_at : ℕ

-- The tables in reach.
pub record Door : Type 0 where
  pub tokens : List SignInToken
  pub sessions : List Session
  pub users : List User
  pub listings : List Listing
  pub messages : List OutboundMessage
  pub log : Log
  pub counters : List Counter

-- `digest` is the SHA-256 of a secret, `has_absolute_base` says whether a mail can carry a link.
pub record Porch : Type 0 where
  pub site : Site
  pub digest : String → String
  pub has_absolute_base : Bool
  pub hashing : Hashing

abbrev pub signin_ttl : ℕ
signin_ttl = hours 12

abbrev pub session_idle : ℕ
session_idle = hours 12

abbrev pub session_absolute : ℕ
session_absolute = days 30

abbrev pub touch_interval : ℕ
touch_interval = seconds 60

abbrev pub max_links_per_hour : ℕ
max_links_per_hour = 3

abbrev pub min_seconds_between_links : ℕ
min_seconds_between_links = 60

-- the reasons of `SignInRefused`
pub data SignInRefusal : Type 0 where
  unknown used expired not_an_owner : SignInRefusal

abbrev pub refusal_text : SignInRefusal → String
refusal_text unknown = "unknown"
refusal_text used = "used"
refusal_text expired = "expired"
refusal_text not_an_owner = "not_an_owner"

-- `sign_in_available`
abbrev pub sign_in_available : Porch → Bool
sign_in_available p = p.site.email_available && p.has_absolute_base

abbrev is_owner_pk : Option Owner → ℕ → Bool
is_owner_pk none user = false
is_owner_pk (some o) user = o.pk == user

abbrev is_owned_by : ℕ → Listing → Bool
is_owned_by user l = is_owner_pk l.owner user

-- `owns_a_listing`
abbrev pub owns_a_listing : List Listing → ℕ → Bool
owns_a_listing listings user = any (is_owned_by user) listings
