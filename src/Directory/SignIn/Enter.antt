-- ===== src/Directory/SignIn/Enter.antt =====
-- The exchange of a link for a session (directory/owner_auth.py `peek_token`, `sign_in`).
use osds.Prelude.{
  ℕ, ◌+◌, max, String, Bool, ◌&&◌, Option, none, some, List, [], ◌∷◌, ◌++◌, find, ◌==◌, ltb,
  is_none, if◌then◌else◌, Result, ok, err, need, require, ◌>>=◌, ◌>>◌,
}
use text.Mathlib.Text.{◌==◌ as str_eq}
use osds.Audit.CommandLog.{applied, rejected, reason, log_received, log_conclude}
use osds.Directory.Claims.State.{Listing}
use osds.Directory.SignIn.State.{
  Door, Porch, Session, SignInRefusal, SignInToken, expired, not_an_owner, owns_a_listing,
  refusal_text, session_absolute, unknown, used,
}
use osds.Directory.SignIn.Request.{is_live, nobody}

abbrev pub has_hash : String → SignInToken → Bool
has_hash hash t = str_eq t.token_hash hash

-- `used_at`, the one column that a sign-in writes
unfoldable pub spend_token : ℕ → ℕ → List SignInToken → List SignInToken
spend_token pk now [] = []
spend_token pk now (t ∷ tokens) =
    (if t.pk == pk then record t { used_at = some now } else t) ∷ spend_token pk now tokens

abbrev pub is_usable : String → ℕ → SignInToken → Bool
is_usable hash now t = has_hash hash t && is_live now t

abbrev pub if_owner : List Listing → Option SignInToken → Option SignInToken
if_owner listings none = none
if_owner listings (some t) = if owns_a_listing listings t.user then some t else none

-- `peek_token`
unfoldable pub peek_token : Porch → String → ℕ → Door → Option SignInToken
peek_token p secret now d = if_owner d.listings (find (is_usable (p.digest secret) now) d.tokens)

-- the checks of `_apply_sign_in`
unfoldable pub token_check : Porch → String → ℕ → Door → Result SignInRefusal SignInToken
token_check p secret now d = do
  t ← need (find (has_hash (p.digest secret)) d.tokens) unknown
  require (is_none t.used_at) used
  require (ltb now t.expires_at) expired
  require (owns_a_listing d.listings t.user) not_an_owner
  ok t

-- a key that no session has
unfoldable pub next_key : List Session → ℕ
next_key [] = 0
next_key (s ∷ sessions) = max (s.pk + 1) (next_key sessions)

-- the writes of a sign-in; the cookie is a new secret
unfoldable pub open_session : Porch → String → SignInToken → ℕ → Door → Door
unfolding spend_token next_key
open_session p cookie t now d = record d {
  tokens = spend_token t.pk now d.tokens;
  sessions =
      d.sessions
      ++ record {
        pk = next_key d.sessions;
        user = t.user;
        token_hash = p.digest cookie;
        last_seen_at = now;
        expires_at = now + session_absolute;
      }
        ∷ [];
}

-- `_apply_sign_in`
unfoldable pub apply_sign_in : Porch → String → String → ℕ → Door → Result SignInRefusal Door
unfolding token_check open_session
apply_sign_in p secret cookie now d = do
  t ← token_check p secret now d
  ok (open_session p cookie t now d)

-- `sign_in`: null where it is done
unfoldable pub sign_in : Porch → String → String → ℕ → Door → Door × Option SignInRefusal
unfolding log_received log_conclude apply_sign_in
sign_in p secret cookie now d =
    let (log, pk) = log_received d.log "owner.sign_in" none nobody "" in
    elim (apply_sign_in p secret cookie now d) [
      | ok d' ↦ (record d' { log = log_conclude log pk applied none none }, none)
      | err why ↦ (
        record d { log = log_conclude log pk rejected none (some (reason (refusal_text why))) },
        some why,
      )
    ]
