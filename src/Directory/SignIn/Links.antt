-- ===== src/Directory/SignIn/Links.antt =====
-- What a mailed link opens, and what a session is good for (directory/owner_auth.py).
use osds.Prelude.{
  false, ℕ, ◌≡◌, ◌≢◌, ◌≤◌, ◌<◌, ◌+◌, refl, String, Bool, true, Option, none, some, List, [], ◌∷◌,
  ◌++◌, length, find, select, ltb, is_none, arith, inl, inr, Bool-cases, Option-cases,
}
use text.Mathlib.Text.{◌==◌ as str_eq}
use text.Mathlib.TextPositions.{eq_refl}
use osds.Audit.Actor.{visitor}
use osds.Audit.RateLimit.{check}
use osds.Audit.CommandLog.{log_received}
use osds.Directory.Claims.State.{User}
use osds.Directory.SignIn.State.{
  SignInToken, Session, Door, Porch, owns_a_listing, sign_in_available, signin_ttl,
  session_absolute,
}
use osds.Directory.SignIn.Request.{
  is_token_of, supersede_tokens, throttled, user_of, sent, send_link, request_for, apply_request,
  request_sign_in, check_request, expire_mails,
}
use osds.Directory.SignIn.Enter.{
  next_key, open_session, has_hash, token_check, apply_sign_in, sign_in,
}
use osds.Directory.SignIn.Guard.{
  is_others, resolve_session, resolved, has_cookie, sign_out, DoorCommand, serve_doors,
}
use osds.Directory.SignIn.Spent.{
  dead_at, dead_refused, refused, sign_in_spends, serve_doors-dead, superseded-dead, append-dead,
}

dead_for_good :
    (t : ℕ) (p : Porch) (secret cookie : String) (later : ℕ) (commands : List DoorCommand)
    (d : Door)
    → dead_at t (p.digest secret) d.tokens ≡ true
    → t ≤ later
    → (sign_in p secret cookie later (serve_doors p commands d)).1 ≢ none
dead_for_good t p secret cookie later commands d h e =
    refused p secret cookie later (serve_doors p commands d) (
      dead_refused t p secret later (serve_doors p commands d)
        (serve_doors-dead t (p.digest secret) p commands d h) e)

-- A link that signed its owner in never does so again: after any requests, sign-ins, visits and sign-outs,
-- a sign-in with the same secret is refused.
pub sign_in_once :
    (p : Porch) (secret cookie cookie' : String) (now later : ℕ) (commands : List DoorCommand)
    (d : Door)
    → (sign_in p secret cookie now d).1 ≡ none
    → (sign_in p secret cookie' later (serve_doors p commands (sign_in p secret cookie now d).0)).1
      ≢ none
sign_in_once p secret cookie cookie' now later commands d h =
    dead_for_good 0 p secret cookie' later commands (sign_in p secret cookie now d).0
      (sign_in_spends p secret cookie now d h) (omega arith)

request_for-sent :
    (p : Porch) (secret : String) (user : Option User) (now : ℕ) (d : Door)
    → (request_for p secret user now d).1 ≡ sent
    → (u : User) × (user ≡ some u)
      × (owns_a_listing d.listings u.owner.pk ≡ true)
      × ((request_for p secret user now d).0 ≡ send_link p secret u.owner now d)
unfolding request_for
request_for-sent p secret none now d h = cc
request_for-sent p secret (some u) now d h =
    elim (Bool-cases (owns_a_listing d.listings u.owner.pk)) [
      | inr e ↦ cc (rw (e, request_for) at h)
      | inl e ↦ elim (Option-cases (throttled d.tokens u.owner.pk now)) [
        | inr (why, f) ↦ cc (rw (e, f, request_for) at h)
        | inl f ↦ (u, refl, e, rw (e, f, request_for) refl)
      ]
    ]

apply_request-sent :
    (p : Porch) (secret address : String) (now : ℕ) (d : Door)
    → (apply_request p secret address now d).1 ≡ sent
    → (u : User) × (user_of d.users address ≡ some u)
      × (owns_a_listing d.listings u.owner.pk ≡ true)
      × ((apply_request p secret address now d).0 ≡ send_link p secret u.owner now d)
unfolding apply_request
apply_request-sent p secret address now d h = elim (Bool-cases (sign_in_available p)) [
  | inr e ↦ cc (rw (e, apply_request) at h)
  | inl e ↦
      rw (e, apply_request)
        (request_for-sent p secret (user_of d.users address) now d (rw (e, apply_request) at h))
]

-- the door as the command finds it once the limit has counted the request
abbrev counted : Porch → String → ℕ → Door → Door
counted p ip now d = record d {
  counters = (check p.hashing (check_request ip) now d.counters).0;
  log = (log_received d.log "owner.request_signin" none (visitor 0) "").0;
}

-- a request that sends a link
request_sign_in-sent :
    (p : Porch) (secret email ip : String) (now : ℕ) (d : Door)
    → (request_sign_in p secret email ip now d).1 ≡ some sent
    → (u : User) × (user_of d.users (p.site.lower (p.site.strip email)) ≡ some u)
      × (owns_a_listing d.listings u.owner.pk ≡ true)
      × ((request_sign_in p secret email ip now d).0.tokens
          ≡ (send_link p secret u.owner now d).tokens)
      × ((request_sign_in p secret email ip now d).0.listings ≡ d.listings)
      × ((request_sign_in p secret email ip now d).0.sessions ≡ d.sessions)
unfolding request_sign_in send_link
request_sign_in-sent p secret email ip now d h =
    elim (Bool-cases (check p.hashing (check_request ip) now d.counters).1.allowed) [
      | inr e ↦ cc (rw (e, request_sign_in) at h)
      | inl e ↦
          let (u, f, owns, same) =
            apply_request-sent p secret (p.site.lower (p.site.strip email)) now (counted p ip now d)
              (cc (rw (e, request_sign_in) at h)) in
          (
            u,
            f,
            owns,
            rw (e, request_sign_in) (rw same refl),
            rw (e, request_sign_in) (rw same refl),
            rw (e, request_sign_in) (rw same refl),
          )
    ]

-- When a request sends a new link to a user, a link that the user had before it is over: from then on, after any
-- requests, sign-ins, visits and sign-outs, a sign-in with it is refused.
pub newest_link_only :
    (p : Porch) (old secret email ip cookie : String) (now later : ℕ) (commands : List DoorCommand)
    (d : Door) (u : User) (k : SignInToken)
    → (request_sign_in p secret email ip now d).1 ≡ some sent
    → user_of d.users (p.site.lower (p.site.strip email)) ≡ some u
    → find (has_hash (p.digest old)) d.tokens ≡ some k
    → is_token_of u.owner.pk k ≡ true
    → now ≤ later
    → (sign_in p old cookie later
        (serve_doors p commands (request_sign_in p secret email ip now d).0)).1
      ≢ none
unfolding send_link
newest_link_only p old secret email ip cookie now later commands d u k h f g own e =
    let (v, f', owns, tokens, listings, sessions) =
      request_sign_in-sent p secret email ip now d h in
    dead_for_good now p old cookie later commands (request_sign_in p secret email ip now d).0
      (rw tokens (
        append-dead now (p.digest old) (supersede_tokens v.owner.pk now d.tokens) _
          (superseded-dead (p.digest old) v.owner.pk now d.tokens g (cc own))))
      e

-- the link that is appended is the one its digest finds
appended-find :
    (hash : String) (user now : ℕ) (tokens : List SignInToken) (k : SignInToken)
    → find (has_hash hash) tokens ≡ none
    → has_hash hash k ≡ true
    → find (has_hash hash) (supersede_tokens user now tokens ++ k ∷ []) ≡ some k
unfolding supersede_tokens
appended-find hash user now [] k f h = rw h refl
appended-find hash user now (x ∷ tokens) k f h =
    ground (arith, appended-find hash user now tokens k)

-- the session that is appended is the one its cookie finds
session-find :
    (hash : String) (sessions : List Session) (s : Session)
    → find (has_cookie hash) sessions ≡ none
    → has_cookie hash s ≡ true
    → find (has_cookie hash) (sessions ++ s ∷ []) ≡ some s
session-find hash [] s f h = rw h refl
session-find hash (x ∷ sessions) s f h = ground (arith, session-find hash sessions s)

-- the session of a sign-in
abbrev session_for : Porch → String → ℕ → ℕ → Door → Session
session_for p cookie user now d = record {
  pk = next_key d.sessions;
  user = user;
  token_hash = p.digest cookie;
  last_seen_at = now;
  expires_at = now + session_absolute;
}

fresh_resolves :
    (p : Porch) (cookie : String) (user now : ℕ) (before d : Door)
    → str_eq cookie "" ≡ false
    → find (has_cookie (p.digest cookie)) d.sessions ≡ some (session_for p cookie user now before)
    → (resolve_session p cookie now d).1 ≡ some (session_for p cookie user now before)
unfolding resolve_session
fresh_resolves p cookie user now before d e f = rw (resolve_session, e, f) ground arith

-- a live token opens a session for its cookie
live_opens :
    (p : Porch) (secret cookie : String) (now : ℕ) (d : Door) (k : SignInToken)
    → find (has_hash (p.digest secret)) d.tokens ≡ some k
    → is_none k.used_at ≡ true
    → ltb now k.expires_at ≡ true
    → owns_a_listing d.listings k.user ≡ true
    → ((sign_in p secret cookie now d).1 ≡ none)
      × ((sign_in p secret cookie now d).0.sessions
          ≡ d.sessions ++ session_for p cookie k.user now d ∷ [])
unfolding sign_in apply_sign_in token_check open_session
live_opens p secret cookie now d k f unused live owns = (
  rw (sign_in, apply_sign_in, token_check, f, unused, live, owns) refl,
  rw (sign_in, apply_sign_in, token_check, f, unused, live, owns) refl,
)

-- If no token has the digest of the new secret and no session that of the new cookie, which is not empty, the
-- link that a request sends is accepted at any time before its twelve hours are over, when nothing else happens
-- between, and the new cookie resolves at that time to a session of the user whom the address names.
pub sent_link_opens :
    (p : Porch) (secret email ip cookie : String) (now later : ℕ) (d : Door)
    → (request_sign_in p secret email ip now d).1 ≡ some sent
    → find (has_hash (p.digest secret)) d.tokens ≡ none
    → find (has_cookie (p.digest cookie)) d.sessions ≡ none
    → str_eq cookie "" ≡ false
    → later < now + signin_ttl
    → let (d', refusal) =
        sign_in p secret cookie later (request_sign_in p secret email ip now d).0 in
      (refusal ≡ none)
      × (u : User) × (s : Session) × (user_of d.users (p.site.lower (p.site.strip email)) ≡ some u)
      × ((resolve_session p cookie later d').1 ≡ some s)
      × (s.user ≡ u.owner.pk)
unfolding send_link
sent_link_opens p secret email ip cookie now later d h f fresh filled e =
    let (u, f', owns, tokens, listings, sessions) =
      request_sign_in-sent p secret email ip now d h in
    let asked : Door = (request_sign_in p secret email ip now d).0 in
    let k : SignInToken = record {
      pk = length d.tokens;
      user = u.owner.pk;
      token_hash = p.digest secret;
      created_at = now;
      expires_at = now + signin_ttl;
      used_at = none;
      message = some (length (expire_mails u.owner.pk now d.tokens d.messages));
    } in
    let (done, opened) =
      live_opens p secret cookie later asked k
        (rw tokens
          (appended-find (p.digest secret) u.owner.pk now d.tokens k f (eq_refl (p.digest secret))))
        refl (ground arith) (rw listings owns) in
    let s : Session = session_for p cookie u.owner.pk later asked in
    (
      done,
      u,
      s,
      f',
      fresh_resolves p cookie u.owner.pk later asked (sign_in p secret cookie later asked).0 filled
          (rw opened (
            session-find (p.digest cookie) asked.sessions s (rw sessions fresh)
              (eq_refl (p.digest cookie)))),
      refl,
    )

find-select :
    (user : ℕ) (test : Session → Bool) (sessions : List Session) {x : Session}
    → find test (select (is_others user) sessions) ≡ some x
    → is_others user x ≡ true
find-select user test [] h = cc
find-select user test (y ∷ sessions) {x = x} h =
    ground (arith, find-select user test sessions {x = x})

resolved-user :
    (now : ℕ) (s : Option Session) (d : Door) (s' : Session)
    → (resolved now s d).1 ≡ some s'
    → (x : Session) × (s ≡ some x) × (s'.user ≡ x.user)
resolved-user now none d s' h = cc
resolved-user now (some x) d s' h = (x, refl, ground arith)

-- After an owner has signed out everywhere, no cookie resolves to a session of that owner.
pub signed_out_everywhere :
    (p : Porch) (cookie : String) (now : ℕ) (s s' : Session) (d : Door)
    → (resolve_session p cookie now (sign_out s true d)).1 ≡ some s'
    → s'.user ≢ s.user
unfolding resolve_session sign_out
signed_out_everywhere p cookie now s s' d h = elim (Bool-cases (str_eq cookie "")) [
  | inl e ↦ cc (rw (e, resolve_session) at h)
  | inr e ↦
      let (x, f, g) =
        resolved-user now
          (find (has_cookie (p.digest cookie)) (select (is_others s.user) d.sessions))
          (sign_out s true d) s' (rw (e, resolve_session) at h) in
      let other = find-select s.user (has_cookie (p.digest cookie)) d.sessions f in ground arith
]
