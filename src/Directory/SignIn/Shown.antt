-- ===== src/Directory/SignIn/Shown.antt =====
-- What the confirm page and the guard show of a link and a session (directory/owner_auth.py).
use osds.Prelude.{
  ◌<◌, ◌+◌, ℕ, ◌≡◌, refl, String, true, Option, none, some, List, [], ◌∷◌, find, Result, ok, err,
  arith, inl, inr, Bool-cases, Option-cases, if◌then◌else◌,
}
use text.Mathlib.Text.{◌==◌ as str_eq}
use text.Mathlib.TextEquality.{eq_iff}
use osds.Directory.SignIn.State.{session_idle, SignInToken, Session, Door, Porch, SignInRefusal}
use osds.Directory.SignIn.Request.{is_live}
use osds.Directory.SignIn.Enter.{has_hash, is_usable, peek_token, token_check}
use osds.Directory.SignIn.Guard.{has_cookie, resolve_session, resolved, is_over}

-- `token_hash` is unique
abbrev pub OneEach : List SignInToken → Type 0
OneEach [] = Unit {0}
OneEach (k ∷ tokens) = (find (has_hash k.token_hash) tokens ≡ none) × OneEach tokens

none-usable :
    (hash : String) (now : ℕ) (tokens : List SignInToken)
    → find (has_hash hash) tokens ≡ none
    → find (is_usable hash now) tokens ≡ none
none-usable hash now [] h = refl
none-usable hash now (x ∷ tokens) h = ground (arith, none-usable hash now tokens)

same_hash :
    (hash : String) (x : SignInToken) (tokens : List SignInToken)
    → has_hash hash x ≡ true
    → find (has_hash x.token_hash) tokens ≡ none
    → find (has_hash hash) tokens ≡ none
same_hash hash x tokens h f = rw ((eq_iff x.token_hash hash).0 h) at f

-- the first of the usable ones is the one with the digest, if that is usable
usable-find :
    (hash : String) (now : ℕ) (tokens : List SignInToken)
    → OneEach tokens
    → find (is_usable hash now) tokens ≡ (elim (find (has_hash hash) tokens) [
      | none ↦ none
      | some k ↦ if is_live now k then some k else none
    ])
usable-find hash now [] one = refl
usable-find hash now (x ∷ tokens) (first, rest) = elim (Bool-cases (has_hash hash x)) [
  | inr e ↦ rw e (usable-find hash now tokens rest)
  | inl e ↦ rw (e, none-usable hash now tokens (same_hash hash x tokens e first)) refl
]

-- the token that passes the checks
abbrev pub or_none : Result SignInRefusal SignInToken → Option SignInToken
or_none (ok k) = some k
or_none (err why) = none

-- If no two tokens have the same digest, the confirm page is shown exactly the token that a sign-in with
-- the same secret at the same time would spend, and nothing where that sign-in would be refused.
pub peek_token-check :
    (p : Porch) (secret : String) (now : ℕ) (d : Door)
    → OneEach d.tokens
    → peek_token p secret now d ≡ or_none (token_check p secret now d)
unfolding peek_token token_check
peek_token-check p secret now d one =
    elim (Option-cases (find (has_hash (p.digest secret)) d.tokens)) [
      | inl f ↦ rw (peek_token, usable-find (p.digest secret) now d.tokens one, f, token_check) refl
      | inr (k, f) ↦
          rw (peek_token, usable-find (p.digest secret) now d.tokens one, f, token_check) ground
            arith
    ]

resolved-live :
    (now : ℕ) (s : Option Session) (d : Door) (s' : Session)
    → (resolved now s d).1 ≡ some s'
    → (x : Session) × (s ≡ some x)
      × (s'.pk ≡ x.pk)
      × (s'.user ≡ x.user)
      × (now < x.expires_at)
      × (now < x.last_seen_at + session_idle)
resolved-live now none d s' h = cc
resolved-live now (some x) d s' h = elim (Bool-cases (is_over now x)) [
  | inl e ↦ cc (rw e at h)
  | inr e ↦ let h' = rw e at h in (x, refl, ground arith, ground arith, ground arith, ground arith)
]

-- The session that a cookie resolves to is that of the row with the cookie's digest, and that row, as it was
-- before, was seen less than twelve hours ago and is before its end.
pub resolve_session-live :
    (p : Porch) (cookie : String) (now : ℕ) (d : Door) (s : Session)
    → (resolve_session p cookie now d).1 ≡ some s
    → (x : Session) × (find (has_cookie (p.digest cookie)) d.sessions ≡ some x)
      × (s.pk ≡ x.pk)
      × (s.user ≡ x.user)
      × (now < x.expires_at)
      × (now < x.last_seen_at + session_idle)
unfolding resolve_session
resolve_session-live p cookie now d s h = elim (Bool-cases (str_eq cookie "")) [
  | inl e ↦ cc (rw (e, resolve_session) at h)
  | inr e ↦
      resolved-live now (find (has_cookie (p.digest cookie)) d.sessions) d s
        (rw (e, resolve_session) at h)
]
