-- ===== src/Directory/SignIn/Spent.antt =====
-- Links that no longer open anything (directory/owner_auth.py).
use osds.Prelude.{
  ℕ, ◌≡◌, ◌≢◌, ◌≤◌, refl, String, Bool, true, false, ◌||◌, Option, none, some, List, [], ◌∷◌, ◌++◌,
  find, leb, is_some, is_ok, ok, arith, ==_refl, inl, inr, Bool-cases, Option-cases, Result-cases,
}
use osds.Audit.Actor.{visitor}
use osds.Audit.RateLimit.{check}
use osds.Audit.CommandLog.{log_received}
use osds.Directory.Claims.State.{User}
use osds.Directory.SignIn.State.{SignInToken, Door, Porch, owns_a_listing, sign_in_available}
use osds.Directory.SignIn.Request.{
  is_token_of, supersede_tokens, throttled, send_link, request_for, apply_request, request_sign_in,
  check_request,
}
use osds.Directory.SignIn.Enter.{
  has_hash, spend_token, token_check, open_session, apply_sign_in, sign_in,
}
use osds.Directory.SignIn.Guard.{
  resolve_session, sign_out, DoorCommand, request, enter, visit, leave, serve_door, serve_doors,
}

-- the link is used, or over by `t`
abbrev pub is_dead : ℕ → SignInToken → Bool
is_dead t k = is_some k.used_at || leb k.expires_at t

-- the token that a digest finds is dead
abbrev pub dead_at : ℕ → String → List SignInToken → Bool
dead_at t hash tokens = elim (find (has_hash hash) tokens) [ none ↦ false | some k ↦ is_dead t k ]

pub append-dead :
    (t : ℕ) (hash : String) (tokens : List SignInToken) (k : SignInToken)
    → dead_at t hash tokens ≡ true
    → dead_at t hash (tokens ++ k ∷ []) ≡ true
append-dead t hash [] k h = ground arith
append-dead t hash (x ∷ tokens) k h = ground (arith, append-dead t hash tokens k)

supersede-dead :
    (t : ℕ) (hash : String) (user now : ℕ) (tokens : List SignInToken)
    → dead_at t hash tokens ≡ true
    → dead_at t hash (supersede_tokens user now tokens) ≡ true
unfolding supersede_tokens
supersede-dead t hash user now [] h = h
supersede-dead t hash user now (x ∷ tokens) h =
    ground (arith, supersede-dead t hash user now tokens)

spend-dead :
    (t : ℕ) (hash : String) (pk now : ℕ) (tokens : List SignInToken)
    → dead_at t hash tokens ≡ true
    → dead_at t hash (spend_token pk now tokens) ≡ true
unfolding spend_token
spend-dead t hash pk now [] h = h
spend-dead t hash pk now (x ∷ tokens) h = ground (arith, spend-dead t hash pk now tokens)

-- the token that is spent is dead for good
spent-dead :
    (hash : String) (now : ℕ) (tokens : List SignInToken) {k : SignInToken}
    → find (has_hash hash) tokens ≡ some k
    → dead_at 0 hash (spend_token k.pk now tokens) ≡ true
unfolding spend_token
spent-dead hash now [] h = ground arith
spent-dead hash now (x ∷ tokens) {k = k} h =
    ground (arith, spent-dead hash now tokens {k = k}, ==_refl k.pk)

-- a token that is live when its user is sent a new link is over then
pub superseded-dead :
    (hash : String) (user now : ℕ) (tokens : List SignInToken) {k : SignInToken}
    → find (has_hash hash) tokens ≡ some k
    → is_token_of user k ≡ true
    → dead_at now hash (supersede_tokens user now tokens) ≡ true
unfolding supersede_tokens
superseded-dead hash user now [] h u = ground arith
superseded-dead hash user now (x ∷ tokens) {k = k} h u =
    ground (arith, superseded-dead hash user now tokens {k = k})

request_for-dead :
    (t : ℕ) (hash : String) (p : Porch) (secret : String) (user : Option User) (now : ℕ) (d : Door)
    → dead_at t hash d.tokens ≡ true
    → dead_at t hash (request_for p secret user now d).0.tokens ≡ true
unfolding request_for send_link
request_for-dead t hash p secret none now d h = h
request_for-dead t hash p secret (some u) now d h =
    elim (Bool-cases (owns_a_listing d.listings u.owner.pk)) [
      | inr e ↦ rw (e, request_for) h
      | inl e ↦ elim (Option-cases (throttled d.tokens u.owner.pk now)) [
        | inr (why, f) ↦ rw (e, f, request_for) h
        | inl f ↦
            rw (e, f, request_for)
              (append-dead t hash (supersede_tokens u.owner.pk now d.tokens) _
                (supersede-dead t hash u.owner.pk now d.tokens h))
      ]
    ]

apply_request-dead :
    (t : ℕ) (hash : String) (p : Porch) (secret address : String) (now : ℕ) (d : Door)
    → dead_at t hash d.tokens ≡ true
    → dead_at t hash (apply_request p secret address now d).0.tokens ≡ true
unfolding apply_request
apply_request-dead t hash p secret address now d h = elim (Bool-cases (sign_in_available p)) [
  | inr e ↦ rw (e, apply_request) h
  | inl e ↦ rw (e, apply_request) (request_for-dead t hash p secret _ now d h)
]

request_sign_in-dead :
    (t : ℕ) (hash : String) (p : Porch) (secret email ip : String) (now : ℕ) (d : Door)
    → dead_at t hash d.tokens ≡ true
    → dead_at t hash (request_sign_in p secret email ip now d).0.tokens ≡ true
unfolding request_sign_in
request_sign_in-dead t hash p secret email ip now d h =
    elim (Bool-cases (check p.hashing (check_request ip) now d.counters).1.allowed) [
      | inr e ↦ rw (e, request_sign_in) h
      | inl e ↦
          rw (e, request_sign_in)
            (apply_request-dead t hash p secret _ now
              (record d {
                counters = (check p.hashing (check_request ip) now d.counters).0;
                log = (log_received d.log "owner.request_signin" none (visitor 0) "").0;
              })
              h)
    ]

sign_in-dead :
    (t : ℕ) (hash : String) (p : Porch) (secret cookie : String) (now : ℕ) (d : Door)
    → dead_at t hash d.tokens ≡ true
    → dead_at t hash (sign_in p secret cookie now d).0.tokens ≡ true
unfolding sign_in apply_sign_in open_session
sign_in-dead t hash p secret cookie now d h = elim (Result-cases (token_check p secret now d)) [
  | inr (why, e) ↦ rw (e, sign_in, apply_sign_in) h
  | inl (k, e) ↦ rw (e, sign_in, apply_sign_in) (spend-dead t hash k.pk now d.tokens h)
]

resolve_session-tokens :
    (p : Porch) (cookie : String) (now : ℕ) (d : Door)
    → (resolve_session p cookie now d).0.tokens ≡ d.tokens
unfolding resolve_session
resolve_session-tokens p cookie now d = ground arith

-- the checks on a token that is found and dead
found_refused :
    (t : ℕ) (p : Porch) (secret : String) (now : ℕ) (d : Door) (k : SignInToken)
    → find (has_hash (p.digest secret)) d.tokens ≡ some k
    → is_dead t k ≡ true
    → t ≤ now
    → is_ok (token_check p secret now d) ≡ false
unfolding token_check
found_refused t p secret now d k f h e = rw (f, token_check) ground arith

pub dead_refused :
    (t : ℕ) (p : Porch) (secret : String) (now : ℕ) (d : Door)
    → dead_at t (p.digest secret) d.tokens ≡ true
    → t ≤ now
    → is_ok (token_check p secret now d) ≡ false
unfolding token_check
dead_refused t p secret now d h e =
    elim (Option-cases (find (has_hash (p.digest secret)) d.tokens)) [
      | inl f ↦ rw (f, token_check) refl
      | inr (k, f) ↦ found_refused t p secret now d k f (rw (f, dead_at) at h) e
    ]

pub refused :
    (p : Porch) (secret cookie : String) (now : ℕ) (d : Door)
    → is_ok (token_check p secret now d) ≡ false
    → (sign_in p secret cookie now d).1 ≢ none
unfolding sign_in apply_sign_in
refused p secret cookie now d h = elim (Result-cases (token_check p secret now d)) [
  | inl (k, e) ↦ (λ x. cc (rw e at h))
  | inr (why, e) ↦ rw (e, sign_in, apply_sign_in) (λ x. cc x)
]

-- the token that passes the checks is the one found
checked-find :
    (p : Porch) (secret : String) (now : ℕ) (d : Door) (k : SignInToken)
    → token_check p secret now d ≡ ok k
    → find (has_hash (p.digest secret)) d.tokens ≡ some k
unfolding token_check
checked-find p secret now d k h = elim (Option-cases (find (has_hash (p.digest secret)) d.tokens)) [
  | inl f ↦ cc (rw (f, token_check) at h)
  | inr (x, f) ↦ rw f (ground (arith, rw (f, token_check) at h))
]

pub sign_in_spends :
    (p : Porch) (secret cookie : String) (now : ℕ) (d : Door)
    → (sign_in p secret cookie now d).1 ≡ none
    → dead_at 0 (p.digest secret) (sign_in p secret cookie now d).0.tokens ≡ true
unfolding sign_in apply_sign_in open_session
sign_in_spends p secret cookie now d h = elim (Result-cases (token_check p secret now d)) [
  | inl (k, e) ↦
      rw (e, sign_in, apply_sign_in)
        (spent-dead (p.digest secret) now d.tokens {k = k} (checked-find p secret now d k e))
  | inr (why, e) ↦ absurd (refused p secret cookie now d (rw e refl) h)
]

serve_door-dead :
    (t : ℕ) (hash : String) (p : Porch) (command : DoorCommand) (d : Door)
    → dead_at t hash d.tokens ≡ true
    → dead_at t hash (serve_door p command d).tokens ≡ true
unfolding serve_door sign_out
serve_door-dead t hash p (request secret email ip now) d h =
    request_sign_in-dead t hash p secret email ip now d h
serve_door-dead t hash p (enter secret cookie now) d h = sign_in-dead t hash p secret cookie now d h
serve_door-dead t hash p (visit cookie now) d h = rw (resolve_session-tokens p cookie now d) h
serve_door-dead t hash p (leave s everywhere) d h = h

pub serve_doors-dead :
    (t : ℕ) (hash : String) (p : Porch) (commands : List DoorCommand) (d : Door)
    → dead_at t hash d.tokens ≡ true
    → dead_at t hash (serve_doors p commands d).tokens ≡ true
unfolding serve_doors
serve_doors-dead t hash p [] d h = h
serve_doors-dead t hash p (command ∷ commands) d h =
    serve_doors-dead t hash p commands (serve_door p command d)
      (serve_door-dead t hash p command d h)
