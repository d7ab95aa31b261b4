-- ===== src/Directory/SignInExamples.antt =====
-- Tests of the sign-in at a concrete door, and instances of its theorems.
use osds.Prelude.{
  find, ◌<◌, ◌+◌, ℕ, ◌≡◌, ◌≢◌, ◌+◌, refl, true, none, some, List, [], ◌∷◌, length, arith,
}
use osds.Audit.RateLimit.{check, check_group, count_of, upsert, window_start}
use osds.Audit.CommandLog.{log_received, log_conclude}
use osds.Billing.Model.{claimed}
use osds.Directory.Claims.State.{User}
use osds.Directory.Claims.Tables.{enqueue}
use osds.Directory.SignIn.State.{session_idle, SignInToken, Session, Door, Porch, expired}
use osds.Directory.SignIn.Request.{
  user_of, sent, ignored, newest, throttled, supersede_tokens, expire_mails, send_link, request_for,
  apply_request, request_sign_in,
}
use osds.Directory.SignIn.Enter.{
  spend_token, token_check, peek_token, next_key, open_session, apply_sign_in, sign_in,
}
use osds.Directory.SignIn.Guard.{
  has_cookie, touch, resolve_session, sign_out, DoorCommand, request, visit, leave, serve_doors,
}
use osds.Directory.SignIn.Links.{
  sign_in_once, newest_link_only, sent_link_opens, signed_out_everywhere,
}
use osds.Directory.SignIn.Shown.{or_none, peek_token-check, resolve_session-live}

abbrev ann : User
ann = record {
  owner = record { pk = 3; public_id = 33; email = "ann@acme.example" };
  name = "Ann";
  phone_e164 = "";
}

abbrev porch : Porch
porch = record {
  site = record {
    render = λ letter. ("", "");
    hash_code = λ pk code. code;
    strip = λ s. s;
    lower = λ s. s;
    email_available = true;
    domain_email_minutes = none;
    enabled_methods = [];
  };
  digest = λ s. s;
  has_absolute_base = true;
  hashing = record { tenant = "t"; hmac = λ s. s; ip_bucket = λ s. s };
}

abbrev token : SignInToken
token = record {
  pk = 0;
  user = 3;
  token_hash = "old";
  created_at = 0;
  expires_at = 43200000000;
  used_at = none;
  message = none;
}

abbrev session : Session
session = record { pk = 0; user = 3; token_hash = "c"; last_seen_at = 5; expires_at = 1000 }

abbrev bobs_session : Session
bobs_session = record session { pk = 1; user = 4; token_hash = "b" }

abbrev door : Door
door = record {
  tokens = token ∷ [];
  sessions = session ∷ bobs_session ∷ [];
  users = ann ∷ [];
  listings =
      record { pk = 7; status = claimed; owner = some ann.owner; email = ""; website = "" } ∷ [];
  messages = [];
  log = [];
  counters = [];
}

-- two minutes later
abbrev later : ℕ
later = 120000000

abbrev commands : List DoorCommand
commands =
    request "newer" "ann@acme.example" "10.0.0.1" (later + later)
    ∷ visit "c" later
    ∷ leave session true
    ∷ []

too_soon :
    (request_sign_in porch "new" "ann@acme.example" "10.0.0.1" 30000000 door).1
    ≡ some (ignored "too_soon")
unfolding request_sign_in check check_group count_of upsert window_start log_received log_conclude
    apply_request request_for throttled newest
too_soon = refl

sent_later : (request_sign_in porch "new" "ann@acme.example" "10.0.0.1" later door).1 ≡ some sent
unfolding request_sign_in check check_group count_of upsert window_start log_received log_conclude
    apply_request request_for throttled newest send_link supersede_tokens expire_mails enqueue
sent_later = refl

signed_in : (sign_in porch "old" "cookie" later door).1 ≡ none
unfolding sign_in log_received log_conclude apply_sign_in token_check open_session spend_token
    next_key
signed_in = refl

too_late : (sign_in porch "old" "cookie" 43200000000 door).1 ≡ some expired
unfolding sign_in log_received log_conclude apply_sign_in token_check open_session spend_token
    next_key
too_late = refl

peeked : peek_token porch "old" later door ≡ some token
unfolding peek_token
peeked = refl

idle_out : length (resolve_session porch "c" 2000 door).0.sessions ≡ 1
unfolding resolve_session touch
idle_out = refl

resolved_bob : (resolve_session porch "b" 10 (sign_out session true door)).1 ≡ some bobs_session
unfolding resolve_session touch sign_out log_received log_conclude
resolved_bob = refl

sign_in_once_example :
    (sign_in porch "old" "again" 300
      (serve_doors porch commands (sign_in porch "old" "cookie" later door).0)).1
    ≢ none
sign_in_once_example = sign_in_once porch "old" "cookie" "again" later 300 commands door signed_in

newest_link_only_example :
    (sign_in porch "old" "cookie" 200000000 (
      serve_doors porch commands
        (request_sign_in porch "new" "ann@acme.example" "10.0.0.1" later door).0)).1
    ≢ none
newest_link_only_example =
    newest_link_only porch "old" "new" "ann@acme.example" "10.0.0.1" "cookie" later 200000000
      commands door ann token sent_later refl refl refl (omega arith)

sent_link_opens_example :
    let (d', refusal) =
      sign_in porch "new" "cookie" 200000000
        (request_sign_in porch "new" "ann@acme.example" "10.0.0.1" later door).0 in
    (refusal ≡ none)
    × (u : User) × (s : Session) × (user_of door.users "ann@acme.example" ≡ some u)
    × ((resolve_session porch "cookie" 200000000 d').1 ≡ some s)
    × (s.user ≡ u.owner.pk)
sent_link_opens_example =
    sent_link_opens porch "new" "ann@acme.example" "10.0.0.1" "cookie" later 200000000 door
      sent_later refl refl refl (omega arith)

signed_out_everywhere_example : bobs_session.user ≢ session.user
signed_out_everywhere_example =
    signed_out_everywhere porch "b" 10 session bobs_session door resolved_bob

resolved_ann : (resolve_session porch "c" 10 door).1 ≡ some session
unfolding resolve_session touch
resolved_ann = refl

resolve_session-live_example :
    (x : Session) × (find (has_cookie "c") door.sessions ≡ some x)
    × (session.pk ≡ x.pk)
    × (session.user ≡ x.user)
    × (10 < x.expires_at)
    × (10 < x.last_seen_at + session_idle)
resolve_session-live_example = resolve_session-live porch "c" 10 door session resolved_ann

peek_token-check_example :
    peek_token porch "old" later door ≡ or_none (token_check porch "old" later door)
peek_token-check_example = peek_token-check porch "old" later door (refl, tt)
