-- ===== src/Directory/SignIn/Guard.antt =====
-- The session that a cookie names, the sign-out (directory/owner_auth.py), and the commands at the door.
use osds.Prelude.{
  ℕ, ◌+◌, String, Bool, not, ◌||◌, Option, none, some, List, [], ◌∷◌, find, select, ◌==◌, leb,
  if◌then◌else◌,
}
use text.Mathlib.Text.{◌==◌ as str_eq}
use osds.Audit.Actor.{owner}
use osds.Audit.CommandLog.{applied, log_received, log_conclude}
use osds.Directory.Claims.State.{User}
use osds.Directory.SignIn.State.{Door, Porch, Session, session_idle, touch_interval}
use osds.Directory.SignIn.Request.{request_sign_in}
use osds.Directory.SignIn.Enter.{sign_in}

abbrev pub has_cookie : String → Session → Bool
has_cookie hash s = str_eq s.token_hash hash

abbrev pub is_over : ℕ → Session → Bool
is_over now s = leb s.expires_at now || leb (s.last_seen_at + session_idle) now

abbrev is_session : ℕ → Session → Bool
is_session pk s = s.pk == pk

abbrev is_other_session : ℕ → Session → Bool
is_other_session pk s = not (s.pk == pk)

unfoldable pub touch : ℕ → ℕ → List Session → List Session
touch pk now [] = []
touch pk now (s ∷ sessions) =
    (if is_session pk s then record s { last_seen_at = now } else s) ∷ touch pk now sessions

abbrev pub touched : ℕ → Session → Door → Door × Option Session
touched now s d =
    if leb (s.last_seen_at + touch_interval) now
    then (record d { sessions = touch s.pk now d.sessions }, some (record s { last_seen_at = now }))
    else (d, some s)

-- the session that was found
abbrev pub resolved : ℕ → Option Session → Door → Door × Option Session
resolved now none d = (d, none)
resolved now (some s) d =
    if is_over now s
    then (record d { sessions = select (is_other_session s.pk) d.sessions }, none)
    else touched now s d

-- `resolve_session`
unfoldable pub resolve_session : Porch → String → ℕ → Door → Door × Option Session
unfolding touch
resolve_session p cookie now d =
    if str_eq cookie ""
    then (d, none)
    else resolved now (find (has_cookie (p.digest cookie)) d.sessions) d

abbrev pub is_others : ℕ → Session → Bool
is_others user s = not (s.user == user)

abbrev is_user : ℕ → User → Bool
is_user pk u = u.owner.pk == pk

abbrev public_id_of : Option User → ℕ
public_id_of none = 0
public_id_of (some u) = u.owner.public_id

-- `sign_out`: how many sessions it ended is the difference in length
unfoldable pub sign_out : Session → Bool → Door → Door
unfolding log_received log_conclude
sign_out s everywhere d =
    let (log, pk) =
      log_received d.log "owner.sign_out" none
        (owner (public_id_of (find (is_user s.user) d.users))) "" in
    record d {
      sessions = select (if everywhere then is_others s.user else is_other_session s.pk) d.sessions;
      log = log_conclude log pk applied none none;
    }

-- what a visitor or an owner does at the door
pub data DoorCommand : Type 0 where
  request : String → String → String → ℕ → DoorCommand
  enter : String → String → ℕ → DoorCommand
  visit : String → ℕ → DoorCommand
  leave : Session → Bool → DoorCommand

unfoldable pub serve_door : Porch → DoorCommand → Door → Door
unfolding request_sign_in sign_in resolve_session sign_out
serve_door p (request secret email ip now) d = (request_sign_in p secret email ip now d).0
serve_door p (enter secret cookie now) d = (sign_in p secret cookie now d).0
serve_door p (visit cookie now) d = (resolve_session p cookie now d).0
serve_door p (leave s everywhere) d = sign_out s everywhere d

unfoldable pub serve_doors : Porch → List DoorCommand → Door → Door
unfolding serve_door
serve_doors p [] d = d
serve_doors p (command ∷ commands) d = serve_doors p commands (serve_door p command d)
