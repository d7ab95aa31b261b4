-- ===== src/Directory/Claims/Tables.antt =====
-- The reads and the writes of the claim tables, and the mail queue (audit/mail.py `enqueue`,
-- directory/claim_review.py `expire_pending_code`, `lock_guard`). What the tenant's site is made of
-- is a parameter: the texts, the keyed hash, Python's text functions and the codes.
use osds.Prelude.{
  ℕ, String, Bool, ◌&&◌, Option, none, some, List, [], ◌∷◌, ◌++◌, find, length, ◌==◌, if◌then◌else◌,
}
use osds.Audit.Actor.{Actor}
use osds.Audit.MailDrain.{MessageStatus, OutboundMessage, is_pending}
use osds.Directory.Claims.State.{Claim, Guard, Listing, Letter, ClaimEvent, Desk}

-- `render` gives the subject and the body of a letter, `hash_code` is the keyed hash (Django's
-- `salted_hmac`) of a claim's id and a code, and `email_available` says whether mail is configured.
pub record Site : Type 0 where
  pub render : Letter → String × String
  pub hash_code : ℕ → String → String
  pub strip : String → String
  pub lower : String → String
  pub email_available : Bool
  pub domain_email_minutes : Option ℕ
  pub enabled_methods : List String

abbrev pub has_pk : ℕ → Claim → Bool
has_pk pk c = c.pk == pk

abbrev pub claim_of : Desk → ℕ → Option Claim
claim_of d pk = find (has_pk pk) d.claims

-- `save`: the row with the same key is overwritten
unfoldable pub save_claim : Claim → List Claim → List Claim
save_claim c [] = []
save_claim c (row ∷ rows) = (if row.pk == c.pk then c else row) ∷ save_claim c rows

abbrev pub is_guard_of : ℕ → ℕ → Guard → Bool
is_guard_of listing claimant g = g.listing == listing && g.claimant == claimant

abbrev pub guard_of : List Guard → ℕ → ℕ → Option Guard
guard_of guards listing claimant = find (is_guard_of listing claimant) guards

abbrev pub new_guard : ℕ → ℕ → Guard
new_guard listing claimant = record {
  listing = listing;
  claimant = claimant;
  wrong_entries = 0;
  cooldowns = 0;
  cooldown_until = none;
  verification_locked_at = none;
  rejections = 0;
  claim_blocked_at = none;
  last_code_sent_at = none;
  codes_sent_window_start = none;
  codes_sent_in_window = 0;
}

-- `lock_guard`: `get_or_create`
unfoldable pub lock_guard : List Guard → ℕ → ℕ → List Guard × Guard
lock_guard guards listing claimant = elim (guard_of guards listing claimant) [
  | some g ↦ (guards, g)
  | none ↦ (guards ++ new_guard listing claimant ∷ [], new_guard listing claimant)
]

unfoldable pub save_guard : Guard → List Guard → List Guard
save_guard g [] = []
save_guard g (row ∷ rows) =
    (if is_guard_of g.listing g.claimant row then g else row) ∷ save_guard g rows

abbrev pub is_listing : ℕ → Listing → Bool
is_listing pk l = l.pk == pk

abbrev pub listing_of : Desk → ℕ → Option Listing
listing_of d pk = find (is_listing pk) d.listings

unfoldable pub save_listing : Listing → List Listing → List Listing
save_listing l [] = []
save_listing l (row ∷ rows) = (if row.pk == l.pk then l else row) ∷ save_listing l rows

-- `enqueue`
unfoldable pub enqueue :
    Site → List OutboundMessage → String → String → Letter → ℕ → ℕ → List OutboundMessage
enqueue site messages kind to_address letter expires_at now =
    let (subject, body) = site.render letter in
    messages
    ++ (record {
      pk = length messages;
      message_id = "";
      kind = kind;
      to_address = some to_address;
      subject = subject;
      body_text = some body;
      status = MessageStatus.pending;
      attempt = 0;
      next_attempt_at = now;
      expires_at = expires_at;
      created_at = now;
      first_attempted_at = none;
      last_attempted_at = none;
      last_error = "";
      sent_at = none;
    }
        ∷ [])

abbrev is_code_message : ℕ → OutboundMessage → Bool
is_code_message pk m = m.pk == pk && is_pending m.status

unfoldable pub expire_message : ℕ → ℕ → List OutboundMessage → List OutboundMessage
expire_message pk now [] = []
expire_message pk now (m ∷ messages) =
    (if is_code_message pk m then record m { expires_at = now } else m)
    ∷ expire_message pk now messages

-- `expire_pending_code`
abbrev pub expire_pending_code : Claim → ℕ → List OutboundMessage → List OutboundMessage
expire_pending_code c now messages = elim c.code_message [
  | none ↦ messages
  | some pk ↦ expire_message pk now messages
]

-- `emit`
abbrev pub emit : ClaimEvent → ℕ → Actor → Desk → Desk
emit event subject actor d = record d {
  outbox = d.outbox ++ record { event = event; subject = subject; actor = actor } ∷ [];
}
