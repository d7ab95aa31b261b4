-- ===== src/Directory/ClaimExamples.antt =====
-- Tests of the claims on a concrete desk, and instances of their theorems.
use osds.Prelude.{
  Result, ok, err, is_ok, ◌≢◌, ℕ, ◌≡◌, ◌≤◌, ◌+◌, ◌*◌, refl, true, false, none, some, List, [], ◌∷◌,
  length,
}
use osds.Audit.Actor.{visitor}
use osds.Billing.Model.{unclaimed, claimed, Owner}
use osds.Directory.Claims.State.{pending_verification, Method, unset, Claim, Listing, Desk}
use osds.Directory.Claims.Tables.{
  Site, new_guard, lock_guard, save_guard, save_claim, save_listing, enqueue, expire_message,
  listing_of,
}
use osds.Directory.Claims.Eligibility.{
  Text, domain_email_ineligibility, domain_email_host, website_host, normalize_host,
  is_platform_host, has_platform_suffix, join,
}
use osds.Directory.Claims.Approve.{
  supersede, approved_row, reject_losers, notify_contacts, emit_contacts, approve_claim_row,
  resolve_verified_claim,
}
use osds.Directory.Claims.Start.{
  VerificationRefusal, state_check, apply_start, starting, sending, send_check, send_code,
  sent_guard, flip_claim,
}
use osds.Directory.Claims.Verify.{
  verify_check, wrong_guard, wrong_reason, wrong_claim, queue_lock, enter_wrong, enter_right,
  entering, apply_verify,
}
use osds.Directory.Claims.Submit.{
  Submission, SubmitRefusal, not_started, apply_submit, submitting, create_claim, effective_method,
  consent_rows, start_submitted, route_submitted, method_of, consent_check,
  get_default_consent_text, match_or_create_user,
}
use osds.Directory.Claims.Submitted.{apply_submit-ne-not_started}
use osds.Directory.Claims.Codes.{CodeCommand, enter, step, wrong_entry, run, wrong_entries_of}
use osds.Directory.Claims.Guards.{guard_at}
use osds.Directory.Claims.Guesses.{Entries, start, wrong, guesses_bounded}
use osds.Directory.Claims.Refines.{run-refines, wrong_entries_of_le}
use osds.Directory.Claims.Ends.{World, Office}
use osds.Directory.Claims.Commands.{Command, verify, approve, serve}
use osds.Directory.Claims.Rows.{LeavesRows}
use osds.Directory.Claims.Owned.{SoundDesk}
use osds.Directory.Claims.Served.{serve_all, serve_all-Sound}
use osds.Directory.Claims.Logged.{command_event, serve-LeavesRows}

abbrev ann : Owner
ann = record { pk = 3; public_id = 33; email = "ann@acme.example" }

abbrev bob : Owner
bob = record { pk = 4; public_id = 44; email = "bob@elsewhere.example" }

abbrev ann_claim : Claim
ann_claim = record {
  pk = 1;
  listing = 7;
  claimant = ann;
  status = pending_verification;
  method = Method.domain_email;
  requested_method = Method.domain_email;
  review_reason = unset;
  verification_started_at = some 10;
  expires_at = some 1000;
  attempts = 0;
  code_hash = some "123456";
  code_message = none;
  manual_method_used = none;
  verified_by = none;
  verified_at = none;
  verification_notes = "";
  evidence_ref = "";
  decided_at = none;
  decided_by = none;
  rejection_reason = "";
}

abbrev bob_claim : Claim
bob_claim = record ann_claim {
  pk = 2;
  claimant = bob;
  method = Method.manual;
  requested_method = Method.manual;
  code_hash = none;
}

abbrev desk : Desk
desk = record {
  claims = ann_claim ∷ bob_claim ∷ [];
  guards = [];
  items = [];
  listings =
      record { pk = 7; status = unclaimed; owner = none; email = ""; website = "acme.example" }
      ∷ [];
  messages = [];
  outbox = [];
  memberships = [];
  users = [];
  consents = [];
  consent_texts = [];
}

abbrev site : Site
site = record {
  render = λ letter. ("", "");
  hash_code = λ pk code. code;
  strip = λ s. s;
  lower = λ s. s;
  email_available = true;
  domain_email_minutes = none;
  enabled_methods = "manual" ∷ "domain_email" ∷ [];
}

abbrev text : Text
text = record {
  strip = λ s. s;
  lower = λ s. s;
  drop_port = λ s. s;
  strip_dots = λ s. s;
  idna = λ s. some s;
  hostname = λ s. some "acme.example";
  labels = λ s. s ∷ [];
  domain_part = λ s. "acme.example";
  drop_www = λ s. none;
  has_slashes = λ s. false;
}

abbrev submission : Submission
submission = record {
  method = "domain_email";
  claimant = record {
    name = "Cy";
    email = "cy@acme.example";
    phone_e164 = "";
    role_claimed = "owner";
  };
  consent = ("marketing_email", false) ∷ ("marketing_sms", false) ∷ ("automated_calls", true) ∷ [];
  ip = some "192.0.2.1";
}

abbrev shop : Listing
shop = record { pk = 7; status = unclaimed; owner = none; email = ""; website = "acme.example" }

-- a desk whose claims have their places as keys
abbrev keyed_desk : Desk
keyed_desk = record desk { claims = record ann_claim { pk = 0 } ∷ record bob_claim { pk = 1 } ∷ [] }

submission_steps : ℕ
unfolding apply_submit submitting create_claim effective_method consent_rows start_submitted
    route_submitted method_of consent_check get_default_consent_text match_or_create_user
    apply_start domain_email_ineligibility domain_email_host website_host normalize_host
    is_platform_host has_platform_suffix join state_check starting sending send_check send_code
    sent_guard lock_guard save_guard save_claim enqueue flip_claim
submission_steps = length (consent_rows 0 submission.consent none "" 0 [])

abbrev Accepted : Result SubmitRefusal (Desk × Claim × ℕ) → Type 0
Accepted (err why) = Unit {0}
Accepted (ok (d, c, event)) =
    (c.pk ≡ 2)
    × (c.code_hash ≡ some "654321")
    × (event ≡ 1)
    × (length d.users ≡ 1)
    × (length d.consents ≡ 3)
    × (length d.messages ≡ 1)
    × (length d.outbox ≡ 3)

-- a user is minted, three consents are recorded, and a code is mailed to the claimant
apply_submit-Accepted :
    (is_ok (apply_submit site text submission shop "654321" 50 keyed_desk) ≡ true)
    × Accepted (apply_submit site text submission shop "654321" 50 keyed_desk)
unfolding submission_steps
apply_submit-Accepted = (refl, (refl, refl, refl, refl, refl, refl, refl))

apply_submit-ne-not_started_example :
    apply_submit site text submission shop "654321" 50 keyed_desk
    ≢ err (not_started VerificationRefusal.wrong_status)
apply_submit-ne-not_started_example =
    apply_submit-ne-not_started site text submission shop "654321" 50 keyed_desk
      VerificationRefusal.wrong_status {row = shop} refl refl

abbrev guesses : List CodeCommand
guesses = enter "000000" 1 20 ∷ enter "111111" 1 30 ∷ []

guess_steps : ℕ
unfolding run step wrong_entries_of wrong_entry apply_verify verify_check state_check wrong_guard
    wrong_reason wrong_claim queue_lock enter_wrong enter_right entering lock_guard save_guard
    save_claim resolve_verified_claim approve_claim_row supersede approved_row reject_losers
    notify_contacts emit_contacts save_listing enqueue expire_message
guess_steps = wrong_entries_of site text 7 3 desk guesses

-- two wrong codes are counted, and the right one then gives the listing to its claimant and rejects the
-- other claim
codes_tried :
    let after = run site text desk guesses in
    let done = step site text after (enter "123456" 1 40) in
    (wrong_entries_of site text 7 3 desk guesses ≡ 2)
    × ((guard_at after.guards 7 3).wrong_entries ≡ 2)
    × (listing_of done 7
        ≡ some (record {
          pk = 7;
          status = claimed;
          owner = some ann;
          email = "";
          website = "acme.example";
        }))
    × (length done.messages ≡ 1)
unfolding guess_steps
codes_tried = (refl, refl, refl, refl)

guesses_bounded_example : (1 ≤ 15) × (1 ≡ 0 * 5 + 1)
unfolding guess_steps
guesses_bounded_example =
    guesses_bounded 7 3 (wrong_guard (new_guard 7 3) 20) 1
      (wrong (start refl refl) ann_claim 20 "123456" refl refl refl)

-- a claim is submitted before the guesses
abbrev visits : List CodeCommand
visits = CodeCommand.submit submission shop "654321" 15 ∷ guesses

run-refines_example :
    Entries
      (guard_at desk.guards 7 3)
      (guard_at (run site text desk visits).guards 7 3)
      (wrong_entries_of site text 7 3 desk visits)
run-refines_example = run-refines site text 7 3 desk visits

wrong_entries_of_le_example : wrong_entries_of site text 7 3 desk visits ≤ 15
wrong_entries_of_le_example = wrong_entries_of_le site text 7 3 desk visits refl

abbrev world : World
world = record {
  site = site;
  text = text;
  hashing = record { tenant = "t"; hmac = λ s. s; ip_bucket = λ s. s };
}

abbrev office : Office
office = record { desk = desk; log = []; counters = [] }

abbrev commands : List Command
commands =
    verify ann_claim "" "123456" 20 20
    ∷ approve 2 9
        (record { method_used = "phone"; notes = "called"; evidence_ref = ""; transfer = false }) 30
    ∷ []

serve_all-Sound_example : SoundDesk (serve_all world commands office).desk
serve_all-Sound_example =
    serve_all-Sound world commands office (record { winner = λ l. 0; sole = refl; backed = refl })

serve-LeavesRows_example :
    LeavesRows office "claim.verify"
      (visitor 33)
      (command_event world office (verify ann_claim "" "123456" 20 20))
      (serve world (verify ann_claim "" "123456" 20 20) office)
serve-LeavesRows_example = serve-LeavesRows world (verify ann_claim "" "123456" 20 20) office refl
