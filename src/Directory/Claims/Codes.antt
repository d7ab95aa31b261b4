-- ===== src/Directory/Claims/Codes.antt =====
-- The visitors' commands on claims, which send and enter codes, one after another (directory/services.py
-- `submit_claim`, `start_claim_verification`, `verify_claim_code`, but for the rate limits and the log).
use osds.Prelude.{
  ℕ, ◌+◌, String, Bool, false, not, none, some, List, [], ◌∷◌, ◌==◌, ◌&&◌, if◌then◌else◌, ok, err,
}
use osds.Directory.Claims.State.{Desk, Listing}
use osds.Directory.Claims.Submit.{Submission, apply_submit}
use osds.Directory.Claims.Tables.{Site, claim_of}
use osds.Directory.Claims.Eligibility.{Text}
use osds.Directory.Claims.Start.{apply_start}
use osds.Directory.Claims.Verify.{apply_verify}

-- a visitor's command: a claim submitted for a listing, with the code that it may mail, a code entered for a
-- claim, or a new code asked for
pub data CodeCommand : Type 0 where
  submit : Submission → Listing → String → ℕ → CodeCommand
  enter : String → ℕ → ℕ → CodeCommand
  resend : String → ℕ → ℕ → CodeCommand

-- the desk that a command leaves: a refusal rolls its transaction back
unfoldable pub step : Site → Text → Desk → CodeCommand → Desk
unfolding apply_verify apply_start apply_submit
step site text d (submit s listing code now) = elim (apply_submit site text s listing code now d) [
  | err r ↦ d
  | ok (d', c, event) ↦ d'
]
step site text d (enter code pk now) = elim (apply_verify site code pk now d) [
  | err r ↦ d
  | ok (d', right, event) ↦ d'
]
step site text d (resend code pk now) = elim (apply_start site text code pk now d) [
  | err r ↦ d
  | ok (d', c, result, event) ↦ d'
]

-- the wrong entries that a command counts on the pair of the listing `l` and the claimant `u`
abbrev pub on_pair : Desk → ℕ → ℕ → ℕ → Bool
on_pair d pk l u = elim (claim_of d pk) [
  | none ↦ false
  | some c ↦ c.listing == l && c.claimant.pk == u
]

unfoldable pub wrong_entry : Site → ℕ → ℕ → Desk → CodeCommand → ℕ
unfolding apply_verify
wrong_entry site l u d (submit s listing code now) = 0
wrong_entry site l u d (resend code pk now) = 0
wrong_entry site l u d (enter code pk now) = elim (apply_verify site code pk now d) [
  | err r ↦ 0
  | ok (d', right, event) ↦ if not right && on_pair d pk l u then 1 else 0
]

unfoldable pub run : Site → Text → Desk → List CodeCommand → Desk
unfolding step
run site text d [] = d
run site text d (command ∷ commands) = run site text (step site text d command) commands

unfoldable pub wrong_entries_of : Site → Text → ℕ → ℕ → Desk → List CodeCommand → ℕ
unfolding step wrong_entry
wrong_entries_of site text l u d [] = 0
wrong_entries_of site text l u d (command ∷ commands) =
    wrong_entry site l u d command
    + wrong_entries_of site text l u (step site text d command) commands
