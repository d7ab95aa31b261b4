-- ===== src/Directory/Claims/Refines.antt =====
-- The commands that send and enter codes, one after another, against the machine of a pair's guard
-- (directory/services.py `_apply_submit_claim`, `_apply_start_verification`, `_apply_verify_claim_code`).
use osds.Prelude.{
  ℕ, ◌≡◌, refl, ◌≤◌, ◌+◌, String, Bool, true, false, none, inl, inr, Bool-cases, Result, err,
  Result-cases, List, [], ◌∷◌, arith, ok,
}
use osds.Audit.Actor.{visitor}
use osds.Billing.Model.{claimed, Owner}
use osds.Directory.Claims.Steps.{recount, enter-Entries, resend-Entries}
use osds.Directory.Claims.Approve.{is_listing_status}
use osds.Directory.Claims.Submit.{
  Submission, SubmitRefusal, start_submitted, route_submitted, create_claim, submitting,
}
use osds.Directory.Claims.Submitted.{apply_submit-ends}
use osds.Directory.Claims.State.{
  User, Method, is_domain_email, is_manual, Claim, Listing, Guard, Desk,
}
use osds.Directory.Claims.Tables.{Site, guard_of, new_guard}
use osds.Directory.Claims.Eligibility.{Text}
use osds.Directory.Claims.Start.{apply_start}
use osds.Directory.Claims.Codes.{
  CodeCommand, submit, enter, resend, step, wrong_entry, run, wrong_entries_of,
}
use osds.Directory.Claims.Guards.{guard_at}
use osds.Directory.Claims.Frames.{dispute-guards, notify_operators-guards}
use osds.Directory.Claims.Guesses.{Entries, start, guesses_bounded}

create_claim-guards :
    (site : Site) (text : Text) (s : Submission) (l : Listing) (method : Method) (version : String)
    (now : ℕ) (minted : Bool) (user : User) (d : Desk)
    → (create_claim site text s l method version now minted user d).0.guards ≡ d.guards
unfolding create_claim
create_claim-guards site text s l method version now true user d = refl
create_claim-guards site text s l method version now false user d = refl

route_submitted-guards :
    (site : Site) (l : Listing) (owner : Owner) (now : ℕ) (d : Desk) (c : Claim)
    → (route_submitted site l owner now d c).guards ≡ d.guards
unfolding route_submitted
route_submitted-guards site l owner now d c =
    elim (Bool-cases (is_listing_status l.status claimed)) [
      | inl e ↦ rw (e, route_submitted) (dispute-guards site c (visitor owner.public_id) now d)
      | inr e ↦ elim (Bool-cases (is_manual c.method)) [
        | inl f ↦ rw (e, f, route_submitted) (notify_operators-guards site now d)
        | inr f ↦ rw (e, f, route_submitted) refl
      ]
    ]

-- the desk that a submission on `d` leaves
abbrev left_by : Desk → Result SubmitRefusal (Desk × Claim × ℕ) → Desk
left_by d (err why) = d
left_by d (ok (d', c, event)) = d'

submitting-Entries :
    (site : Site) (text : Text) (s : Submission) (listing : Listing) (method : Method)
    (version code : String) (now : ℕ) (minted : Bool) (user : User) (d before : Desk) (l u : ℕ)
    (g : Guard) (n : ℕ)
    → before.guards ≡ d.guards
    → Entries g (guard_at d.guards l u) n
    → Entries g
        (guard_at
          (left_by before
            (submitting site text s listing method version code now minted user d)).guards
          l
          u)
        n
unfolding submitting start_submitted step
submitting-Entries site text s listing method version code now minted user d before l u g n b h =
    let made = create_claim site text s listing method version now minted user d in
    let same = create_claim-guards site text s listing method version now minted user d in
    let k : Entries g (guard_at made.0.guards l u) n = rw same h in
    elim (Bool-cases (is_domain_email made.1.method)) [
      | inr f ↦ rw (f, submitting, start_submitted, left_by, route_submitted-guards) k
      | inl f ↦ elim (Result-cases (apply_start site text code made.1.pk now made.0)) [
        | inr (why, r) ↦ rw (f, r, submitting, start_submitted, left_by, b) h
        | inl (x, r) ↦
            rw (f, r, submitting, start_submitted, left_by, route_submitted-guards)
              (rw (r, step) at (resend-Entries site text l u made.0 code made.1.pk now g n k))
      ]
    ]

submit-Entries :
    (site : Site) (text : Text) (l u : ℕ) (d : Desk) (s : Submission) (listing : Listing)
    (code : String) (now : ℕ) (g : Guard) (n : ℕ)
    → Entries g (guard_at d.guards l u) n
    → Entries g (guard_at (step site text d (submit s listing code now)).guards l u) n
unfolding step
submit-Entries site text l u d s listing code now g n h =
    apply_submit-ends (λ r. Entries g (guard_at (left_by d r).guards l u) n) site text s listing
      code now d (λ e own. h)
      (λ method version minted user users texts.
        submitting-Entries site text s listing method version code now minted user
          (record d { users = users; consent_texts = texts }) d l u g n refl h)

step-Entries :
    (site : Site) (text : Text) (l u : ℕ) (d : Desk) (command : CodeCommand) (g : Guard) (n : ℕ)
    → Entries g (guard_at d.guards l u) n
    → Entries g
        (guard_at (step site text d command).guards l u)
        (n + wrong_entry site l u d command)
unfolding wrong_entry
step-Entries site text l u d (submit s listing code now) g n h =
    recount (omega arith) (submit-Entries site text l u d s listing code now g n h)
step-Entries site text l u d (enter code pk now) g n h =
    enter-Entries site text l u d code pk now g n h
step-Entries site text l u d (resend code pk now) g n h =
    recount (omega arith) (resend-Entries site text l u d code pk now g n h)

run-Entries :
    (site : Site) (text : Text) (l u : ℕ) (d : Desk) (commands : List CodeCommand) (g : Guard)
    (n : ℕ)
    → Entries g (guard_at d.guards l u) n
    → Entries g
        (guard_at (run site text d commands).guards l u)
        (n + wrong_entries_of site text l u d commands)
unfolding run wrong_entries_of
run-Entries site text l u d [] g n h = recount (omega arith) h
run-Entries site text l u d (command ∷ commands) g n h = recount (omega arith) (
    run-Entries site text l u (step site text d command) commands g _
      (step-Entries site text l u d command g n h))

-- Whatever claims visitors submit and whatever codes they ask for and enter, on any claims, at any times and in any order, the guard of a pair
-- moves as the machine of a guard does, one wrong entry of the machine for each wrong entry that a
-- command counts on a claim of that pair.
pub run-refines :
    (site : Site) (text : Text) (l u : ℕ) (d : Desk) (commands : List CodeCommand)
    → Entries
        (guard_at d.guards l u)
        (guard_at (run site text d commands).guards l u)
        (wrong_entries_of site text l u d commands)
run-refines site text l u d commands =
    recount (omega arith) (run-Entries site text l u d commands _ 0 (start refl refl))

-- On a desk with no guard of a pair yet, no sequence of submissions, of requests for a code and of entries of one
-- gets more than fifteen wrong entries counted on the claims of that pair.
pub wrong_entries_of_le :
    (site : Site) (text : Text) (l u : ℕ) (d : Desk) (commands : List CodeCommand)
    → guard_of d.guards l u ≡ none
    → wrong_entries_of site text l u d commands ≤ 15
wrong_entries_of_le site text l u d commands h =
    let e : guard_at d.guards l u ≡ new_guard l u = rw (h, guard_at) in
    (guesses_bounded l u _ _ (rw e at (run-refines site text l u d commands))).0
