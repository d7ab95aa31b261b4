-- ===== src/Directory/Claims/Submitted.antt =====
-- What a submission keeps, and that the start which it calls is not refused (directory/services.py
-- `_apply_submit_claim`).
use osds.Prelude.{
  ℕ, ◌≡◌, ◌≢◌, refl, String, Bool, true, false, some, List, [], ◌∷◌, ◌++◌, any, all, find, length,
  ltb, arith, ==_refl, Result, ok, err, is_ok, inl, inr, Bool-cases, Option-cases, Result-cases,
}
use text.Mathlib.Text.{◌==◌ as str_eq}
use osds.Billing.Model.{claimed, Owner}
use osds.Audit.Actor.{visitor}
use osds.Directory.Claims.State.{
  Method, ReviewReason, Claim, Listing, User, ConsentText, Desk, is_domain_email, is_manual,
}
use osds.Directory.Claims.Tables.{Site, has_pk, claim_of, listing_of, guard_of}
use osds.Directory.Claims.Eligibility.{Text}
use osds.Directory.Claims.Approve.{is_listing_status}
use osds.Directory.Claims.Start.{VerificationRefusal, Started, state_check, apply_start}
use osds.Directory.Claims.Submit.{
  Submission, SubmitRefusal, is_own, new_claim, not_started, method_of, enabled_claim_methods,
  consent_channels, consent_check, is_channel, match_or_create_user, is_blocked, lift_start,
  start_submitted, route_submitted, create_claim, submitting, apply_submit,
}
use osds.Directory.Claims.Sound.{Sound, is_approved, is_sole, is_backed}
use osds.Directory.Claims.Owned.{
  SoundDesk, Sound-cong, dispute-Sound, notify_operators-claims, notify_operators-listings,
}
use osds.Directory.Claims.Kept.{Keeps, apply_start-Keeps}

all_append :
    (test : Claim → Bool) (claims : List Claim) (c : Claim)
    → all test claims ≡ true
    → test c ≡ true
    → all test (claims ++ c ∷ []) ≡ true
all_append test [] c h t = ground arith
all_append test (row ∷ claims) c h t = ground (arith, all_append test claims c)

append-Sound :
    (c : Claim) (claims : List Claim) (listings : List Listing)
    → is_approved c ≡ false
    → Sound claims listings
    → Sound (claims ++ c ∷ []) listings
append-Sound c claims listings h s = record {
  winner = s.winner;
  sole = all_append (is_sole s.winner) claims c s.sole (rw h);
  backed = all_append (is_backed listings) claims c s.backed (rw h);
}

create_claim-Sound :
    (site : Site) (text : Text) (s : Submission) (l : Listing) (method : Method) (version : String)
    (now : ℕ) (minted : Bool) (user : User) (d : Desk)
    → SoundDesk d
    → SoundDesk (create_claim site text s l method version now minted user d).0
unfolding create_claim
create_claim-Sound site text s l method version now true user d h =
    append-Sound _ d.claims d.listings refl h
create_claim-Sound site text s l method version now false user d h =
    append-Sound _ d.claims d.listings refl h

route_submitted-Sound :
    (site : Site) (l : Listing) (owner : Owner) (now : ℕ) (d : Desk) (c : Claim)
    → SoundDesk d
    → SoundDesk (route_submitted site l owner now d c)
unfolding route_submitted
route_submitted-Sound site l owner now d c h =
    elim (Bool-cases (is_listing_status l.status claimed)) [
      | inl e ↦ rw (e, route_submitted) (dispute-Sound site c (visitor owner.public_id) now d h)
      | inr e ↦ elim (Bool-cases (is_manual c.method)) [
        | inl f ↦
            rw (e, f, route_submitted)
              (Sound-cong (rw notify_operators-claims) (rw notify_operators-listings) h)
        | inr f ↦ rw (e, f, route_submitted) h
      ]
    ]

lift_start-Keeps :
    (r : Result VerificationRefusal Started) → Keeps (λ x. x.0) r → Keeps (λ x. x.0) (lift_start r)
lift_start-Keeps (ok (d, c, result, event)) k = k
lift_start-Keeps (err why) k = tt

start_submitted-Keeps :
    (test : Bool) (site : Site) (text : Text) (code : String) (now : ℕ) (c : Claim) (d : Desk)
    → SoundDesk d
    → Keeps (λ x. x.0) (start_submitted test site text code now c d)
unfolding start_submitted
start_submitted-Keeps true site text code now c d h =
    lift_start-Keeps (apply_start site text code c.pk now d)
      (apply_start-Keeps site text code c.pk now d h)
start_submitted-Keeps false site text code now c d h = h

submitting-Keeps :
    (site : Site) (text : Text) (s : Submission) (l : Listing) (method : Method)
    (version code : String) (now : ℕ) (minted : Bool) (user : User) (d : Desk)
    → SoundDesk d
    → Keeps (λ x. x.0) (submitting site text s l method version code now minted user d)
unfolding submitting
submitting-Keeps site text s l method version code now minted user d h =
    let made = create_claim site text s l method version now minted user d in
    let start = start_submitted (is_domain_email made.1.method) site text code now made.1 made.0 in
    let kept =
      start_submitted-Keeps (is_domain_email made.1.method) site text code now made.1 made.0
        (create_claim-Sound site text s l method version now minted user d h) in
    elim (Result-cases start) [
      | inr (why, e) ↦ rw (e, submitting) tt
      | inl (x, e) ↦
          rw (e, submitting) (route_submitted-Sound site l user.owner now x.0 x.1 (rw e at kept))
    ]

-- the claims' keys are below the next one
abbrev is_old : ℕ → Claim → Bool
is_old n c = ltb c.pk n

find_new :
    (n : ℕ) (claims : List Claim) (c : Claim)
    → all (is_old n) claims ≡ true
    → c.pk ≡ n
    → find (has_pk n) (claims ++ c ∷ []) ≡ some c
find_new n [] c h e = ground (arith, ==_refl n)
find_new n (row ∷ claims) c h e = ground (arith, find_new n claims c)

apply_start-ok :
    (site : Site) (text : Text) (code : String) (pk now : ℕ) (d : Desk) {c : Claim} {l : Listing}
    → claim_of d pk ≡ some c
    → listing_of d c.listing ≡ some l
    → state_check c ≡ ok tt
    → is_ok (apply_start site text code pk now d) ≡ true
unfolding apply_start
apply_start-ok site text code pk now d e f k = rw (e, f, k, apply_start)

new_claim_checked :
    (pk listing : ℕ) (owner : Owner) (method requested : Method) (reason : ReviewReason)
    → is_domain_email method ≡ true
    → state_check (new_claim pk listing owner method requested reason) ≡ ok tt
unfolding state_check
new_claim_checked pk listing owner method requested reason e = ground arith

-- the new claim is in the table, on the listing that was asked for, and may be proved by mail if that is
-- its method
create_claim-made :
    (site : Site) (text : Text) (s : Submission) (l : Listing) (method : Method) (version : String)
    (now : ℕ) (minted : Bool) (user : User) (d : Desk)
    → all (is_old (length d.claims)) d.claims ≡ true
    → let made = create_claim site text s l method version now minted user d in
      (claim_of made.0 made.1.pk ≡ some made.1)
      × (made.0.listings ≡ d.listings)
      × (made.1.listing ≡ l.pk)
      × (is_domain_email made.1.method ≡ true → state_check made.1 ≡ ok tt)
unfolding create_claim
create_claim-made site text s l method version now true user d k = (
  find_new (length d.claims) d.claims _ k refl,
  refl,
  refl,
  λ e. new_claim_checked _ l.pk _ _ method _ e,
)
create_claim-made site text s l method version now false user d k = (
  find_new (length d.claims) d.claims _ k refl,
  refl,
  refl,
  λ e. new_claim_checked _ l.pk _ _ method _ e,
)

submitting-ok :
    (site : Site) (text : Text) (s : Submission) (l : Listing) (method : Method)
    (version code : String) (now : ℕ) (minted : Bool) (user : User) (d : Desk) {row : Listing}
    → listing_of d l.pk ≡ some row
    → all (is_old (length d.claims)) d.claims ≡ true
    → is_ok (submitting site text s l method version code now minted user d) ≡ true
unfolding submitting start_submitted
submitting-ok site text s l method version code now minted user d {row = row} e k =
    let made = create_claim site text s l method version now minted user d in
    let (found, same, on, checked) =
      create_claim-made site text s l method version now minted user d k in
    elim (Bool-cases (is_domain_email made.1.method)) [
      | inr f ↦ rw (f, submitting, start_submitted)
      | inl f ↦
          let a =
            apply_start-ok site text code made.1.pk now made.0 {l = row} found (rw (same, on) e)
              (checked f) in
          elim (Result-cases (apply_start site text code made.1.pk now made.0)) [
            | inl (x, r) ↦ rw (f, r, submitting, start_submitted)
            | inr (why, r) ↦ cc (a, r)
          ]
    ]

consent_check-own :
    (consent : List (String × Bool)) (channels : List String) {e : SubmitRefusal}
    → consent_check consent channels ≡ err e
    → is_own e ≡ true
unfolding consent_check
consent_check-own consent [] h = cc
consent_check-own consent (channel ∷ channels) {e = e} h =
    elim (Bool-cases (any (is_channel channel) consent)) [
      | inl t ↦ consent_check-own consent channels {e = e} (rw (t, consent_check) at h)
      | inr t ↦ cc (rw (t, consent_check) at h)
    ]

-- what holds of the refusals of a submission and of its writes holds of the submission
pub apply_submit-ends :
    (P : Result SubmitRefusal (Desk × Claim × ℕ) → Type 0) (site : Site) (text : Text)
    (s : Submission) (l : Listing) (code : String) (now : ℕ) (d : Desk)
    → ((e : SubmitRefusal) → is_own e ≡ true → P (err e))
    → ((method : Method) (version : String) (minted : Bool) (user : User) (users : List User)
          (texts : List ConsentText)
        → P (
            submitting site text s l method version code now minted user
              (record d { users = users; consent_texts = texts })))
    → P (apply_submit site text s l code now d)
unfolding apply_submit
apply_submit-ends P site text s l code now d refuse go = elim (Option-cases (method_of s.method)) [
  | inl e ↦ rw (e, apply_submit) (refuse _ refl)
  | inr (method, e) ↦ elim (Bool-cases (any (str_eq s.method) (enabled_claim_methods site))) [
    | inr e2 ↦ rw (e, e2, apply_submit) (refuse _ refl)
    | inl e2 ↦ elim (Result-cases (consent_check s.consent consent_channels)) [
      | inr (why, e3) ↦
          rw (e, e2, e3, apply_submit)
            (refuse why (consent_check-own s.consent consent_channels e3))
      | inl (u, e3) ↦
          elim (Bool-cases (
            is_blocked
              (guard_of d.guards l.pk (match_or_create_user d.users s.claimant).1.owner.pk))) [
                | inl e4 ↦ rw (e, e2, e3, e4, apply_submit) (refuse _ refl)
                | inr e4 ↦ rw (e, e2, e3, e4, apply_submit) (go _ _ _ _ _ _)
              ]
    ]
  ]
]

pub apply_submit-Keeps :
    (site : Site) (text : Text) (s : Submission) (l : Listing) (code : String) (now : ℕ) (d : Desk)
    → SoundDesk d
    → Keeps (λ x. x.0) (apply_submit site text s l code now d)
apply_submit-Keeps site text s l code now d h =
    apply_submit-ends (Keeps (λ x. x.0)) site text s l code now d (λ e own. tt)
      (λ method version minted user users texts.
        submitting-Keeps site text s l method version code now minted user
          (record d { users = users; consent_texts = texts }) h)

-- A submission on a listing that is in the table, with claim keys below their number, is never refused
-- by the start of a verification that it calls.
pub apply_submit-ne-not_started :
    (site : Site) (text : Text) (s : Submission) (l : Listing) (code : String) (now : ℕ) (d : Desk)
    (why : VerificationRefusal) {row : Listing}
    → listing_of d l.pk ≡ some row
    → all (is_old (length d.claims)) d.claims ≡ true
    → apply_submit site text s l code now d ≢ err (not_started why)
apply_submit-ne-not_started site text s l code now d why {row = row} e k =
    apply_submit-ends (λ r. r ≢ err (not_started why)) site text s l code now d
      (λ e' own h. cc (own, h))
      (λ method version minted user users texts h.
        let a =
          submitting-ok site text s l method version code now minted user
            (record d { users = users; consent_texts = texts }) {row = row} e k in
        cc (a, h))
