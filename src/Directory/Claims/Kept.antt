-- ===== src/Directory/Claims/Kept.antt =====
-- Sending and entering a code keep the owners of the listings sound (directory/services.py).
use osds.Prelude.{
  ℕ, ◌≡◌, refl, String, Bool, true, false, Option, none, some, arith, inl, inr, Bool-cases, Result,
  ok, err, Option-cases, Result-cases,
}
use osds.Directory.Claims.State.{
  ClaimStatus, Claim, Guard, Listing, FailReason, ReviewReason, Desk, is_claim_status,
  is_open_claim,
}
use osds.Directory.Claims.Tables.{Site, claim_of, save_claim, listing_of, lock_guard}
use osds.Directory.Claims.Start.{
  StartResult, state_check, flip_claim, send_code, sending, starting, apply_start, flipped,
}
use osds.Directory.Claims.Eligibility.{Text}
use osds.Directory.Claims.Verify.{
  wrong_claim, wrong_reason, enter_wrong, enter_right, entering, verify_check, apply_verify,
}
use osds.Directory.Claims.Sound.{is_approved, save_claim-Sound}
use osds.Directory.Claims.Owned.{
  SoundDesk, Sound-cong, resolve_verified_claim-Sound, notify_unless_disputed-claims,
  notify_unless_disputed-listings, queue_lock-claims, queue_lock-listings,
}

-- a result whose desk is sound, if it has one
abbrev pub Keeps : {E A : Type 0} → (A → Desk) → Result E A → Type 0
Keeps f (ok a) = SoundDesk (f a)
Keeps f (err e) = Unit {0}

open_is_not_approved : (c : Claim) → is_open_claim c.status ≡ true → is_approved c ≡ false
open_is_not_approved c h = ground arith

state_check-open : (c : Claim) {u : Unit {0}} → state_check c ≡ ok u → is_approved c ≡ false
unfolding state_check
state_check-open c h = ground arith

verify_check-open :
    (c : Claim) (g : Guard) (now : ℕ) {hash : String}
    → verify_check c g now ≡ ok hash
    → is_approved c ≡ false
unfolding verify_check state_check
verify_check-open c g now h = ground arith

flip_claim-Sound :
    (site : Site) (c : Claim) (reason : ReviewReason) (now : ℕ) (d : Desk)
    → is_approved c ≡ false
    → SoundDesk d
    → SoundDesk (flip_claim site c reason now d)
unfolding flip_claim
flip_claim-Sound site c reason now d h s =
    Sound-cong (rw notify_unless_disputed-claims) (rw notify_unless_disputed-listings)
      (save_claim-Sound (flipped c reason) d.claims d.listings h s)

sending-Sound :
    (site : Site) (code : String) (c : Claim) (g : Guard) (now : ℕ) (d : Desk)
    (result : StartResult)
    → is_approved c ≡ false
    → SoundDesk d
    → SoundDesk (sending site code c g now d result).0
unfolding sending send_code
sending-Sound site code c g now d StartResult.sent h s = save_claim-Sound _ d.claims d.listings h s
sending-Sound site code c g now d StartResult.ineligible h s = s
sending-Sound site code c g now d StartResult.cooldown h s = s
sending-Sound site code c g now d StartResult.cap h s = s

starting-Sound :
    (site : Site) (code : String) (c : Claim) (g : Guard) (now : ℕ) (d : Desk)
    (reason : Option ReviewReason)
    → is_approved c ≡ false
    → SoundDesk d
    → SoundDesk (starting site code c g now d reason).0
unfolding starting
starting-Sound site code c g now d none h s = sending-Sound site code c g now d _ h s
starting-Sound site code c g now d (some reason) h s = flip_claim-Sound site c reason now d h s

pub apply_start-Keeps :
    (site : Site) (text : Text) (code : String) (pk now : ℕ) (d : Desk)
    → SoundDesk d
    → Keeps (λ x. x.0) (apply_start site text code pk now d)
unfolding apply_start
apply_start-Keeps site text code pk now d s = elim (Option-cases (claim_of d pk)) [
  | inl e ↦ rw (e, apply_start) tt
  | inr (c, e) ↦ elim (Option-cases (listing_of d c.listing)) [
    | inl f ↦ rw (e, f, apply_start) tt
    | inr (l, f) ↦ elim (Result-cases (state_check c)) [
      | inr (r, k) ↦ rw (e, f, k, apply_start) tt
      | inl (u, k) ↦
          rw (e, f, k, apply_start)
            (starting-Sound site code c (lock_guard d.guards c.listing c.claimant.pk).1 now
              (record d { guards = (lock_guard d.guards c.listing c.claimant.pk).0 }) _
              (state_check-open c k) s)
    ]
  ]
]

wrong_claim-status : (c : Claim) (reason : FailReason) → (wrong_claim c reason).status ≡ c.status
unfolding wrong_claim
wrong_claim-status c FailReason.locked = refl
wrong_claim-status c FailReason.cooldown = refl
wrong_claim-status c FailReason.wrong_code = refl
wrong_claim-status c FailReason.ineligible = refl

entering-Sound :
    (right : Bool) (site : Site) (c : Claim) (l : Listing) (g : Guard) (now : ℕ) (d : Desk)
    → is_approved c ≡ false
    → listing_of d c.listing ≡ some l
    → SoundDesk d
    → SoundDesk (entering right site c l g now d).0
unfolding entering enter_right enter_wrong
entering-Sound true site c l g now d h e s =
    let c' : Claim = record c { verified_at = some now; code_hash = none } in
    let saved = save_claim-Sound c' d.claims d.listings h s in
    elim (Bool-cases (is_claim_status c.status ClaimStatus.disputed)) [
      | inl k ↦ rw (k, enter_right) saved
      | inr k ↦
          rw (k, enter_right)
            (resolve_verified_claim-Sound site c' l now
              (record d { claims = save_claim c' d.claims }) e saved)
    ]
entering-Sound false site c l g now d h e s =
    Sound-cong (rw queue_lock-claims) (rw queue_lock-listings) (
      save_claim-Sound (wrong_claim c (wrong_reason g)) d.claims d.listings
        (rw (wrong_claim-status, h)) s)

pub apply_verify-Keeps :
    (site : Site) (code : String) (pk now : ℕ) (d : Desk)
    → SoundDesk d
    → Keeps (λ x. x.0) (apply_verify site code pk now d)
unfolding apply_verify
apply_verify-Keeps site code pk now d s = elim (Option-cases (claim_of d pk)) [
  | inl e ↦ rw (e, apply_verify) tt
  | inr (c, e) ↦ elim (Option-cases (listing_of d c.listing)) [
    | inl f ↦ rw (e, f, apply_verify) tt
    | inr (l, f) ↦
        elim (Result-cases (verify_check c (lock_guard d.guards c.listing c.claimant.pk).1 now)) [
          | inr (r, k) ↦ rw (e, f, k, apply_verify) tt
          | inl (hash, k) ↦
              rw (e, f, k, apply_verify)
                (entering-Sound _ site c l (lock_guard d.guards c.listing c.claimant.pk).1 now
                  (record d { guards = (lock_guard d.guards c.listing c.claimant.pk).0 })
                  (verify_check-open c (lock_guard d.guards c.listing c.claimant.pk).1 now k) f s)
        ]
  ]
]
