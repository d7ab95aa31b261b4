-- ===== src/Directory/Claims/Steps.antt =====
-- One command that sends or enters a code, against the machine of a pair's guard
-- (directory/services.py `_apply_start_verification`, `_apply_verify_claim_code`).
use osds.Prelude.{
  ℕ, ◌≡◌, refl, ◌+◌, String, Bool, true, false, not, Option, none, some, inl, inr, Bool-cases,
  Option-cases, Result-cases, List, arith, ◌==◌, ◌&&◌, if◌then◌else◌, ==_iff, ok,
}
use osds.Directory.Claims.State.{Claim, Listing, Guard, ReviewReason, Desk}
use osds.Directory.Claims.Tables.{Site, claim_of, listing_of, lock_guard}
use osds.Directory.Claims.Eligibility.{Text}
use osds.Directory.Claims.Start.{
  apply_start, state_check, starting, sending, send_check, StartResult, sent_guard,
}
use osds.Directory.Claims.Verify.{apply_verify, verify_check, wrong_guard, entering}
use osds.Directory.Claims.Codes.{enter, resend, step, on_pair, wrong_entry}
use osds.Directory.Claims.Guards.{guard_at, lock_guard-Locked}
use osds.Directory.Claims.Frames.{
  enter_right-guards, enter_wrong-guards, flip_claim-guards, send_code-guards, save_locked,
}
use osds.Directory.Claims.Guesses.{Entries, wrong, send}

on_pair_of :
    (d : Desk) (pk l u : ℕ) {c : Claim}
    → claim_of d pk ≡ some c
    → on_pair d pk l u ≡ (c.listing == l && c.claimant.pk == u)
on_pair_of d pk l u h = rw (h, on_pair)

pub recount : {g h : Guard} {n m : ℕ} → m ≡ n → Entries g h n → Entries g h m
recount e h = rw e h

-- what is known of a pair's guard holds of the one that is locked for it
on_locked :
    (guards : List Guard) (l u : ℕ) (g : Guard) (n l' u' : ℕ)
    → (l == l' && u == u') ≡ true
    → Entries g (guard_at guards l' u') n
    → Entries g (lock_guard guards l u).1 n
on_locked guards l u g n l' u' e h =
    let p : l ≡ l' = ground (arith, ==_iff l l') in
    let q : u ≡ u' = ground (arith, ==_iff u u') in
    rw ((lock_guard-Locked guards l u).gives, p, q) h

wrong_guard-listing : (g : Guard) (now : ℕ) → (wrong_guard g now).listing ≡ g.listing
unfolding wrong_guard
wrong_guard-listing g now = ground arith

wrong_guard-claimant : (g : Guard) (now : ℕ) → (wrong_guard g now).claimant ≡ g.claimant
unfolding wrong_guard
wrong_guard-claimant g now = ground arith

sent_guard-listing : (g : Guard) (now : ℕ) → (sent_guard g now).listing ≡ g.listing
unfolding sent_guard
sent_guard-listing g now = refl

sent_guard-claimant : (g : Guard) (now : ℕ) → (sent_guard g now).claimant ≡ g.claimant
unfolding sent_guard
sent_guard-claimant g now = refl

entering_right :
    (right : Bool) (site : Site) (c : Claim) (listing : Listing) (g : Guard) (now : ℕ) (d : Desk)
    → (entering right site c listing g now d).1 ≡ right
unfolding entering
entering_right true site c listing g now d = refl
entering_right false site c listing g now d = refl

entering-Entries :
    (site : Site) (c : Claim) (listing : Listing) (l u : ℕ) (d : Desk) (right : Bool) (now : ℕ)
    (hash : String) (g : Guard) (n : ℕ)
    → verify_check c (lock_guard d.guards c.listing c.claimant.pk).1 now ≡ ok hash
    → Entries g (guard_at d.guards l u) n
    → Entries g
        (guard_at
          (entering right site c listing
            (lock_guard d.guards c.listing c.claimant.pk).1
            now
            (record d { guards = (lock_guard d.guards c.listing c.claimant.pk).0 })).0.guards
          l
          u)
        (n + (if not right && (c.listing == l && c.claimant.pk == u) then 1 else 0))
unfolding entering
entering-Entries site c listing l u d true now hash g n v h =
    rw
      (entering, enter_right-guards, (lock_guard-Locked d.guards c.listing c.claimant.pk).keeps l u)
      (recount (omega arith) h)
entering-Entries site c listing l u d false now hash g n v h =
    let locked = lock_guard-Locked d.guards c.listing c.claimant.pk in
    rw
      (
        entering,
        enter_wrong-guards,
        save_locked d.guards c.listing c.claimant.pk
            (wrong_guard (lock_guard d.guards c.listing c.claimant.pk).1 now) l u
            (rw (wrong_guard-listing, locked.listed))
            (rw (wrong_guard-claimant, locked.of_claimant)),
      )
      (elim (Bool-cases (c.listing == l && c.claimant.pk == u)) [
        | inl e ↦ rw e (
            wrong (on_locked d.guards c.listing c.claimant.pk g n l u e h) c now hash v refl
              (omega arith))
        | inr e ↦ rw e (recount (omega arith) h)
      ])

pub enter-Entries :
    (site : Site) (text : Text) (l u : ℕ) (d : Desk) (code : String) (pk now : ℕ) (g : Guard)
    (n : ℕ)
    → Entries g (guard_at d.guards l u) n
    → Entries g
        (guard_at (step site text d (enter code pk now)).guards l u)
        (n + wrong_entry site l u d (enter code pk now))
unfolding step wrong_entry
enter-Entries site text l u d code pk now g n h = elim (Option-cases (claim_of d pk)) [
  | inl e ↦ rw (e, step, wrong_entry, apply_verify) (recount (omega arith) h)
  | inr (c, e) ↦ elim (Option-cases (listing_of d c.listing)) [
    | inl f ↦ rw (e, f, step, wrong_entry, apply_verify) (recount (omega arith) h)
    | inr (listing, f) ↦
        elim (Result-cases (verify_check c (lock_guard d.guards c.listing c.claimant.pk).1 now)) [
          | inr (r, v) ↦ rw (e, f, v, step, wrong_entry, apply_verify) (recount (omega arith) h)
          | inl (hash, v) ↦
              rw (e, f, v, step, wrong_entry, apply_verify, entering_right, on_pair_of d pk l u e)
                (entering-Entries site c listing l u d _ now hash g n v h)
        ]
  ]
]

sending-Entries :
    (site : Site) (code : String) (c : Claim) (l u : ℕ) (d : Desk) (now : ℕ) (result : StartResult)
    (g : Guard) (n : ℕ)
    → send_check (lock_guard d.guards c.listing c.claimant.pk).1 now ≡ result
    → Entries g (guard_at d.guards l u) n
    → Entries g
        (guard_at
          (sending site code c
            (lock_guard d.guards c.listing c.claimant.pk).1
            now
            (record d { guards = (lock_guard d.guards c.listing c.claimant.pk).0 })
            result).0.guards
          l
          u)
        n
unfolding sending
sending-Entries site code c l u d now StartResult.sent g n v h =
    let locked = lock_guard-Locked d.guards c.listing c.claimant.pk in
    rw
      (
        send_code-guards,
        save_locked d.guards c.listing c.claimant.pk
            (sent_guard (lock_guard d.guards c.listing c.claimant.pk).1 now) l u
            (rw (sent_guard-listing, locked.listed)) (rw (sent_guard-claimant, locked.of_claimant)),
      )
      (elim (Bool-cases (c.listing == l && c.claimant.pk == u)) [
        | inl e ↦ rw e (send (on_locked d.guards c.listing c.claimant.pk g n l u e h) now v refl)
        | inr e ↦ rw e h
      ])
sending-Entries site code c l u d now StartResult.ineligible g n v h =
    rw ((lock_guard-Locked d.guards c.listing c.claimant.pk).keeps l u) h
sending-Entries site code c l u d now StartResult.cooldown g n v h =
    rw ((lock_guard-Locked d.guards c.listing c.claimant.pk).keeps l u) h
sending-Entries site code c l u d now StartResult.cap g n v h =
    rw ((lock_guard-Locked d.guards c.listing c.claimant.pk).keeps l u) h

starting-Entries :
    (site : Site) (code : String) (c : Claim) (l u : ℕ) (d : Desk) (now : ℕ)
    (reason : Option ReviewReason) (g : Guard) (n : ℕ)
    → Entries g (guard_at d.guards l u) n
    → Entries g
        (guard_at
          (starting site code c
            (lock_guard d.guards c.listing c.claimant.pk).1
            now
            (record d { guards = (lock_guard d.guards c.listing c.claimant.pk).0 })
            reason).0.guards
          l
          u)
        n
unfolding starting
starting-Entries site code c l u d now none g n h =
    sending-Entries site code c l u d now _ g n refl h
starting-Entries site code c l u d now (some reason) g n h =
    rw (flip_claim-guards, (lock_guard-Locked d.guards c.listing c.claimant.pk).keeps l u) h

pub resend-Entries :
    (site : Site) (text : Text) (l u : ℕ) (d : Desk) (code : String) (pk now : ℕ) (g : Guard)
    (n : ℕ)
    → Entries g (guard_at d.guards l u) n
    → Entries g (guard_at (step site text d (resend code pk now)).guards l u) n
unfolding step apply_start
resend-Entries site text l u d code pk now g n h = elim (Option-cases (claim_of d pk)) [
  | inl e ↦ rw (e, step, apply_start) h
  | inr (c, e) ↦ elim (Option-cases (listing_of d c.listing)) [
    | inl f ↦ rw (e, f, step, apply_start) h
    | inr (listing, f) ↦ elim (Result-cases (state_check c)) [
      | inr (r, v) ↦ rw (e, f, v, step, apply_start) h
      | inl (tt, v) ↦
          rw (e, f, v, step, apply_start) (starting-Entries site code c l u d now _ g n h)
    ]
  ]
]
