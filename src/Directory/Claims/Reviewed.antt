-- ===== src/Directory/Claims/Reviewed.antt =====
-- The operators' decisions keep the owners of the listings sound (directory/claim_review.py).
use osds.Prelude.{
  ℕ, ◌≡◌, refl, String, Bool, true, false, ◌&&◌, not, Option, some, arith, inl, inr, Bool-cases,
  Option-cases,
}
use text.Mathlib.Text.{◌==◌ as str_eq}
use osds.Audit.Actor.{Actor}
use osds.Billing.Model.{claimed, suspended}
use osds.Tenants.Staff.{Membership, editor_role, moderator_role}
use osds.Directory.Claims.State.{
  pending_verification, Claim, Guard, ItemType, Listing, Decision, Desk, is_claim_status,
  is_open_claim, is_open, is_item_type,
}
use osds.Directory.Claims.Tables.{Site, claim_of, listing_of, lock_guard}
use osds.Directory.Claims.Items.{decide_item}
use osds.Directory.Claims.Approve.{Manual, is_listing_status}
use osds.Directory.Claims.Decide.{
  Approval, decide_approval, apply_approve, apply_reject, apply_queue_command, has_role,
  manual_method_of, item_of, rejected_row, is_blocking, queue_block, reject_claim_row,
}
use osds.Directory.Claims.Sound.{
  is_approved, save_claim-Sound, decide_claim_item-claims, decide_claim_item-listings,
}
use osds.Directory.Claims.Owned.{
  SoundDesk, Sound-cong, dispute-Sound, approve-Sound, open_item-claims, open_item-listings,
}
use osds.Directory.Claims.Kept.{Keeps}

open_claim : (c : Claim) → is_open_claim c.status ≡ true → is_approved c ≡ false
open_claim c h = ground arith

decide_approval-Keeps :
    (site : Site) (c : Claim) (l : Listing) (m : Manual) (transfer : Bool) (actor : Actor) (now : ℕ)
    (d : Desk)
    → listing_of d c.listing ≡ some l
    → SoundDesk d
    → Keeps (λ x. x.0) (decide_approval site c l m transfer actor now d)
unfolding decide_approval
decide_approval-Keeps site c l m transfer actor now d e s =
    elim (Bool-cases
      (is_claim_status c.status pending_verification && is_listing_status l.status claimed)) [
        | inl h ↦ rw (h, decide_approval) (dispute-Sound site c actor now d s)
        | inr h ↦ elim (Bool-cases (is_listing_status l.status claimed && not transfer)) [
          | inl k ↦ rw (h, k, decide_approval) tt
          | inr k ↦ rw (h, k, decide_approval) (approve-Sound site c l (some m) actor now d e s)
        ]
      ]

pub apply_approve-Keeps :
    (site : Site) (pk operator : ℕ) (m : Option Membership) (actor : Actor) (a : Approval) (now : ℕ)
    (d : Desk)
    → SoundDesk d
    → Keeps (λ x. x.0) (apply_approve site pk operator m actor a now d)
unfolding apply_approve
apply_approve-Keeps site pk operator m actor a now d s =
    elim (Bool-cases (has_role editor_role m)) [
      | inr e ↦ rw (e, apply_approve) tt
      | inl e ↦ elim (Bool-cases (str_eq (site.strip a.notes) "")) [
        | inl e2 ↦ rw (e, e2, apply_approve) tt
        | inr e2 ↦ elim (Option-cases (manual_method_of a.method_used)) [
          | inl e3 ↦ rw (e, e2, e3, apply_approve) tt
          | inr (method_used, e3) ↦ elim (Option-cases (claim_of d pk)) [
            | inl e4 ↦ rw (e, e2, e3, e4, apply_approve) tt
            | inr (c, e4) ↦ elim (Bool-cases (is_open_claim c.status)) [
              | inr e5 ↦ rw (e, e2, e3, e4, e5, apply_approve) tt
              | inl e5 ↦ elim (Option-cases (listing_of d c.listing)) [
                | inl e6 ↦ rw (e, e2, e3, e4, e5, e6, apply_approve) tt
                | inr (l, e6) ↦ elim (Bool-cases (is_listing_status l.status suspended)) [
                  | inl e7 ↦ rw (e, e2, e3, e4, e5, e6, e7, apply_approve) tt
                  | inr e7 ↦
                      rw (e, e2, e3, e4, e5, e6, e7, apply_approve)
                        (decide_approval-Keeps site c l _ a.transfer actor now d e6 s)
                ]
              ]
            ]
          ]
        ]
      ]
    ]

reject_claim_row-Sound :
    (site : Site) (c : Claim) (g : Guard) (operator : ℕ) (reason : String) (actor : Actor) (now : ℕ)
    (d : Desk)
    → SoundDesk d
    → SoundDesk (reject_claim_row site c g operator reason actor now d)
unfolding reject_claim_row queue_block
reject_claim_row-Sound site c g operator reason actor now d s =
    let rows = save_claim-Sound (rejected_row c operator reason now) d.claims d.listings refl s in
    elim (Bool-cases (is_blocking g)) [
      | inl e ↦
          rw (e, queue_block)
            (Sound-cong (rw (open_item-claims, decide_claim_item-claims))
              (rw (open_item-listings, decide_claim_item-listings)) rows)
      | inr e ↦
          rw (e, queue_block)
            (Sound-cong (rw decide_claim_item-claims) (rw decide_claim_item-listings) rows)
    ]

pub apply_reject-Keeps :
    (site : Site) (pk operator : ℕ) (m : Option Membership) (actor : Actor) (text : String)
    (now : ℕ) (d : Desk)
    → SoundDesk d
    → Keeps (λ x. x.0) (apply_reject site pk operator m actor text now d)
unfolding apply_reject
apply_reject-Keeps site pk operator m actor text now d s =
    elim (Bool-cases (has_role editor_role m)) [
      | inr e ↦ rw (e, apply_reject) tt
      | inl e ↦ elim (Bool-cases (str_eq (site.strip text) "")) [
        | inl e2 ↦ rw (e, e2, apply_reject) tt
        | inr e2 ↦ elim (Option-cases (claim_of d pk)) [
          | inl e3 ↦ rw (e, e2, e3, apply_reject) tt
          | inr (c, e3) ↦ elim (Bool-cases (is_open_claim c.status)) [
            | inr e4 ↦ rw (e, e2, e3, e4, apply_reject) tt
            | inl e4 ↦
                rw (e, e2, e3, e4, apply_reject)
                  (reject_claim_row-Sound site c (lock_guard d.guards c.listing c.claimant.pk).1
                    operator (site.strip text) actor now
                    (record d { guards = (lock_guard d.guards c.listing c.claimant.pk).0 }) s)
          ]
        ]
      ]
    ]

pub apply_queue_command-Keeps :
    (site : Site) (pk operator : ℕ) (m : Option Membership) (actor : Actor) (text : String)
    (t : ItemType) (decision : Decision) (now : ℕ) (d : Desk)
    → SoundDesk d
    → Keeps (λ x. x.0) (apply_queue_command site pk operator m actor text t decision now d)
unfolding apply_queue_command decide_item
apply_queue_command-Keeps site pk operator m actor text t decision now d s =
    elim (Bool-cases (has_role moderator_role m)) [
      | inr e ↦ rw (e, apply_queue_command) tt
      | inl e ↦ elim (Bool-cases (str_eq (site.strip text) "")) [
        | inl e2 ↦ rw (e, e2, apply_queue_command) tt
        | inr e2 ↦ elim (Option-cases (item_of d pk)) [
          | inl e3 ↦ rw (e, e2, e3, apply_queue_command) tt
          | inr (i, e3) ↦ elim (Bool-cases (is_item_type i.item_type t)) [
            | inr e4 ↦ rw (e, e2, e3, e4, apply_queue_command) tt
            | inl e4 ↦ elim (Bool-cases (is_open i.status)) [
              | inr e5 ↦ rw (e, e2, e3, e4, e5, apply_queue_command) tt
              | inl e5 ↦ rw (e, e2, e3, e4, e5, apply_queue_command, decide_item) s
            ]
          ]
        ]
      ]
    ]
