-- ===== src/Directory/Claims/Frames.antt =====
-- What the steps of a claim leave alone: only the entry and the sending of a code write the guards
-- (directory/services.py, directory/claim_review.py).
use osds.Prelude.{
  ℕ, ◌≡◌, refl, String, Option, none, some, inl, inr, Bool-cases, arith, ◌==◌, ◌&&◌, if◌then◌else◌,
  ==_iff, List,
}
use osds.Audit.Actor.{Actor}
use osds.Directory.Claims.State.{
  ClaimStatus, Claim, Guard, ItemType, Listing, Decision, ReviewReason, FailReason, Desk,
  is_claim_status,
}
use osds.Directory.Claims.Tables.{Site, lock_guard, save_guard}
use osds.Directory.Claims.Items.{open_item, notify_operators, decide_claim_item, dispute}
use osds.Directory.Claims.Approve.{Manual, approve_claim_row, emit_contacts, resolve_verified_claim}
use osds.Directory.Claims.Start.{sent_guard, flip_claim, send_code, notify_unless_disputed}
use osds.Directory.Claims.Verify.{wrong_guard, enter_wrong, enter_right, is_lock, queue_lock}
use osds.Directory.Claims.Guards.{
  guard_at, is_pair, lock_guard-Locked, save_guard_same, save_guard_other,
}

pub open_item-guards :
    (t : ItemType) (c : Claim) (rule : String) (actor : Actor) (d : Desk)
    → (open_item t c rule actor d).guards ≡ d.guards
unfolding open_item
open_item-guards t c rule actor d = ground arith

pub notify_operators-guards :
    (site : Site) (now : ℕ) (d : Desk) → (notify_operators site now d).guards ≡ d.guards
unfolding notify_operators
notify_operators-guards site now d = refl

pub decide_claim_item-guards :
    (c : Claim) (decision : Decision) (operator : ℕ) (rationale : String) (actor : Actor) (now : ℕ)
    (d : Desk)
    → (decide_claim_item c decision operator rationale actor now d).guards ≡ d.guards
unfolding decide_claim_item
decide_claim_item-guards c decision operator rationale actor now d = ground arith

pub dispute-guards :
    (site : Site) (c : Claim) (actor : Actor) (now : ℕ) (d : Desk)
    → (dispute site c actor now d).0.guards ≡ d.guards
unfolding dispute
dispute-guards site c actor now d = rw (notify_operators-guards, open_item-guards)

emit_contacts-guards :
    (c : Claim) (channels : List String) (actor : Actor) (d : Desk)
    → (emit_contacts c channels actor d).guards ≡ d.guards
unfolding emit_contacts
emit_contacts-guards c channels actor d = ground arith

pub approve_claim_row-guards :
    (site : Site) (c : Claim) (l : Listing) (m : Option Manual) (actor : Actor) (now : ℕ) (d : Desk)
    → (approve_claim_row site c l m actor now d).0.guards ≡ d.guards
unfolding approve_claim_row
approve_claim_row-guards site c l none actor now d = rw emit_contacts-guards
approve_claim_row-guards site c l (some m) actor now d =
    rw (decide_claim_item-guards, emit_contacts-guards)

pub resolve_verified_claim-guards :
    (site : Site) (c : Claim) (l : Listing) (now : ℕ) (d : Desk)
    → (resolve_verified_claim site c l now d).0.guards ≡ d.guards
unfolding resolve_verified_claim
resolve_verified_claim-guards site c l now d =
    grind (arith, dispute-guards, approve_claim_row-guards)

pub queue_lock-guards :
    (site : Site) (c : Claim) (reason : FailReason) (now : ℕ) (d : Desk)
    → (queue_lock site c reason now d).guards ≡ d.guards
unfolding queue_lock
queue_lock-guards site c reason now d = elim (Bool-cases (is_lock reason)) [
  | inr e ↦ rw (e, queue_lock)
  | inl e ↦ elim (Bool-cases (is_claim_status c.status ClaimStatus.disputed)) [
    | inl f ↦ rw (e, f, queue_lock) (rw open_item-guards)
    | inr f ↦ rw (e, f, queue_lock) (rw (notify_operators-guards, open_item-guards))
  ]
]

pub enter_right-guards :
    (site : Site) (c : Claim) (l : Listing) (now : ℕ) (d : Desk)
    → (enter_right site c l now d).0.guards ≡ d.guards
unfolding enter_right
enter_right-guards site c l now d =
    elim (Bool-cases (is_claim_status c.status ClaimStatus.disputed)) [
      | inl e ↦ rw (e, enter_right)
      | inr e ↦
          rw (e, enter_right)
            (resolve_verified_claim-guards site
              (record c { verified_at = some now; code_hash = none }) l now _)
    ]

pub enter_wrong-guards :
    (site : Site) (c : Claim) (g : Guard) (now : ℕ) (d : Desk)
    → (enter_wrong site c g now d).guards ≡ save_guard (wrong_guard g now) d.guards
unfolding enter_wrong
enter_wrong-guards site c g now d = rw queue_lock-guards

notify_unless_disputed-guards :
    (site : Site) (status : ClaimStatus) (now : ℕ) (d : Desk)
    → (notify_unless_disputed site status now d).guards ≡ d.guards
unfolding notify_unless_disputed
notify_unless_disputed-guards site status now d =
    elim (Bool-cases (is_claim_status status ClaimStatus.disputed)) [
      | inl e ↦ rw (e, notify_unless_disputed)
      | inr e ↦ rw (e, notify_unless_disputed, notify_operators-guards)
    ]

pub flip_claim-guards :
    (site : Site) (c : Claim) (reason : ReviewReason) (now : ℕ) (d : Desk)
    → (flip_claim site c reason now d).guards ≡ d.guards
unfolding flip_claim
flip_claim-guards site c reason now d = rw notify_unless_disputed-guards

pub send_code-guards :
    (site : Site) (code : String) (c : Claim) (g : Guard) (now : ℕ) (d : Desk)
    → (send_code site code c g now d).0.guards ≡ save_guard (sent_guard g now) d.guards
unfolding send_code
send_code-guards site code c g now d = refl

-- The guard of a pair, written over the locked one, is what any later read of that pair finds.
pub save_locked :
    (guards : List Guard) (l u : ℕ) (k : Guard) (l' u' : ℕ)
    → k.listing ≡ l
    → k.claimant ≡ u
    → guard_at (save_guard k (lock_guard guards l u).0) l' u'
      ≡ (if l == l' && u == u' then k else guard_at guards l' u')
save_locked guards l u k l' u' p q = elim (Bool-cases (is_pair l' u' k)) [
  | inl e ↦ grind (
    arith,
    save_guard_same k (lock_guard guards l u).0,
    (lock_guard-Locked guards l u).there,
    ==_iff l l',
    ==_iff u u',
  )
  | inr e ↦ grind (
    arith,
    save_guard_other k (lock_guard guards l u).0 l' u',
    (lock_guard-Locked guards l u).keeps l' u',
  )
]
