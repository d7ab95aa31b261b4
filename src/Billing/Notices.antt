-- ===== src/Billing/Notices.antt =====
-- The owner's billing mail (billing/notices.py). The texts are named by template (`Body`); the
-- names and the link that they print are left out.
use osds.Prelude.{
  ℕ, ◌+◌, Bool, true, false, ◌&&◌, not, Option, none, some, List, [], ◌∷◌, ◌++◌, any, ltb,
  if◌then◌else◌, has_text,
}
use osds.Prelude.Time.{days}
use osds.Billing.Model.{
  Entitlement, Listing, EventName, ev_dunning_started, ev_downgraded, ev_expired, ev_canceled,
  Cause,
}
use osds.Billing.Events.{
  MailKind, mail_failed, mail_downgraded, mail_expired, mail_canceled, Body, pay_before,
  restore_until, active_until, has_ended, back_to_free, Mail,
}
use osds.Billing.Machine.{Rule}

abbrev pub expired_ttl : ℕ
expired_ttl = days 7

-- `_QUIET_CAUSES`: expiry causes that are not the owner's business
abbrev pub is_quiet : Cause → Bool
is_quiet Cause.revoked = true
is_quiet Cause.comp_expired = true
is_quiet _ = false

-- `_send`: nothing goes out without an owner's address
unfoldable pub send : Listing → MailKind → Body → ℕ → List Mail
send listing kind body expires_at = elim listing.owner [
  | none ↦ []
  | some owner ↦
      if has_text owner.email
      then record { kind = kind; to_address = owner.email; body = body; expires_at = expires_at }
        ∷ []
      else []
]

abbrev is_dunning_started : EventName → Bool
is_dunning_started ev_dunning_started = true
is_dunning_started _ = false

abbrev is_downgraded : EventName → Bool
is_downgraded ev_downgraded = true
is_downgraded _ = false

abbrev is_canceled : EventName → Bool
is_canceled ev_canceled = true
is_canceled _ = false

abbrev is_expired : EventName → Bool
is_expired ev_expired = true
is_expired _ = false

-- `end`, where it is still to come
abbrev pub runs_until : Entitlement → ℕ → Option ℕ
runs_until ent now =
    if ent.cancel_at_period_end
    then elim ent.current_period_end [ none ↦ none | some t ↦ if ltb now t then some t else none ]
    else none

unfoldable pub after_transition : Entitlement → Listing → Rule → ℕ → List Mail
unfolding send
after_transition ent listing rule now =
    (if any is_dunning_started rule.events
      then elim ent.dunning_ends_at [
        | none ↦ []
        | some t ↦ send listing mail_failed (pay_before t) t
      ]
      else [])
    ++ ((if any is_downgraded rule.events
          then elim ent.grace_ends_at [
            | none ↦ []
            | some t ↦ send listing mail_downgraded (restore_until t) t
          ]
          else [])
        ++ (if any is_canceled rule.events
            then elim (runs_until ent now) [
              | none ↦ send listing mail_canceled has_ended (now + expired_ttl)
              | some t ↦ send listing mail_canceled (active_until t) t
            ]
            else if any is_expired rule.events && not (is_quiet rule.expired_cause)
            then send listing mail_expired back_to_free (now + expired_ttl)
            else []))
