-- ===== src/Billing/Entitlements.antt =====
-- The entitlement service (billing/entitlements.py): the fields that a trigger changes, the events
-- that it causes, the listing's tier and visibility, and the database around one move.
pub mod Fields
pub mod Override
pub mod Mutate
pub mod Display
pub mod Emit
pub mod Apply
pub mod Database
pub mod Moves
pub mod Overridden
pub mod Landing
pub mod Shown
pub mod Totality
pub mod Timers
pub mod Visibility
pub mod Saved
