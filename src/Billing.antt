-- ===== src/Billing.antt =====
-- The billing application: tiers, entitlements, the state machine that moves them, the worker's
-- jobs, the operator's commands and the reports of a payment adapter.
pub mod Model
pub mod Machine
pub mod Events
pub mod Notices
pub mod Entitlements
pub mod Jobs
pub mod Clock
pub mod Apart
pub mod Passes
pub mod Lapse
pub mod Endless
pub mod Reports
mod Examples
mod ReportExamples
pub mod Commands
mod CommandExamples
pub mod Tiers
mod TierExamples
