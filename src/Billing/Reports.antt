-- ===== src/Billing/Reports.antt =====
-- `entitlement.reportPayment` (billing/reports.py): what a payment adapter reports, and what core
-- makes of it.
pub mod State
pub mod Resolve
pub mod Apply
pub mod Command
pub mod Once
