-- ===== src/Billing/Tiers.antt =====
-- The administration of tiers (billing/tiers.py, and audit/command_log.py `settings_command` around it). The
-- regular expressions, Python's text functions, the test for an object and the width of a row's columns are
-- parameters.
pub mod State
pub mod Validate
pub mod Writes
pub mod Commands
pub mod Rows
pub mod Sold
