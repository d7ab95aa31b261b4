-- ===== src/Tenants.antt =====
-- The tenants application, as far as the commands use it.
pub mod Staff
