-- ===== src/Directory/SignIn.antt =====
-- The owners' sign-in: the mailed link, the session that it opens and the guard that reads it
-- (directory/owner_auth.py, directory/owner_limits.py). The digest, the secrets and the absolute base of
-- the site's addresses are parameters.
pub mod State
pub mod Request
pub mod Enter
pub mod Guard
pub mod Spent
pub mod Links
pub mod Shown
