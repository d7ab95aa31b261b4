-- ===== src/Directory.antt =====
-- The directory application: claims of listings, and the owners' sign-in.
pub mod Claims
mod ClaimExamples
pub mod SignIn
mod SignInExamples
