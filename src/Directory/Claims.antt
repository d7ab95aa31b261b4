-- ===== src/Directory/Claims.antt =====
-- Claims: acquiring a verified owner for a listing (directory/claims.py, directory/services.py,
-- directory/claim_review.py).
pub mod State
pub mod Tables
pub mod Eligibility
pub mod Items
pub mod Approve
pub mod Start
pub mod Verify
pub mod Guards
pub mod Frames
pub mod Submit
pub mod Codes
pub mod Steps
pub mod Refines
pub mod Decide
pub mod Sound
pub mod Limits
pub mod Ends
pub mod Commands
pub mod Owned
pub mod Kept
pub mod Reviewed
pub mod Submitted
pub mod Served
pub mod Rows
pub mod Logged
pub mod Guesses
