-- ===== src/Audit/Drain.antt =====
-- The webhook drain (audit/worker/drain.py).
pub mod State
pub mod Attempt
pub mod Claim
pub mod FanOut
pub mod Pass
pub mod Outcomes
pub mod Claims
pub mod Bounded
pub mod Once
