-- ===== src/Audit.antt =====
-- The audit application: the command log, the rate limits, and the drains of the outbox and the mail.
pub mod Actor
pub mod CommandLog
pub mod Drain
mod DrainExamples
pub mod RateLimit
mod RateExamples
pub mod MailDrain
mod MailExamples
