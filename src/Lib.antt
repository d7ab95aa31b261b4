-- ===== src/Lib.antt =====
-- The billing core and the claims of OSDS, a directory server (Python, Django): the entitlement
-- state machine and everything that drives it, the tiers that are sold, the claims by which a
-- listing gets its owner, the owner's sign-in, the log and queue tables that it writes, and the
-- drain that delivers what is queued.
--
-- How the parts interact. An entitlement is what a listing has bought. Its only writer is
-- `apply_trigger`, which looks a rule up in the machine's table, changes the fields, emits the
-- rule's events into the outbox, sets the listing's tier and visibility, and queues the owner's
-- mail, all in one transaction. It is driven by the reports of a payment provider
-- (`report_payment`), by the worker's clock (`entitlement_transitions`), and by operators
-- (`grant_comp`, `revoke_comp`, `override_entitlement`). The outbox is emptied by the worker
-- (`drain_once`), which fans each event out into one delivery per adapter and attempts those that
-- are due.
--
-- A claim is a visitor's wish to own a listing (`submit_claim`). A code that is mailed to the
-- listing's domain proves it (`start_claim_verification`, `verify_claim_code`), or an operator
-- decides it (`approve_claim`, `reject_claim`); either way `_approve_claim` is the one writer of a
-- listing's owner. A guard per listing and claimant bounds the guesses, and locks, blocks and
-- disputes wait in a moderation queue. An owner signs in by a mailed link (`request_sign_in`,
-- `sign_in`), and operators set up the tiers that are sold (`create_tier`, `update_tier`,
-- `delete_tier`). Claims and billing share the listing's row, the staff, the command log and the
-- mail queue.
--
-- Which file models which part:
-- - Prelude, Prelude/Lists, Prelude/Results, Prelude/Tests, Prelude/Time: list, Boolean and result
--   helpers, and times, which are microseconds since 0001-01-01 UTC. Python's `.days` of a
--   difference is `days_between`, which rounds down, below zero too.
-- - Audit/Actor, Audit/CommandLog: the actor and the command log (audit/models.py,
--   audit/command_log.py). A log is the list of its rows in the order of their keys. The payload
--   and the trace id of a row are left out.
-- - Audit/Drain: audit/worker/drain.py. State is the rows and what it sees of an adapter
--   (osds/adapters.py), FanOut is `fan_out_once`, Claim is `_claim`, Attempt is `attempt_delivery`
--   with `_record` and `backoff`, Pass is `drain_once`; Outcomes, Claims, Bounded and Once are
--   proofs. The jitter, `fnmatch` and `str.startswith` are parameters, and so is each adapter. An
--   attempt writes to the table as it is when the handler is done, so that another pass may have
--   moved the row.
-- - Audit/DrainExamples: tests and instances.
-- - Audit/RateLimit: audit/ratelimit.py. The counters are a list of rows; the keyed hash and the
--   bucket of an address are parameters. Windows is proofs. Audit/RateExamples: tests and
--   instances.
-- - Audit/MailDrain: audit/worker/mail_drain.py and audit/models.py `OutboundMessage`; the email
--   provider is a parameter, and a pass gives the list of answers that `MailDrainStats` counts.
--   Private is proofs. Audit/MailExamples: tests and instances.
-- - Billing/Model: the rows (billing/models.py; the columns of directory/models.py `Listing` that
--   billing reads), the triggers and the events' names. An entitlement is joined with its tier's
--   row.
-- - Billing/Machine: billing/machine.py, the table as `_build` adds it, `rule_for` and `is_due`.
--   Billing/Machine/Table: the table read row by row.
-- - Billing/Events, Billing/Notices: the outbox rows and the mail, whose texts are named by
--   template (billing/notices.py).
-- - Billing/Entitlements: billing/entitlements.py. Fields, Override and Mutate are `_mutate`;
--   Display is `effective_tier`, `_set_tier`, `_visibility_after` and directory/services.py
--   `set_listing_visibility`; Emit is `_event_data`; Apply is one move (`move`), Database the whole
--   of `apply_trigger` on the tables, which a failing call leaves as they were. The other files of
--   the folder are proofs.
-- - Billing/Jobs: billing/jobs.py, the two tick jobs. Billing/Clock, Billing/Apart, Billing/Passes,
--   Billing/Lapse, Billing/Endless: proofs about the clock and the passes.
-- - Billing/Reports: billing/reports.py. State is the rows and messages, Resolve is `_resolve`,
--   `_tier` and `_trigger`, Apply is `_apply`, Command is `report_payment` and `_ignore`, Once the
--   proof of its idempotence.
-- - Billing/Commands: billing/commands.py, with the membership that tenants/models.py keeps;
--   `str.strip` is a parameter. Logged and Landed are proofs.
-- - Billing/Examples, Billing/ReportExamples, Billing/CommandExamples: tests and instances of the
--   theorems.
-- - Tenants/Staff: the staff's memberships (tenants/models.py) and who acts (`_membership`,
--   `_actor`).
-- - Directory/Claims: State is the rows, events and letters (directory/models.py), Tables the reads
--   and writes of the tables with `lock_guard`, `expire_pending_code` and audit/mail.py `enqueue`;
--   Eligibility is directory/claims.py; Items, Approve and Decide are directory/claim_review.py;
--   Submit, Start and Verify are directory/services.py `_apply_submit_claim`,
--   `_apply_start_verification` and `_apply_verify_claim_code`; Commands is the commands around
--   them, Ends how they end and Limits directory/claim_limits.py. The rendering of a letter, the
--   keyed hash, Python's text functions and the random code are parameters.
-- - Directory/Claims, proofs: Codes, Guesses, Guards, Frames, Steps and Refines on the guesses of a
--   code; Sound, Owned, Kept, Submitted, Reviewed and Served on the owners; Rows and Logged on the
--   command log.
-- - Directory/ClaimExamples: tests and instances of the theorems.
-- - Directory/SignIn: directory/owner_auth.py with directory/owner_limits.py, the mailed link, the
--   session and the sign-out. State is the tables and limits, Request, Enter and Guard the request
--   of a link, its exchange, and the session with its end. Spent and Links prove what a link opens,
--   Shown what the confirm page and the guard show. Directory/SignInExamples: tests and instances.
-- - Billing/Tiers: billing/tiers.py with audit/command_log.py `settings_command` around it, and the
--   constraints of `Tier`. Tiers/State is the rows and errors, Validate `_validate`, Writes the
--   three transactions, Commands the commands; Tiers/Rows is lists of tiers, Tiers/Sold the proof.
--   Billing/TierExamples: tests and an instance.
--
-- Reading guide. A transaction is a function into `Result`: on `err` the caller keeps the state
-- that it had. An exception is a constructor of the error type, a failed look-up in the `facts`
-- dict (`key_error`) included. Public ids and primary keys are natural numbers, and a row gets the
-- next one. One tenant is in scope, so filters on the tenant are left out. Row locks are left out:
-- a transaction sees the rows that it locked as they are when it reads them, and no other
-- transaction holds a losing claim when `_reject_losers` skips the locked ones.
--
-- Bounds. Nothing runs on fuel: every loop is over a list of rows or over a list of triggers. Times
-- are unbounded natural numbers; `now - 3 days` in the job's query stops at 0, so the theorem on
-- that query asks for `now` to be three days past 0.
--
-- Not modelled: rendering of mail texts, links and names; the listing's projection in
-- `listing.published`; templates, views and forms; the normalisation of a submitted claim's
-- request, the flush of deferred notices to staff and the pages of the review queue; the
-- directory's other services, leads, import and search; tenants, wizard and the staff's login; the
-- adapters (Stripe, SMTP, webhook) and their transport; the Postgres details of locking and
-- notification.
pub mod Prelude
pub mod Audit
pub mod Billing
pub mod Tenants
pub mod Directory
