-- ===== src/Directory/Claims/Limits.antt =====
-- The rate limits of claims (directory/claim_limits.py).
use osds.Prelude.{String, List, [], ◌∷◌}
use osds.Prelude.Time.{minutes, hours}
use osds.Audit.RateLimit.{Rule, Check}

abbrev pub submit_ip : List Rule
submit_ip =
    record { name = "claim.submit.ip.10m"; limit = 5; window = minutes 10 }
    ∷ record { name = "claim.submit.ip.24h"; limit = 20; window = hours 24 }
    ∷ []

abbrev pub submit_email : List Rule
submit_email = record { name = "claim.submit.email.24h"; limit = 5; window = hours 24 } ∷ []

abbrev pub verify_ip : List Rule
verify_ip = record { name = "claim.verify.ip.15m"; limit = 30; window = minutes 15 } ∷ []

abbrev pub resend_ip : List Rule
resend_ip = record { name = "claim.resend.ip.1h"; limit = 10; window = hours 1 } ∷ []

abbrev pub resend_email : List Rule
resend_email = record { name = "claim.resend.email.24h"; limit = 10; window = hours 24 } ∷ []

-- `check_submit`
abbrev pub check_submit : String → String → List Check
check_submit ip email =
    record { kind = "ip"; value = ip; rules = submit_ip }
    ∷ record { kind = "email"; value = email; rules = submit_email }
    ∷ []

-- `check_verify`
abbrev pub check_verify : String → List Check
check_verify ip = record { kind = "ip"; value = ip; rules = verify_ip } ∷ []

-- `check_resend`
abbrev pub check_resend : String → String → List Check
check_resend ip email =
    record { kind = "ip"; value = ip; rules = resend_ip }
    ∷ record { kind = "email"; value = email; rules = resend_email }
    ∷ []
