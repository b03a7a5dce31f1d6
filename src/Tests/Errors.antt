-- ===== src/Tests/Errors.antt =====
-- src/job/status.cxx at concrete inputs.
use job.Number.{pos}
use job.Prelude.{codes, ◌≡◌, refl, false}
use job.Status.{Status, is_ok}

abbrev missing : Status
missing = record { errval = pos 2; errstr = codes "job.conf" }

missing_error : is_ok missing.errval ≡ false
unfolding is_ok
missing_error = refl
