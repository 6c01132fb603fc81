-- ===== src/Jobs/Process.antt =====
-- `process_job` of api/services/notification_service.py: one attempt, and what it makes of the row.
use templehe_consign.Table.{update}
use templehe_consign.Base.{
  ℕ, zero, suc, ◌+◌, ◌-◌, ◌*◌, min, some, List, [], ◌∷◌, leb, if◌then◌else◌, nat_eq, string_eq,
  pair_eq, length,
}
use templehe_consign.Jobs.{
  NotificationJob, Jobs, JobError, JobStatus, pending, delivered, skipped, failed, raised, job_id,
}
use templehe_consign.Jobs.Dispatch.{
  Transport, Outcome, delivers, skips, fails, fails_silently, raises, dispatch,
}

-- _BACKOFF_SECONDS
abbrev pub backoff_seconds : List ℕ
backoff_seconds = 30 ∷ 120 ∷ 600 ∷ 3600 ∷ 21600 ∷ []

-- `_BACKOFF_SECONDS[i]`, within the list.
abbrev nth : List ℕ → ℕ → ℕ
nth [] i = 0
nth (x ∷ xs) zero = x
nth (x ∷ xs) (suc i) = nth xs i

-- The delay after the attempt of this number, in microseconds.
unfoldable pub backoff : ℕ → ℕ
backoff attempts = nth backoff_seconds (min (attempts - 1) (length backoff_seconds - 1)) * 1000000

abbrev finish : JobStatus → ℕ → NotificationJob → NotificationJob
finish s clock j = record j { status = s; processed_at = some clock }

abbrev fail_with : JobError → NotificationJob → NotificationJob
fail_with e j = record j { last_error = some e }

abbrev retry : ℕ → NotificationJob → NotificationJob
retry clock j =
    if leb j.max_attempts j.attempts
    then finish failed clock j
    else record j { status = pending; scheduled_for = clock + backoff j.attempts }

-- The row after the attempt; `j` counts the attempt already.
abbrev settle : ℕ → Outcome → NotificationJob → NotificationJob
settle clock delivers j = finish delivered clock j
settle clock (skips e) j = finish skipped clock (fail_with e j)
settle clock (fails e) j = finish failed clock (fail_with e j)
settle clock fails_silently j = finish failed clock j
settle clock (raises e) j = retry clock (fail_with (raised e) j)

unfoldable pub attempt : Transport → ℕ → NotificationJob → NotificationJob
attempt w clock j = settle clock (dispatch w j) (record j { attempts = j.attempts + 1 })

-- The five columns that the UPDATE writes.
abbrev pub write : NotificationJob → NotificationJob → NotificationJob
write new row = record row {
  status = new.status;
  attempts = new.attempts;
  processed_at = new.processed_at;
  last_error = new.last_error;
  scheduled_for = new.scheduled_for;
}

-- `j` is the copy of the row that the worker claimed.
unfoldable pub process_job : Transport → ℕ → NotificationJob → Jobs → JobStatus × Jobs
process_job w clock j t =
    let new = attempt w clock j in (new.status, update job_id j.id (write new) t)
