-- ===== src/Jobs/Attempts.antt =====
-- process_job of api/services/notification_service.py: how often a job is tried, and when.
use templehe_consign.Base.{
  ℕ, ◌+◌, ◌≤◌, ◌<◌, ◌≡◌, refl, ◌≢◌, true, false, some, List, [], ◌∷◌, arith, if◌then◌else◌, nat_eq,
  string_eq, pair_eq, is_some, length, ids_eq,
}
use templehe_consign.Jobs.{NotificationJob, pending, processing, is_pending}
use templehe_consign.Jobs.Dispatch.{Transport}
use templehe_consign.Jobs.Process.{backoff, attempt}

-- The wait never gets shorter as the number of attempts grows.
pub backoff_grows : (m n : ℕ) → m ≤ n → backoff m ≤ backoff n
unfolding backoff
backoff_grows m n h = ground arith

-- The wait is half a minute at least and six hours at most.
pub backoff_bounds : (n : ℕ) → (30000000 ≤ backoff n) × (backoff n ≤ 21600000000)
unfolding backoff
backoff_bounds n = ground arith

-- What one attempt makes of a job.
pub record Tried (w : Transport) (clock : ℕ) (j new : NotificationJob) : Type 0 where
  pub same_id : new.id ≡ j.id
  pub same_key : new.idempotency_key ≡ j.idempotency_key
  pub same_limit : new.max_attempts ≡ j.max_attempts
  pub counted : new.attempts ≡ j.attempts + 1
  pub handed_back : new.status ≢ processing
  pub again : new.status ≡ pending → new.attempts < new.max_attempts
  pub waits : new.status ≡ pending → clock + 30000000 ≤ new.scheduled_for
  pub blamed : new.status ≡ pending → is_some new.last_error ≡ true
  pub stamped : new.status ≢ pending → new.processed_at ≡ some clock

-- Every attempt keeps the job's id, key and limit, is counted, and takes the job out of
-- processing: the job goes back to pending only with an error noted, while attempts remain, and
-- for half a minute later at least; otherwise it is stamped with the clock.
pub attempt-Tried :
    (w : Transport) (clock : ℕ) (j : NotificationJob) → Tried w clock j (attempt w clock j)
unfolding attempt
attempt-Tried w clock j = ground (arith, backoff_bounds (j.attempts + 1))

-- A worker goes on with a job as long as it is pending; each round has its own transport and clock.
pub tries : List (Transport × ℕ) → NotificationJob → NotificationJob
tries [] j = j
tries ((w, clock) ∷ rounds) j = if is_pending j.status then tries rounds (attempt w clock j) else j

tries_stay :
    (rounds : List (Transport × ℕ)) (j : NotificationJob)
    → is_pending j.status ≡ false
    → tries rounds j ≡ j
unfolding tries
tries_stay [] j h = refl
tries_stay (r ∷ rounds) j h = ground arith

-- Whatever the outside world answers, a job that has attempts left while it is pending is pending
-- no more once as many rounds were made as it has attempts left.
pub tries_end :
    (rounds : List (Transport × ℕ)) (j : NotificationJob)
    → j.max_attempts ≤ j.attempts + length rounds
    → (j.status ≡ pending → j.attempts < j.max_attempts)
    → is_pending (tries rounds j).status ≡ false
unfolding tries
tries_end [] j h a = ground arith
tries_end ((w, clock) ∷ rounds) j h a =
    let t = attempt-Tried w clock j in ground (arith, t, tries_end rounds (attempt w clock j))

-- A job with no more attempts than its limit, and fewer while it is pending, is never tried more
-- often than the limit allows.
pub tries_capped :
    (rounds : List (Transport × ℕ)) (j : NotificationJob)
    → j.attempts ≤ j.max_attempts
    → (j.status ≡ pending → j.attempts < j.max_attempts)
    → (tries rounds j).attempts ≤ j.max_attempts
unfolding tries
tries_capped [] j h a = h
tries_capped ((w, clock) ∷ rounds) j h a =
    let t = attempt-Tried w clock j in ground (arith, t, tries_capped rounds (attempt w clock j))
