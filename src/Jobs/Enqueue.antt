-- ===== src/Jobs/Enqueue.antt =====
-- enqueue of api/services/notification_service.py and its idempotency keys.
use templehe_consign.Table.{find, find-cons_self, find-cons_ne}
use templehe_consign.Base.Result.{Result, ok, err}
use templehe_consign.Base.{
  ℕ, ◌≡◌, ◌≢◌, inl, inr, true, Option, none, some, ◌∷◌, arith, nat_eq, string_eq, pair_eq,
  Option-cases, ids_eq, get_or,
}
use templehe_consign.Jobs.{
  find_job, NotificationJob, Jobs, JobKey, Message, QueueError, IsValid, job_id, job_key, new_job,
  is_channel, enqueue, pending,
}

-- What a call to the queue has left in it.
abbrev pub queue : {A : Type 0} → Jobs → Result QueueError (A × Jobs) → Jobs
queue t (ok (a, t')) = t'
queue t (err e) = t

-- Enqueuing a message under the key of one that was just enqueued, both for known channels,
-- changes nothing and returns None.
pub enqueue_again :
    (id id' now now' : ℕ) (at at' : Option ℕ) (m m' : Message) (t : Jobs)
    → is_channel m.via ≡ true
    → is_channel m'.via ≡ true
    → m'.key ≡ m.key
    → enqueue id' now' at' m' (queue t (enqueue id now at m t))
      ≡ ok (none, queue t (enqueue id now at m t))
unfolding enqueue
enqueue_again id id' now now' at at' m m' t c c' e = elim (Option-cases (find_job m.key t)) [
  | inr (old, f) ↦ ground arith
  | inl f ↦ ground (arith, find-cons_self job_key (new_job id (get_or at now) m) t)
]

-- A job is in the queue under its key after every call that returns.
pub enqueue_present :
    (id now : ℕ) (at : Option ℕ) (m : Message) (t : Jobs)
    → is_channel m.via ≡ true
    → find_job m.key (queue t (enqueue id now at m t)) ≢ none
unfolding enqueue
enqueue_present id now at m t c h = elim (Option-cases (find_job m.key t)) [
  | inr (old, f) ↦ ground arith
  | inl f ↦ ground (arith, find-cons_self job_key (new_job id (get_or at now) m) t)
]

-- A call that returns a job has put it in front of the queue as pending, with no attempt made, for
-- the instant asked for or else for now, under a key that was free.
pub enqueue_new :
    (id now : ℕ) (at : Option ℕ) (m : Message) (t : Jobs) {job : NotificationJob} {t' : Jobs}
    → enqueue id now at m t ≡ ok (some job, t')
    → (find_job m.key t ≡ none)
      × (t' ≡ job ∷ t)
      × (job.idempotency_key ≡ m.key)
      × (job.status ≡ pending)
      × (job.attempts ≡ 0)
      × (job.scheduled_for ≡ get_or at now)
unfolding enqueue
enqueue_new id now at m t h = elim (Option-cases (find_job m.key t)) [
  | inr (old, f) ↦ absurd (ground arith)
  | inl f ↦ ground arith
]

-- A call leaves every key but its own alone.
pub enqueue_frame :
    (k : JobKey) (id now : ℕ) (at : Option ℕ) (m : Message) (t : Jobs)
    → k ≢ m.key
    → find_job k (queue t (enqueue id now at m t)) ≡ find_job k t
unfolding enqueue
enqueue_frame k id now at m t n = elim (Option-cases (find_job m.key t)) [
  | inr (old, f) ↦ ground arith
  | inl f ↦ ground (arith, find-cons_ne job_key k (new_job id (get_or at now) m) t n)
]

-- A call keeps the keys and the ids of the queue unique, if the id that the database draws is new.
pub enqueue-IsValid :
    (id now : ℕ) (at : Option ℕ) (m : Message) (t : Jobs)
    → find job_id id t ≡ none
    → IsValid t
    → IsValid (queue t (enqueue id now at m t))
unfolding enqueue
enqueue-IsValid id now at m t fresh v = elim (Option-cases (find_job m.key t)) [
  | inr (old, f) ↦ ground arith
  | inl f ↦ ground arith
]
