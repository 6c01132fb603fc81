-- ===== src/Locks/Steps.antt =====
-- The interleavings of calls: each statement is a step of its own, so the steps of several sessions
-- may alternate in any order. Between the SELECT of `acquire` or `override` and the statement that
-- follows from it, a session keeps the row that it has read, which others may change meanwhile.
-- (The INSERT of `acquire` and the second look after a failed one are one step: that look writes
-- nothing.)
use templehe_consign.Base.Result.{Result, ok, err}
use templehe_consign.Base.{
  ℕ, ◌&&◌, Option, List, [], ◌∷◌, if◌then◌else◌, ◌==◌, nat_eq, string_eq, pair_eq, ids_eq, int_eq,
}
use templehe_consign.Locks.{
  LockKey, RecordLock, Locks, IsValid, LockError, find_lock, act, claim, heartbeat, release,
  delete_seen, new_row,
}
use templehe_consign.Locks.Invariant.{
  Leaves, act-IsValid, claim-IsValid, heartbeat-IsValid, release-IsValid, delete_seen-IsValid,
}

-- The SELECT of `acquire` and of `override`; the DELETE or UPDATE of `acquire`, and its INSERT; the
-- UPDATE of `heartbeat`; the DELETE of `release`, and that of `override`.
pub data Statement : Type 0 where
  looks deletes : LockKey → Statement
  acts claims heartbeats releases : LockKey → (user : ℕ) → Statement

pub record Step : Type 0 where
  pub statement : Statement
  pub session : ℕ
  pub id : ℕ
  pub started : ℕ
  pub now : ℕ
  pub later : ℕ

-- The table, and what the last look of each session at each lock has found.
abbrev pub Memory : Type 0
Memory = ℕ → LockKey → Option RecordLock

pub record World : Type 0 where
  pub locks : Locks
  pub seen : Memory

abbrev pub remember : ℕ → LockKey → Option RecordLock → Memory → Memory
remember session k found seen s j = if (s == session) && (j == k) then found else seen s j

-- A session that raises rolls back.
abbrev pub after : {A : Type 0} → Locks → Result LockError (A × Locks) → Locks
after t (ok (a, t')) = t'
after t (err e) = t

-- What a statement leaves in the table.
abbrev pub write : Statement → Step → Memory → Locks → Locks
write (looks k) s seen t = t
write (deletes k) s seen t = (delete_seen (seen s.session k) t).1
write (acts k user) s seen t = after t (act user s.now s.later (seen s.session k) t)
write (claims k user) s seen t =
    after t (claim (λ u. u) k user (new_row k user s.id s.started s.later) t)
write (heartbeats k user) s seen t = after t (heartbeat k user s.later s.now t)
write (releases k user) s seen t = (release k user t).1

abbrev pub read : Statement → Step → Locks → Memory → Memory
read (looks k) s t seen = remember s.session k (find_lock k t) seen
read _ s t seen = seen

unfoldable pub step : Step → World → World
step s w = record {
  locks = write s.statement s w.seen w.locks;
  seen = read s.statement s w.locks w.seen;
}

unfoldable pub run : List Step → World → World
run [] w = w
run (s ∷ ss) w = run ss (step s w)

after-IsValid :
    {A : Type 0} (t : Locks) (r : Result LockError (A × Locks))
    → IsValid t
    → Leaves IsValid r
    → IsValid (after t r)
after-IsValid t (ok (a, t')) v l = l
after-IsValid t (err e) v l = v

pub write-IsValid :
    (c : Statement) (s : Step) (seen : Memory) (t : Locks) → IsValid t → IsValid (write c s seen t)
write-IsValid (looks k) s seen t v = v
write-IsValid (deletes k) s seen t v = delete_seen-IsValid (seen s.session k) t v
write-IsValid (acts k user) s seen t v =
    after-IsValid t (act user s.now s.later (seen s.session k) t) v
      (act-IsValid user s.now s.later (seen s.session k) t v)
write-IsValid (claims k user) s seen t v =
    let row = new_row k user s.id s.started s.later in
    after-IsValid t (claim (λ u. u) k user row t) v
      (claim-IsValid (λ u. u) k user row t (λ u w. w) v)
write-IsValid (heartbeats k user) s seen t v =
    after-IsValid t (heartbeat k user s.later s.now t) v
      (heartbeat-IsValid k user s.later s.now t v)
write-IsValid (releases k user) s seen t v = release-IsValid k user t v

-- Every interleaving of statements keeps one lock for each record and one row for each id.
pub run-IsValid : (ss : List Step) (w : World) → IsValid w.locks → IsValid (run ss w).locks
unfolding run step
run-IsValid [] w v = v
run-IsValid (s ∷ ss) w v = run-IsValid ss (step s w) (write-IsValid s.statement s w.seen w.locks v)
