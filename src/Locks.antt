-- ===== src/Locks.antt =====
-- Pessimistic record locks, api/services/record_lock_service.py, over the table `record_locks`.
-- An instant is a number of microseconds, the resolution of Python's datetime, and a UUID is a
-- number, since the code only compares it. The columns `overridden_by` and `overridden_at` are
-- never written by this service. A function gives the table that a call leaves when it returns, and
-- its arguments `between`, `before` and `meanwhile` are what other sessions commit between its
-- statements. When `acquire` raises LockHeldError the router answers 409 and the session still
-- commits what ran before; Steps.antt, where each statement is a step and a session keeps the row
-- that it has read, accounts for that.
pub mod Invariant
pub mod Calls
pub mod Steps
pub mod Holding
pub mod Exclusion
pub mod Races
use templehe_consign.Base.{
  ℕ, zero, suc, ◌+◌, ◌-◌, ◌*◌, ◌/◌, ◌%◌, ◌≤◌, ◌<◌, min, String, ◌≡◌, refl, sym, ap, subst, ◌∙◌, ◌≢◌,
  ◌↔◌, ◌⊎◌, inl, inr, Bool, true, false, not, ◌&&◌, ◌||◌, Option, none, some, List, [], ◌∷◌, ◌++◌,
  map, arith, ltb, leb, if◌then◌else◌, Eq, ◌==◌, nat_eq, string_eq, pair_eq, eq_refl, eq→≡, ≡→eq,
  ne→neq, Bool-cases, Option-cases, is_some, length, length-append, select, All, All-append,
  All-map, any_item, ltb→lt, leb→le, eq-cases, ids_eq, get_or, sort_by, All-sort_by,
  All-sort_by_inv, sort_with, All-sort_with, All-sort_with_inv, strip, ℤ, pos, negsuc, leb_int,
  int_eq,
}
use templehe_consign.Base.Result.{
  Result, ok, err, ◌>>=◌, ◌>>◌, require, or_raise, Result-cases, >>=-eq-ok,
}
use templehe_consign.Table.{
  find, remove, update, insert_row, IsUnique, IsKeyed, find_key, find-remove_self, find-remove_ne,
  remove_absent, find-update_self, find-update_ne, find-update-none, update_absent,
  find-remove-none, remove-IsUnique, update-IsUnique, found_by_id, find-remove_by_none,
  remove_by-IsUnique, find-remove_by_id, find-remove_by_id_ne, insert_row_inv, insert_row-IsKeyed,
  find-update_by_none, update_by-IsUnique, find-update_by_id, find-update_by_id_ne, insert_row_free,
  insert_row_taken, find-cons_self, find-cons_ne, find-map-none, find-map-some, map-IsUnique,
  All-find, All-update,
}

-- The unique pair (record_id, record_type).
abbrev pub LockKey : Type 0
LockKey = ℕ × String

pub record RecordLock : Type 0 where
  pub id : ℕ
  pub record_id : ℕ
  pub record_type : String
  pub locked_by : ℕ
  pub locked_at : ℕ
  pub expires_at : ℕ

abbrev pub lock_key : RecordLock → LockKey
lock_key r = (r.record_id, r.record_type)

abbrev pub lock_id : RecordLock → ℕ
lock_id r = r.id

abbrev pub Locks : Type 0
Locks = List RecordLock

-- UNIQUE (record_id, record_type), and the primary key.
abbrev pub IsValid : Locks → Type 0
IsValid = IsKeyed lock_key lock_id

pub record LockInfo : Type 0 where
  pub record_id : ℕ
  pub record_type : String
  pub locked_by : ℕ
  pub locked_at : ℕ
  pub expires_at : ℕ

pub data LockError : Type 0 where
  lock_held : LockInfo → LockError
  lock_expired : LockError
  integrity_error : LockError
  stale_data_error : LockError

-- LOCK_TTL_SECONDS = 900
abbrev pub lock_ttl : ℕ
lock_ttl = 900 * 1000000

-- `_new_expiry`, at the clock reading `now`.
abbrev pub new_expiry : ℕ → ℕ
new_expiry now = now + lock_ttl

abbrev pub to_info : RecordLock → LockInfo
to_info row = record {
  record_id = row.record_id;
  record_type = row.record_type;
  locked_by = row.locked_by;
  locked_at = row.locked_at;
  expires_at = row.expires_at;
}

abbrev pub find_lock : LockKey → Locks → Option RecordLock
find_lock = find lock_key

abbrev pub expire_at : ℕ → RecordLock → RecordLock
expire_at t row = record row { expires_at = t }

-- What `acquire` does with the row that its look has found: `some` is the refreshed lock of a caller
-- that holds it already, and `none` goes on to the INSERT. `now` and `later` are the two readings of
-- the clock. The row in the table may have changed since the look: the DELETE takes what has its id,
-- and the UPDATE of the flush raises StaleDataError if nothing has.
unfoldable pub act :
    ℕ → ℕ → ℕ → Option RecordLock → Locks → Result LockError (Option LockInfo × Locks)
act user now later none t = ok (none, t)
act user now later (some row) t =
    let moved = expire_at (new_expiry later) in
    if leb row.expires_at now
    then ok (none, remove lock_id row.id t)
    else if row.locked_by == user
    then elim (find lock_id row.id t) [
      | none ↦ err stale_data_error
      | some _ ↦ ok (some (to_info (moved row)), update lock_id row.id moved t)
    ]
    else err (lock_held (to_info row))

-- `acquire` up to its INSERT.
unfoldable pub look_up :
    (Locks → Locks) → LockKey → ℕ → ℕ → ℕ → Locks → Result LockError (Option LockInfo × Locks)
look_up between k user now later t = act user now later (find_lock k t) (between t)

-- The row that `acquire` inserts; `locked_at` is the database's default, the transaction's start.
abbrev pub new_row : LockKey → ℕ → ℕ → ℕ → ℕ → RecordLock
new_row k user id started later = record {
  id = id;
  record_id = k.0;
  record_type = k.1;
  locked_by = user;
  locked_at = started;
  expires_at = new_expiry later;
}

-- The INSERT of `acquire` under its savepoint, and the second look if it fails.
unfoldable pub claim :
    (Locks → Locks) → LockKey → ℕ → RecordLock → Locks → Result LockError (LockInfo × Locks)
claim meanwhile k user row t = elim (insert_row lock_key lock_id row t) [
  | some t' ↦ ok (to_info row, t')
  | none ↦
      let t' = meanwhile t in
      elim (find_lock k t') [
        | none ↦ err integrity_error
        | some conflict ↦
            if conflict.locked_by == user
            then ok (to_info conflict, t')
            else err (lock_held (to_info conflict))
      ]
]

-- `acquire` after its look and what follows from that.
abbrev pub insert_step :
    (Locks → Locks)
    → (Locks → Locks)
    → LockKey
    → ℕ
    → ℕ
    → ℕ
    → ℕ
    → Option LockInfo × Locks
    → Result LockError (LockInfo × Locks)
insert_step before meanwhile k user id started later (some info, t) = ok (info, t)
insert_step before meanwhile k user id started later (none, t) =
    claim meanwhile k user (new_row k user id started later) (before t)

unfoldable pub acquire :
    (Locks → Locks)
    → (Locks → Locks)
    → (Locks → Locks)
    → LockKey
    → ℕ
    → ℕ
    → ℕ
    → ℕ
    → ℕ
    → Locks
    → Result LockError (LockInfo × Locks)
acquire between before meanwhile k user id started now later t =
    look_up between k user now later t >>= insert_step before meanwhile k user id started later

-- The UPDATE … WHERE holder and not expired … RETURNING; `computed` is read before `now`.
unfoldable pub heartbeat : LockKey → ℕ → ℕ → ℕ → Locks → Result LockError (LockInfo × Locks)
heartbeat k user computed now t = elim (find_lock k t) [
  | none ↦ err lock_expired
  | some row ↦
      if (row.locked_by == user) && ltb now row.expires_at
      then ok (
        to_info (expire_at (new_expiry computed) row),
        update lock_key k (expire_at (new_expiry computed)) t,
      )
      else err lock_expired
]

-- The DELETE … WHERE holder; True if a row was deleted.
unfoldable pub release : LockKey → ℕ → Locks → Bool × Locks
release k user t = elim (find_lock k t) [
  | none ↦ (false, t)
  | some row ↦ if row.locked_by == user then (true, remove lock_key k t) else (false, t)
]

-- The DELETE of the row that `override` has found.
unfoldable pub delete_seen : Option RecordLock → Locks → Option LockInfo × Locks
delete_seen none t = (none, t)
delete_seen (some row) t = (some (to_info row), remove lock_id row.id t)

unfoldable pub override : (Locks → Locks) → LockKey → Locks → Option LockInfo × Locks
override between k t = delete_seen (find_lock k t) (between t)
