-- ===== src/Locks/Invariant.antt =====
-- The calls of api/services/record_lock_service.py and the two unique columns of the table, with
-- other sessions at work.
use templehe_consign.Locks.{
  act, delete_seen, new_row, insert_step, insert_row, LockInfo, RecordLock, claim, acquire,
  find_lock, LockKey, Locks, IsValid, LockError, lock_key, lock_id, look_up, heartbeat, release,
  expire_at, new_expiry,
}
use templehe_consign.Table.{
  find, remove, update, remove-IsUnique, update-IsUnique, remove_by-IsUnique, insert_row-IsKeyed,
  update_by-IsUnique,
}
use templehe_consign.Base.{
  ℕ, refl, inl, inr, Option, none, some, arith, nat_eq, string_eq, pair_eq, Option-cases, ids_eq,
  int_eq,
}
use templehe_consign.Base.Result.{Result, ok, err, ◌>>=◌}

remove_id-IsValid : (i : ℕ) (t : Locks) → IsValid t → IsValid (remove lock_id i t)
remove_id-IsValid i t h =
    (remove_by-IsUnique lock_key lock_id i t h.0, remove-IsUnique lock_id i t h.1)

remove_key-IsValid : (k : LockKey) (t : Locks) → IsValid t → IsValid (remove lock_key k t)
remove_key-IsValid k t h =
    (remove-IsUnique lock_key k t h.0, remove_by-IsUnique lock_id lock_key k t h.1)

update_id-IsValid : (i e : ℕ) (t : Locks) → IsValid t → IsValid (update lock_id i (expire_at e) t)
update_id-IsValid i e t h = (
  update_by-IsUnique lock_key lock_id i (expire_at e) t (λ x. refl) h.0,
  update-IsUnique lock_id i (expire_at e) t (λ x. refl) h.1,
)

update_key-IsValid :
    (k : LockKey) (e : ℕ) (t : Locks) → IsValid t → IsValid (update lock_key k (expire_at e) t)
update_key-IsValid k e t h = (
  update-IsUnique lock_key k (expire_at e) t (λ x. refl) h.0,
  update_by-IsUnique lock_id lock_key k (expire_at e) t (λ x. refl) h.1,
)

-- What a call that ended in `r` has left in the table.
abbrev pub Leaves : {A : Type 0} → (Locks → Type 0) → Result LockError (A × Locks) → Type 0
Leaves P (ok (a, t)) = P t
Leaves P (err e) = Unit

pub act-IsValid :
    (user now later : ℕ) (seen : Option RecordLock) (t : Locks)
    → IsValid t
    → Leaves IsValid (act user now later seen t)
unfolding act
act-IsValid user now later none t h = h
act-IsValid user now later (some row) t h = elim (Option-cases (find lock_id row.id t)) [
  | inl e ↦ ground (arith, remove_id-IsValid row.id t h)
  | inr (r, e) ↦
      ground (arith, remove_id-IsValid row.id t h, update_id-IsValid row.id (new_expiry later) t h)
]

pub heartbeat-IsValid :
    (k : LockKey) (user computed now : ℕ) (t : Locks)
    → IsValid t
    → Leaves IsValid (heartbeat k user computed now t)
unfolding heartbeat
heartbeat-IsValid k user computed now t h =
    ground (arith, update_key-IsValid k (new_expiry computed) t h)

pub release-IsValid :
    (k : LockKey) (user : ℕ) (t : Locks) → IsValid t → IsValid (release k user t).1
unfolding release
release-IsValid k user t h = ground (arith, remove_key-IsValid k t h)

pub delete_seen-IsValid :
    (seen : Option RecordLock) (t : Locks) → IsValid t → IsValid (delete_seen seen t).1
unfolding delete_seen
delete_seen-IsValid none t h = h
delete_seen-IsValid (some row) t h = remove_id-IsValid row.id t h

-- Other sessions keep the constraints as well.
abbrev pub Keeps : (Locks → Locks) → Type 0
Keeps f = (t : Locks) → IsValid t → IsValid (f t)

pub claim-IsValid :
    (meanwhile : Locks → Locks) (k : LockKey) (user : ℕ) (row : RecordLock) (t : Locks)
    → Keeps meanwhile
    → IsValid t
    → Leaves IsValid (claim meanwhile k user row t)
unfolding claim
claim-IsValid meanwhile k user row t keeps h =
    elim (Option-cases (insert_row lock_key lock_id row t)) [
      | inl e ↦ ground (arith, keeps t h)
      | inr (t', e) ↦ rw (e, Leaves, claim) (insert_row-IsKeyed lock_key lock_id row t h e)
    ]

-- If the other sessions keep one lock for each record and one row for each id, then so does every
-- call of `acquire` that returns, however their calls fall between its statements.
pub acquire-IsValid :
    (between before meanwhile : Locks → Locks) (k : LockKey) (user id started now later : ℕ)
    (t : Locks)
    → Keeps between
    → Keeps before
    → Keeps meanwhile
    → IsValid t
    → Leaves IsValid (acquire between before meanwhile k user id started now later t)
unfolding acquire look_up
acquire-IsValid between before meanwhile k user id started now later t kt kb km h =
    go (act user now later (find_lock k t) (between t))
      (act-IsValid user now later (find_lock k t) (between t) (kt t h))
  where
    go :
        (r : Result LockError (Option LockInfo × Locks))
        → Leaves IsValid r
        → Leaves IsValid (r >>= insert_step before meanwhile k user id started later)
    go (err e) v = tt
    go (ok (some info, t')) v = v
    go (ok (none, t')) v =
        claim-IsValid meanwhile k user (new_row k user id started later) (before t') km (kb t' v)
