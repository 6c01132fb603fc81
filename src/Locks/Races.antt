-- ===== src/Locks/Races.antt =====
-- What a heartbeat between the look and the DELETE of another user's `acquire` comes to,
-- api/services/record_lock_service.py.
use templehe_consign.Base.Result.{ok}
use templehe_consign.Base.{
  ℕ, ◌≤◌, ◌<◌, ◌≡◌, refl, none, some, ◌∷◌, arith, nat_eq, string_eq, pair_eq, ids_eq, int_eq,
}
use templehe_consign.Table.{
  find, remove, update, find-update_self, find-remove-none, update-IsUnique, find-remove_by_id,
  find-update_by_none, insert_row_free, find-cons_self,
}
use templehe_consign.Locks.{
  LockKey, RecordLock, Locks, IsValid, lock_key, lock_id, find_lock, act, acquire, look_up, claim,
  heartbeat, new_row, to_info, expire_at, new_expiry,
}

module _ (meanwhile : Locks → Locks) (k : LockKey)
    (user other id started beat computed now later : ℕ) (t : Locks) (row : RecordLock) where
  -- The table after the heartbeat of the holder, and after the DELETE of the other user.
  abbrev beaten : Locks
  beaten = update lock_key k (expire_at (new_expiry computed)) t

  abbrev cleared : Locks
  cleared = remove lock_id row.id beaten

  -- The holder's heartbeat, in time, is committed between the look and the DELETE of another user's
  -- `acquire`, whose clock is read when the expiry that it has seen is over. Then the heartbeat
  -- returns the lock with its new expiry, and the `acquire` deletes it all the same and returns a
  -- lock of its own, which is the one in the table. The table keeps its constraints, and the drawn
  -- id is new.
  pub lost_lock :
      IsValid t
      → find_lock k t ≡ some row
      → row.locked_by ≡ user
      → find lock_id id t ≡ none
      → beat < row.expires_at
      → row.expires_at ≤ now
      → (heartbeat k user computed beat t
          ≡ ok (to_info (expire_at (new_expiry computed) row), beaten))
        × (find_lock k beaten ≡ some (expire_at (new_expiry computed) row))
        × ((t' : Locks) × (acquire (λ s. beaten) (λ s. s) meanwhile k other id started now later t
              ≡ ok (to_info (new_row k other id started later), t'))
            × (find_lock k t' ≡ some (new_row k other id started later)))
  unfolding heartbeat acquire look_up act claim
  lost_lock v f mine fresh early over =
      let there = find-update_self lock_key k (expire_at (new_expiry computed)) t (λ x. refl) f in
      let gone : find_lock k cleared ≡ none =
        find-remove_by_id lock_key lock_id k beaten
          (update-IsUnique lock_key k (expire_at (new_expiry computed)) t (λ x. refl) v.0) there in
      let new_id : find lock_id id cleared ≡ none = find-remove-none lock_id id row.id beaten (
        find-update_by_none lock_id lock_key id k (expire_at (new_expiry computed)) t (λ x. refl)
          fresh) in
      let row' = new_row k other id started later in
      (
        ground arith,
        there,
        (
          row' ∷ cleared,
          ground (arith, insert_row_free lock_key lock_id row' cleared gone new_id),
          find-cons_self lock_key row' cleared,
        ),
      )
