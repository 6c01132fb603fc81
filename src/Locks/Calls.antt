-- ===== src/Locks/Calls.antt =====
-- What each call of api/services/record_lock_service.py does to the lock it names and to the
-- others.
use templehe_consign.Locks.{
  act, delete_seen, override, ok, find, LockKey, RecordLock, Locks, IsValid, LockInfo, LockError,
  lock_key, lock_id, find_lock, look_up, claim, insert_step, acquire, heartbeat, release, new_row,
  expire_at, new_expiry, to_info, lock_held, lock_expired,
}
use templehe_consign.Table.{
  remove, update, insert_row, find_key, find-remove_self, find-update_self, find-update_ne,
  find-remove-none, find-remove_by_id, find-remove_by_id_ne, insert_row_inv, find-update_by_id,
  find-update_by_id_ne, insert_row_free, find-cons_self, find-cons_ne, All-find, All-found,
}
use templehe_consign.Base.{
  ℕ, ◌≡◌, refl, ap, subst, ◌∙◌, ◌≢◌, inl, inr, false, Option, none, some, ◌∷◌, arith, ltb,
  if◌then◌else◌, nat_eq, string_eq, pair_eq, Option-cases, ids_eq, int_eq,
}
use templehe_consign.Base.Result.{Result, err, ◌>>=◌}
use mathlib.Core.Option

-- The user who holds a lock that has not expired.
abbrev live : ℕ → Option RecordLock → Option ℕ
live now none = none
live now (some row) = if ltb now row.expires_at then some row.locked_by else none

abbrev pub holder : ℕ → LockKey → Locks → Option ℕ
holder now k t = live now (find_lock k t)

-- The row of a lock is the row of its id.
pub found_by_own_id :
    (k : LockKey) (t : Locks) {row : RecordLock}
    → IsValid t
    → find_lock k t ≡ some row
    → find lock_id row.id t ≡ some row
found_by_own_id k t v e =
    All-find lock_key (λ r. find lock_id r.id t ≡ some r) k t (All-found lock_id t v.1) e

pub found_by_own_key :
    (i : ℕ) (t : Locks) {row : RecordLock}
    → IsValid t
    → find lock_id i t ≡ some row
    → find_lock (lock_key row) t ≡ some row
found_by_own_key i t v e =
    All-find lock_id (λ r. find_lock (lock_key r) t ≡ some r) i t (All-found lock_key t v.0) e

-- While one user holds a live lock, `acquire` by another raises LockHeldError with that lock,
-- whatever other sessions do between its statements.
pub acquire_held :
    (between before meanwhile : Locks → Locks) (k : LockKey) (user other id started now later : ℕ)
    (t : Locks)
    → other ≢ user
    → holder now k t ≡ some other
    → (row : RecordLock) × (find_lock k t ≡ some row)
      × (row.locked_by ≡ other)
      × (acquire between before meanwhile k user id started now later t
          ≡ err (lock_held (to_info row)))
unfolding acquire look_up act
acquire_held between before meanwhile k user other id started now later t n h =
    elim (Option-cases (find_lock k t)) [
      | inl e ↦ absurd (ground arith)
      | inr (row, e) ↦ (row, e, ground arith, ground arith)
    ]

-- With no other session between its look, its DELETE and its INSERT, `acquire` locks a record
-- whose lock has expired or does not exist: the row with the caller and the expiry after 15 minutes
-- is in the table, and no other lock changes. The table keeps its constraints and the drawn id is
-- new.
pub acquire_free :
    (meanwhile : Locks → Locks) (k : LockKey) (user id started now later : ℕ) (t : Locks)
    → IsValid t
    → find lock_id id t ≡ none
    → holder now k t ≡ none
    → (t' : Locks) × (acquire (λ s. s) (λ s. s) meanwhile k user id started now later t
        ≡ ok (to_info (new_row k user id started later), t'))
      × (find_lock k t' ≡ some (new_row k user id started later))
      × ((j : LockKey) → j ≢ k → find_lock j t' ≡ find_lock j t)
unfolding acquire look_up act claim
acquire_free meanwhile k user id started now later t v fresh h =
    elim (Option-cases (find_lock k t)) [
      | inl e ↦ (
        row' ∷ t,
        ground (arith, insert_row_free lock_key lock_id row' t e fresh),
        find-cons_self lock_key row' t,
        λ j n. find-cons_ne lock_key j row' t n,
      )
      | inr (row, e) ↦
          let rest = remove lock_id row.id t in
          (
            row' ∷ rest,
            ground (
              arith,
              insert_row_free lock_key lock_id row' rest
                  (find-remove_by_id lock_key lock_id k t v.0 e)
                  (find-remove-none lock_id id row.id t fresh),
            ),
            find-cons_self lock_key row' rest,
            λ j n.
                find-cons_ne lock_key j row' rest n
                ∙ find-remove_by_id_ne lock_key lock_id j k t v.1 n e,
          )
    ]
  where
    row' : RecordLock
    row' = new_row k user id started later

-- With no other session between its look and its UPDATE, the `acquire` of the holder of a live lock,
-- in a table that keeps its constraints, refreshes the expiry and changes no other lock.
pub acquire_own :
    (before meanwhile : Locks → Locks) (k : LockKey) (user id started now later : ℕ) (t : Locks)
    → IsValid t
    → holder now k t ≡ some user
    → (row : RecordLock) × (t' : Locks) × (find_lock k t ≡ some row)
      × (acquire (λ s. s) before meanwhile k user id started now later t
          ≡ ok (to_info (expire_at (new_expiry later) row), t'))
      × (find_lock k t' ≡ some (expire_at (new_expiry later) row))
      × ((j : LockKey) → j ≢ k → find_lock j t' ≡ find_lock j t)
unfolding acquire look_up act
acquire_own before meanwhile k user id started now later t v h =
    elim (Option-cases (find_lock k t)) [
      | inl e ↦ absurd (ground arith)
      | inr (row, e) ↦
          (let same = found_by_own_id k t v e in
            (
              row,
              update lock_id row.id (expire_at (new_expiry later)) t,
              e,
              ground arith,
              find-update_by_id lock_key lock_id k (expire_at (new_expiry later)) t (λ x. refl) v.1
                  e,
              λ j n.
                  find-update_by_id_ne lock_key lock_id j k (expire_at (new_expiry later)) t
                    (λ x. refl) v.1 n e,
            ))
    ]

-- The row of a lock that a call has reported to its caller.
abbrev pub Owned : LockKey → ℕ → LockInfo → Locks → Type 0
Owned k user info t =
    (row : RecordLock) × (find_lock k t ≡ some row) × (row.locked_by ≡ user) × (info ≡ to_info row)

claim-Owned :
    (meanwhile : Locks → Locks) (k : LockKey) (user id started later : ℕ) (t : Locks)
    {info : LockInfo} {t' : Locks}
    → claim meanwhile k user (new_row k user id started later) t ≡ ok (info, t')
    → Owned k user info t'
unfolding claim
claim-Owned meanwhile k user id started later t h =
    elim (Option-cases (insert_row lock_key lock_id row' t)) [
      | inr (s, e) ↦
          let (p, _, _) = insert_row_inv lock_key lock_id row' t e in
          (row', ground (arith, find-cons_self lock_key row' t), refl, ground arith)
      | inl e ↦ elim (Option-cases (find_lock k (meanwhile t))) [
        | inl f ↦ absurd (ground arith)
        | inr (row, f) ↦ (row, ground arith, ground arith, ground arith)
      ]
    ]
  where
    row' : RecordLock
    row' = new_row k user id started later

-- What other sessions may do between two statements of a call: they keep the constraints, and
-- change no column of a row but its expiry. (A row may go, and another come with another id.)
pub record Preserves (f : Locks → Locks) : Type 0 where
  pub constraints : (t : Locks) → IsValid t → IsValid (f t)
  pub columns :
      (t : Locks) (row row' : RecordLock)
      → IsValid t
      → find lock_id row.id t ≡ some row
      → find lock_id row.id (f t) ≡ some row'
      → row' ≡ expire_at row'.expires_at row

-- A look that finds the caller's own lock reports the row that it has refreshed.
refreshed-Owned :
    (k : LockKey) (user later : ℕ) (t : Locks) (row row' : RecordLock)
    → IsValid t
    → row.locked_by ≡ user
    → lock_key row ≡ k
    → find lock_id row.id t ≡ some row'
    → row' ≡ expire_at row'.expires_at row
    → Owned k user
        (to_info (expire_at (new_expiry later) row))
        (update lock_id row.id (expire_at (new_expiry later)) t)
refreshed-Owned k user later t row row' v mine e f same = (
  moved row,
  subst (λ r. find_lock k (update lock_id row.id moved t) ≡ some r) (ap moved same)
      (subst (λ i. find_lock k (update lock_id i moved t) ≡ some (moved row')) (ap (λ r. r.id) same)
        (find-update_by_id lock_key lock_id k moved t (λ x. refl) v.1 there)),
  mine,
  refl,
)
  where
    moved : RecordLock → RecordLock
    moved = expire_at (new_expiry later)

    there : find_lock k t ≡ some row'
    there =
        subst (λ j. find_lock j t ≡ some row') (ap lock_key same ∙ e)
          (found_by_own_key row.id t v f)

act-Owned :
    (between : Locks → Locks) (k : LockKey) (user now later : ℕ) (t : Locks) (row : RecordLock)
    {info : LockInfo} {t' : Locks}
    → Preserves between
    → IsValid t
    → find_lock k t ≡ some row
    → act user now later (some row) (between t) ≡ ok (some info, t')
    → Owned k user info t'
unfolding act
act-Owned between k user now later t row {info} {t'} p v e h =
    elim (Option-cases (find lock_id row.id (between t))) [
      | inl f ↦ absurd (ground arith)
      | inr (row', f) ↦
          (let mine : row.locked_by ≡ user = ground arith in
            let told : to_info (expire_at (new_expiry later) row) ≡ info = ground arith in
            let left : update lock_id row.id (expire_at (new_expiry later)) (between t) ≡ t' =
              ground arith in
            subst (λ i. Owned k user i t') told
              (subst (Owned k user (to_info (expire_at (new_expiry later) row))) left (
                refreshed-Owned k user later (between t) row row' (p.constraints t v) mine
                  (find_key lock_key k t e) f
                  (p.columns t row row' v (found_by_own_id k t v e) f))))
    ]

-- If a call of `acquire` returns, from a table that keeps its constraints, then the row that it
-- reports is in the table that it leaves and names the caller, whatever other sessions do between
-- its statements, if between the look and what follows from it they keep the constraints and change
-- no column of a row but its expiry.
pub acquire_sound :
    (between before meanwhile : Locks → Locks) (k : LockKey) (user id started now later : ℕ)
    (t : Locks) {info : LockInfo} {t' : Locks}
    → Preserves between
    → IsValid t
    → acquire between before meanwhile k user id started now later t ≡ ok (info, t')
    → Owned k user info t'
unfolding acquire look_up act
acquire_sound between before meanwhile k user id started now later t {info} {t'} p v h =
    elim (Option-cases (find_lock k t)) [
      | inl e ↦ claim-Owned meanwhile k user id started later (before (between t)) (ground arith)
      | inr (row, e) ↦ go row e (act user now later (some row) (between t)) refl (
          subst
            (λ seen.
              (act user now later seen (between t)
                >>= insert_step before meanwhile k user id started later)
              ≡ ok (info, t'))
            e h)
    ]
  where
    go :
        (row : RecordLock)
        → find_lock k t ≡ some row
        → (r : Result LockError (Option LockInfo × Locks))
        → act user now later (some row) (between t) ≡ r
        → (r >>= insert_step before meanwhile k user id started later) ≡ ok (info, t')
        → Owned k user info t'
    go row e (err x) a q = cc q
    go row e (ok (none, s)) a q = claim-Owned meanwhile k user id started later (before s) q
    go row e (ok (some own, s)) a q = act-Owned between k user now later t row p v e (ground arith)

-- A heartbeat of the holder of a live lock returns it with its expiry moved, and touches no other
-- lock.
pub heartbeat-holder :
    (k : LockKey) (user computed now : ℕ) (t : Locks)
    → holder now k t ≡ some user
    → (row : RecordLock) × (t' : Locks) × (heartbeat k user computed now t ≡ ok (to_info row, t'))
      × (find_lock k t' ≡ some row)
      × (row.locked_by ≡ user)
      × (row.expires_at ≡ new_expiry computed)
      × ((j : LockKey) → j ≢ k → find_lock j t' ≡ find_lock j t)
unfolding heartbeat
heartbeat-holder k user computed now t h = elim (Option-cases (find_lock k t)) [
  | inl e ↦ absurd (ground arith)
  | inr (row, e) ↦ (
    moved row,
    update lock_key k moved t,
    ground arith,
    find-update_self lock_key k moved t (λ x. refl) e,
    ground arith,
    refl,
    λ j n. find-update_ne lock_key j k moved t (λ x. refl) n,
  )
]
  where
    moved : RecordLock → RecordLock
    moved = expire_at (new_expiry computed)

-- A heartbeat of anyone but the holder of a live lock raises LockExpiredError.
pub heartbeat_other :
    (k : LockKey) (user computed now : ℕ) (t : Locks)
    → holder now k t ≢ some user
    → heartbeat k user computed now t ≡ err lock_expired
unfolding heartbeat
heartbeat_other k user computed now t h = elim (Option-cases (find_lock k t)) [
  | inl e ↦ ground arith
  | inr (row, e) ↦ ground arith
]

-- Releasing twice is releasing once: the second call returns False and deletes nothing.
pub release_idempotent :
    (k : LockKey) (user : ℕ) (t : Locks)
    → release k user (release k user t).1 ≡ (false, (release k user t).1)
unfolding release
release_idempotent k user t = elim (Option-cases (find_lock k t)) [
  | inl e ↦ ground arith
  | inr (row, e) ↦ ground (arith, find-remove_self lock_key k t)
]

-- An override with no other session at work, in a table that keeps its constraints, reports the lock that it removes, leaves the
-- record free and all other locks alone.
pub override_lem :
    (k : LockKey) (t : Locks)
    → IsValid t
    → ((override (λ s. s) k t).0 ≡ Option.map to_info (find_lock k t))
      × (find_lock k (override (λ s. s) k t).1 ≡ none)
      × ((j : LockKey) → j ≢ k → find_lock j (override (λ s. s) k t).1 ≡ find_lock j t)
unfolding override delete_seen
override_lem k t v = elim (Option-cases (find_lock k t)) [
  | inl e ↦ (ground arith, ground arith, λ j n. ground arith)
  | inr (row, e) ↦ (
    ground arith,
    ground (arith, find-remove_by_id lock_key lock_id k t v.0 e),
    λ j n. ground (arith, find-remove_by_id_ne lock_key lock_id j k t v.1 n e),
  )
]
