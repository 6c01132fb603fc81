-- ===== src/Tests/LockRuns.antt =====
-- A record that one user has locked, and the calls of others on it.
use templehe_consign.Locks.Calls.{acquire_free, acquire_sound, Owned, Preserves}
use templehe_consign.Base.{
  ◌≡◌, refl, ap, subst, ◌≢◌, none, some, List, [], ◌∷◌, arith, nat_eq, string_eq, pair_eq, ids_eq,
  int_eq,
}
use templehe_consign.Base.Result.{ok}
use templehe_consign.Table.{find}
use templehe_consign.Locks.{
  LockKey, RecordLock, Locks, IsValid, lock_id, find_lock, to_info, expire_at, new_row, acquire,
  look_up, act, claim, heartbeat,
}
use templehe_consign.Locks.Steps.{Step, World, run, looks, deletes, acts, claims, heartbeats}
use templehe_consign.Locks.Holding.{Held}
use templehe_consign.Locks.Exclusion.{run-Held}
use templehe_consign.Locks.Races.{lost_lock}

abbrev truck : LockKey
truck = (7, "equipment_record")

abbrev other_truck : LockKey
other_truck = (8, "equipment_record")

abbrev row : RecordLock
row = record {
  id = 1;
  record_id = 7;
  record_type = "equipment_record";
  locked_by = 3;
  locked_at = 0;
  expires_at = 900000000;
}

abbrev locked : Locks
locked = row ∷ []

locked-IsValid : IsValid locked
locked-IsValid = ((refl, tt), (refl, tt))

abbrev quiet : Locks → Locks
quiet t = t

-- No session has read anything.
abbrev world : World
world = record { locks = locked; seen = λ session k. none }

-- Session 1 is a call of `acquire` by another user, who looks at the lock; session 2 overrides the
-- lock on another record; session 3 is a heartbeat of the holder.
abbrev steps : List Step
steps =
    record { statement = looks truck; session = 1; id = 0; started = 5; now = 100; later = 101 }
    ∷ record {
      statement = looks other_truck;
      session = 2;
      id = 0;
      started = 6;
      now = 110;
      later = 111;
    }
    ∷ record {
      statement = deletes other_truck;
      session = 2;
      id = 0;
      started = 6;
      now = 120;
      later = 121;
    }
    ∷ record {
      statement = heartbeats truck 3;
      session = 3;
      id = 0;
      started = 7;
      now = 130;
      later = 131;
    }
    ∷ record { statement = acts truck 4; session = 1; id = 0; started = 5; now = 140; later = 141 }
    ∷ record {
      statement = claims truck 4;
      session = 1;
      id = 2;
      started = 5;
      now = 150;
      later = 151;
    }
    ∷ []

run-Held_example : Held truck 3 1 800000000 (run steps world).locks
run-Held_example =
    run-Held truck 3 1 800000000 steps world locked-IsValid (λ session j seen e n. absurd (cc e))
      (
        (tt, omega arith),
        (
          (tt, omega arith),
          (
            ((λ h. let p : 7 ≡ 8 = ap (λ k. k.0) h in omega arith), omega arith),
            (
              ((λ e. omega arith), omega arith),
              (((λ e. omega arith), omega arith), ((tt, omega arith), tt)),
            ),
          ),
        ),
      )
      (record { row = row; there = refl; its_id = refl; mine = refl; lasts = omega arith })

abbrev fresh : RecordLock
fresh = new_row truck 4 2 5 900000002

acquires :
    acquire quiet quiet quiet truck 4 2 5 900000001 900000002 locked
    ≡ ok (to_info fresh, fresh ∷ [])
unfolding acquire look_up act claim
acquires = refl

same_row :
    (t : Locks) (r r' : RecordLock)
    → find lock_id r.id t ≡ some r
    → find lock_id r.id t ≡ some r'
    → r' ≡ expire_at r'.expires_at r
same_row t r r' e f =
    (let q : r ≡ r' = cc (e, f) in subst (λ s. s ≡ expire_at s.expires_at r) q refl)

quiet-Preserves : Preserves quiet
quiet-Preserves = record { constraints = λ t v. v; columns = λ t r r' v e f. same_row t r r' e f }

acquire_sound_example : Owned truck 4 (to_info fresh) (fresh ∷ [])
acquire_sound_example =
    acquire_sound quiet quiet quiet truck 4 2 5 900000001 900000002 locked quiet-Preserves
      locked-IsValid acquires

-- A heartbeat at 899999999 moves the expiry from 900000000 to 1799999998.
abbrev prolonged : RecordLock
prolonged = expire_at 1799999998 row

lost_lock_example :
    (heartbeat truck 3 899999998 899999999 locked ≡ ok (to_info prolonged, prolonged ∷ []))
    × (find_lock truck (prolonged ∷ []) ≡ some prolonged)
    × ((t' : Locks) × (acquire
            (λ s. prolonged ∷ [])
            quiet
            quiet
            truck
            4
            2
            5
            900000001
            900000002
            locked
          ≡ ok (to_info fresh, t'))
        × (find_lock truck t' ≡ some fresh))
lost_lock_example =
    lost_lock quiet truck 3 4 2 5 899999999 899999998 900000001 900000002 locked row locked-IsValid
      refl refl refl (omega arith) (omega arith)

acquire_free_example :
    (t' : Locks) × (acquire quiet quiet quiet truck 4 2 5 900000001 900000002 locked
      ≡ ok (to_info fresh, t'))
    × (find_lock truck t' ≡ some fresh)
    × ((j : LockKey) → j ≢ truck → find_lock j t' ≡ find_lock j locked)
acquire_free_example =
    acquire_free quiet truck 4 2 5 900000001 900000002 locked locked-IsValid refl refl
