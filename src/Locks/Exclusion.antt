-- ===== src/Locks/Exclusion.antt =====
-- Mutual exclusion by the calls of api/services/record_lock_service.py, and its limits.
use templehe_consign.Table.{find, find_key}
use templehe_consign.Base.{
  ℕ, ◌≤◌, ◌<◌, ◌≡◌, refl, sym, ap, subst, ◌∙◌, inl, inr, ◌&&◌, some, List, [], ◌∷◌, arith, ◌==◌,
  nat_eq, string_eq, pair_eq, eq→≡, Bool-cases, All, ids_eq, int_eq,
}
use templehe_consign.Locks.{LockKey, RecordLock, Locks, IsValid, lock_key, lock_id, find_lock}
use templehe_consign.Locks.Calls.{found_by_own_id}
use templehe_consign.Locks.Holding.{
  Held, Recalls, Spares, act-Held, claim-Held, heartbeat-Held, release-Held, delete_seen-Held,
}
use templehe_consign.Locks.Steps.{
  Statement, looks, deletes, acts, claims, heartbeats, releases, Step, Memory, World, remember,
  write, read, step, run, write-IsValid,
}

module _ (k : LockKey) (user i until : ℕ) where
  -- A row with the id of the lock is the lock.
  recalled :
      (j : LockKey) (t : Locks) (row : RecordLock)
      → IsValid t
      → Held k user i until t
      → find_lock j t ≡ some row
      → row.id ≡ i
      → (j ≡ k) × (row.locked_by ≡ user) × (until ≤ row.expires_at)
  recalled j t row v h f e =
      let same : some row ≡ some h.row =
        sym (found_by_own_id j t v f)
        ∙ ap (λ n. find lock_id n t) (e ∙ sym h.its_id)
        ∙ found_by_own_id k t v h.there in
      let one : row ≡ h.row = cc same in
      (
        sym (find_key lock_key j t f) ∙ ap lock_key one ∙ find_key lock_key k t h.there,
        ap (λ r. r.locked_by) one ∙ h.mine,
        subst (λ r. until ≤ r.expires_at) (sym one) h.lasts,
      )

  look-Recalls :
      (session : ℕ) (j : LockKey) (t : Locks) (seen : Memory)
      → IsValid t
      → Held k user i until t
      → Recalls k user i until seen
      → Recalls k user i until (remember session j (find_lock j t) seen)
  look-Recalls session j t seen v h m s l row e n = elim (Bool-cases ((s == session) && (l == j))) [
    | inr b ↦ m s l row (ground arith) n
    | inl b ↦
        (let q : l ≡ j = eq→≡ l j (ground arith) in
          let (a, mine, lasts) = recalled j t row v h (ground arith) n in (q ∙ a, mine, lasts))
  ]

  write-Held :
      (c : Statement) (s : Step) (seen : Memory) (t : Locks)
      → IsValid t
      → Held k user i until t
      → Recalls k user i until seen
      → Spares k user until c s
      → s.now < until
      → Held k user i until (write c s seen t)
  write-Held (looks j) s seen t v h m p l = h
  write-Held (deletes j) s seen t v h m p l =
      delete_seen-Held k user i until (seen s.session j) t h
        (λ row e n. p (sym (m s.session j row e n).0))
  write-Held (acts j other) s seen t v h m p l =
      act-Held k user i until other s.now s.later (seen s.session j) t v h
        (λ row e n. let (_, mine, lasts) = m s.session j row e n in (mine, lasts)) l p
  write-Held (claims j other) s seen t v h m p l = claim-Held k user i until j other _ t refl h
  write-Held (heartbeats j other) s seen t v h m p l =
      heartbeat-Held k user i until j other s.later s.now t h p
  write-Held (releases j other) s seen t v h m p l = release-Held k user i until j other t h p

  read-Recalls :
      (c : Statement) (s : Step) (seen : Memory) (t : Locks)
      → IsValid t
      → Held k user i until t
      → Recalls k user i until seen
      → Recalls k user i until (read c s t seen)
  read-Recalls (looks j) s seen t v h m = look-Recalls s.session j t seen v h m
  read-Recalls (deletes j) s seen t v h m = m
  read-Recalls (acts j other) s seen t v h m = m
  read-Recalls (claims j other) s seen t v h m = m
  read-Recalls (heartbeats j other) s seen t v h m = m
  read-Recalls (releases j other) s seen t v h m = m

  -- In a table that keeps its constraints, a lock that one user holds at least until some instant
  -- is held by that user until then through any interleaving, before that instant, of the
  -- statements of any sessions, if none overrides this lock, the holder does not release it, and a
  -- refresh by the holder lasts until then; and if no session, at the start, is between a look at
  -- this lock while its expiry was earlier and the statement that follows from it.
  pub run-Held :
      (ss : List Step) (w : World)
      → IsValid w.locks
      → Recalls k user i until w.seen
      → All (λ s. Spares k user until s.statement s × (s.now < until)) ss
      → Held k user i until w.locks
      → Held k user i until (run ss w).locks
  unfolding run step
  run-Held [] w v m a h = h
  run-Held (s ∷ ss) w v m a h =
      run-Held ss (step s w) (write-IsValid s.statement s w.seen w.locks v)
        (read-Recalls s.statement s w.seen w.locks v h m) a.1
        (write-Held s.statement s w.seen w.locks v h m a.0.0 a.0.1)
