-- ===== src/Locks/Holding.antt =====
-- A lock that one user holds, and what each statement of api/services/record_lock_service.py does to
-- it.
use templehe_consign.Locks.{
  lock_key, lock_id, act, claim, heartbeat, release, delete_seen, IsValid, LockKey, RecordLock,
  Locks, find_lock, new_expiry, expire_at,
}
use templehe_consign.Base.{
  ℕ, ◌≤◌, ◌<◌, ◌≡◌, refl, sym, ap, subst, ◌∙◌, ◌≢◌, inl, inr, true, ◌&&◌, Option, none, some, arith,
  ltb, leb, ◌==◌, nat_eq, string_eq, pair_eq, eq→≡, Bool-cases, Option-cases, eq-cases, ids_eq,
  int_eq,
}
use templehe_consign.Table.{
  find, update, insert_row, find-remove_ne, find-update_self, find-update_ne, insert_row_inv,
  find-update_by_id, find-cons_ne, find-remove_other_id, find-update_other_id,
}
use templehe_consign.Locks.Steps.{
  after, Statement, looks, deletes, acts, claims, heartbeats, releases, Step, Memory,
}

-- `user` has the lock on `k` with the row of id `i` at least until `until`.
pub record Held (k : LockKey) (user i until : ℕ) (t : Locks) : Type 0 where
  pub row : RecordLock
  pub there : find_lock k t ≡ some row
  pub its_id : row.id ≡ i
  pub mine : row.locked_by ≡ user
  pub lasts : until ≤ row.expires_at

-- What a session remembers of the row with id `i`, if it has read it: it read it as the lock on `k`
-- of `user`, with an expiry that was not before `until`.
abbrev pub Recalls : LockKey → ℕ → ℕ → ℕ → Memory → Type 0
Recalls k user i until seen =
    (session : ℕ) (j : LockKey) (row : RecordLock)
    → seen session j ≡ some row
    → row.id ≡ i
    → (j ≡ k) × (row.locked_by ≡ user) × (until ≤ row.expires_at)

-- The statements that may not be run on `k` while `user` is to keep it until `until`: an override,
-- the holder's own release, and a refresh by the holder that ends before `until`.
abbrev pub Spares : LockKey → ℕ → ℕ → Statement → Step → Type 0
Spares k user until (looks j) s = Unit
Spares k user until (deletes j) s = k ≢ j
Spares k user until (acts j other) s = other ≡ user → until ≤ new_expiry s.later
Spares k user until (claims j other) s = Unit
Spares k user until (heartbeats j other) s = other ≡ user → until ≤ new_expiry s.later
Spares k user until (releases j other) s = other ≢ user

module _ (k : LockKey) (user i until : ℕ) where
  refreshed :
      (t t' : Locks) (end : ℕ) (h : Held k user i until t)
      → until ≤ end
      → find_lock k t' ≡ some (expire_at end h.row)
      → Held k user i until t'
  refreshed t t' end h l f = record {
    row = expire_at end h.row;
    there = f;
    its_id = h.its_id;
    mine = h.mine;
    lasts = l;
  }

  kept :
      (t t' : Locks) (h : Held k user i until t)
      → find_lock k t' ≡ some h.row
      → Held k user i until t'
  kept t t' h f = record {
    row = h.row;
    there = f;
    its_id = h.its_id;
    mine = h.mine;
    lasts = h.lasts;
  }

  -- The DELETE or UPDATE of `acquire`, after a look that has found `found`.
  pub act-Held :
      (other now later : ℕ) (found : Option RecordLock) (t : Locks)
      → IsValid t
      → Held k user i until t
      → ((row : RecordLock)
          → found ≡ some row
          → row.id ≡ i
          → (row.locked_by ≡ user) × (until ≤ row.expires_at))
      → now < until
      → (other ≡ user → until ≤ new_expiry later)
      → Held k user i until (after t (act other now later found t))
  unfolding act
  act-Held other now later none t v h m l n = h
  act-Held other now later (some row) t v h m l n = elim (Bool-cases (leb row.expires_at now)) [
    | inl e ↦ rw e (kept t _ h (find-remove_other_id lock_key lock_id k row.id t (stale e) h.there))
    | inr e ↦ elim (Bool-cases (row.locked_by == other)) [
      | inr q ↦ rw (e, q) h
      | inl q ↦ elim (Option-cases (find lock_id row.id t)) [
        | inl f ↦ rw (e, q, f) h
        | inr (r, f) ↦ rw (e, q, f) (moved (eq→≡ row.locked_by other q) f)
      ]
    ]
  ]
    where
      stale : leb row.expires_at now ≡ true → row.id ≢ h.row.id
      stale e q = absurd (let (_, late) = m row refl (q ∙ h.its_id) in ground (arith, late))

      moved :
          row.locked_by ≡ other
          → {r : RecordLock} → find lock_id row.id t ≡ some r
          → Held k user i until (update lock_id row.id (expire_at (new_expiry later)) t)
      moved q f = elim (eq-cases row.id h.row.id) [
        | inr ne ↦ kept t _ h (
            find-update_other_id lock_key lock_id k row.id (expire_at (new_expiry later)) t
              (λ x. refl) ne h.there)
        | inl same ↦
            refreshed t _ (new_expiry later) h (n (sym q ∙ (m row refl (same ∙ h.its_id)).0)) (
              subst
                (λ n.
                  find_lock k (update lock_id n (expire_at (new_expiry later)) t)
                  ≡ some (expire_at (new_expiry later) h.row))
                (sym same)
                (find-update_by_id lock_key lock_id k (expire_at (new_expiry later)) t (λ x. refl)
                  v.1 h.there))
      ]

  pub claim-Held :
      (j : LockKey) (other : ℕ) (row : RecordLock) (t : Locks)
      → lock_key row ≡ j
      → Held k user i until t
      → Held k user i until (after t (claim (λ u. u) j other row t))
  unfolding claim
  claim-Held j other row t e h = elim (Option-cases (insert_row lock_key lock_id row t)) [
    | inr (t', f) ↦
        (let (p, free, _) = insert_row_inv lock_key lock_id row t f in
          let apart : k ≢ lock_key row = λ q. cc (h.there, free, ap (λ l. find_lock l t) q) in
          rw (f, p, after, claim) (kept t _ h (find-cons_ne lock_key k row t apart ∙ h.there)))
    | inl f ↦ elim (Option-cases (find_lock j t)) [
      | inl g ↦ rw (f, g, after, claim) h
      | inr (conflict, g) ↦ elim (Bool-cases (conflict.locked_by == other)) [
        | inl q ↦ rw (f, g, q, after, claim) h
        | inr q ↦ rw (f, g, q, after, claim) h
      ]
    ]
  ]

  pub heartbeat-Held :
      (j : LockKey) (other computed now : ℕ) (t : Locks)
      → Held k user i until t
      → (other ≡ user → until ≤ new_expiry computed)
      → Held k user i until (after t (heartbeat j other computed now t))
  unfolding heartbeat
  heartbeat-Held j other computed now t h n = elim (Option-cases (find_lock j t)) [
    | inl e ↦ rw (e, after, heartbeat) h
    | inr (row, e) ↦ elim (Bool-cases ((row.locked_by == other) && ltb now row.expires_at)) [
      | inr q ↦ rw (e, q, after, heartbeat) h
      | inl q ↦ rw (e, q, after, heartbeat) (moved row e q)
    ]
  ]
    where
      moved :
          (row : RecordLock)
          → find_lock j t ≡ some row
          → ((row.locked_by == other) && ltb now row.expires_at) ≡ true
          → Held k user i until (update lock_key j (expire_at (new_expiry computed)) t)
      moved row e q = elim (eq-cases k j) [
        | inr ne ↦ kept t _ h (
            find-update_ne lock_key k j (expire_at (new_expiry computed)) t (λ x. refl) ne
            ∙ h.there)
        | inl same ↦
            (let found : some row ≡ some h.row =
                sym e ∙ ap (λ l. find_lock l t) (sym same) ∙ h.there in
              let owner : row.locked_by ≡ other = eq→≡ row.locked_by other (ground arith) in
              let holder : row.locked_by ≡ user = cc (found, h.mine) in
              refreshed t _ (new_expiry computed) h (n (sym owner ∙ holder)) (
                subst
                  (λ l.
                    find_lock k (update lock_key l (expire_at (new_expiry computed)) t)
                    ≡ some (expire_at (new_expiry computed) h.row))
                  same
                  (find-update_self lock_key k (expire_at (new_expiry computed)) t (λ x. refl)
                    h.there)))
      ]

  pub release-Held :
      (j : LockKey) (other : ℕ) (t : Locks)
      → Held k user i until t
      → other ≢ user
      → Held k user i until (release j other t).1
  unfolding release
  release-Held j other t h n = elim (Option-cases (find_lock j t)) [
    | inl e ↦ rw (e, release) h
    | inr (row, e) ↦ elim (Bool-cases (row.locked_by == other)) [
      | inr q ↦ rw (e, q, release) h
      | inl q ↦
          rw (e, q, release) (kept t _ h (find-remove_ne lock_key k j t (apart row e q) ∙ h.there))
    ]
  ]
    where
      apart :
          (row : RecordLock) → find_lock j t ≡ some row → (row.locked_by == other) ≡ true → k ≢ j
      apart row e q same =
          let found : some row ≡ some h.row =
            sym e ∙ ap (λ l. find_lock l t) (sym same) ∙ h.there in
          n (sym (eq→≡ row.locked_by other q) ∙ cc (found, h.mine))

  pub delete_seen-Held :
      (found : Option RecordLock) (t : Locks)
      → Held k user i until t
      → ((row : RecordLock) → found ≡ some row → row.id ≢ i)
      → Held k user i until (delete_seen found t).1
  unfolding delete_seen
  delete_seen-Held none t h n = h
  delete_seen-Held (some row) t h n =
      kept t _ h
        (find-remove_other_id lock_key lock_id k row.id t (λ q. n row refl (q ∙ h.its_id)) h.there)
