-- ===== src/Watchers/Additions.antt =====
-- add_watcher of api/services/watchers_service.py, called again and undone by remove_watcher.
use templehe_consign.Store.{User, Watcher, Db, HttpError, http, find_user}
use templehe_consign.Table.{remove, find_key, find-cons_self}
use templehe_consign.Base.Result.{Result, ok, err, require, or_raise, >>=-eq-ok}
use templehe_consign.Base.{
  ℕ, ◌≡◌, refl, sym, ap, subst, ◌∙◌, inl, inr, true, Option, none, some, List, ◌∷◌, arith, ◌==◌,
  nat_eq, string_eq, pair_eq, Option-cases, is_some, ids_eq,
}
use templehe_consign.Watchers.{
  watcher_key, find_watcher, live_record, add_row, add_watcher, remove_watcher,
}

-- The record stands, and the user is active.
abbrev Admitted : ℕ → ℕ → Db → Type 0
Admitted rid uid db =
    (is_some (live_record rid db) ≡ true)
    × (u : User) × (find_user uid db ≡ some u)
    × ((u.status == "active") ≡ true)

admits :
    (rid uid : ℕ) (by : Option ℕ) (db : Db)
    → Admitted rid uid db
    → add_watcher rid uid by db ≡ ok (add_row rid uid by db)
unfolding add_watcher
admits rid uid by db (l, u, f, a) = rw (l, f, a) refl

-- A call that returns was admitted, and has added the row.
admitted :
    (rid uid : ℕ) (by : Option ℕ) (db : Db) {w : Watcher} {db' : Db}
    → add_watcher rid uid by db ≡ ok (w, db')
    → Admitted rid uid db
      × (◌≡◌ {A = Result HttpError (Watcher × Db)} (ok (add_row rid uid by db)) (ok (w, db')))
unfolding add_watcher
admitted rid uid by db {w} {db'} h =
    let (_, p, h1) = >>=-eq-ok (require (is_some (live_record rid db)) (http 404)) _ h in
    let (u, q, h2) = >>=-eq-ok (or_raise (find_user uid db) (http 422)) _ h1 in
    let (_, a, h3) = >>=-eq-ok (require (u.status == "active") (http 422)) _ h2 in
    ((ground arith, u, ground arith, ground arith), h3)

abbrev new_watcher : ℕ → ℕ → Option ℕ → Watcher
new_watcher rid uid by = record { record_id = rid; user_id = uid; added_by = by }

module _ (rid uid : ℕ) (by : Option ℕ) (db : Db) where
  abbrev with_row : Db
  with_row = record db { watchers = new_watcher rid uid by ∷ db.watchers }

  add_row_old :
      (old : Watcher) → find_watcher rid uid db ≡ some old → add_row rid uid by db ≡ (old, db)
  unfolding add_row
  add_row_old old f = rw (f, add_row) refl

  add_row_new :
      find_watcher rid uid db ≡ none → add_row rid uid by db ≡ (new_watcher rid uid by, with_row)
  unfolding add_row
  add_row_new f = rw (f, add_row) refl

remove_found :
    (rid uid : ℕ) (db : Db) {w : Watcher}
    → find_watcher rid uid db ≡ some w
    → remove_watcher rid uid db
      ≡ (true, record db { watchers = remove watcher_key (rid, uid) db.watchers })
unfolding remove_watcher
remove_found rid uid db {w} f =
    subst
      (λ k.
        remove_watcher rid uid db
        ≡ (true, record db { watchers = remove watcher_key k db.watchers }))
      (find_key watcher_key (rid, uid) db.watchers f) (rw (f, remove_watcher) refl)

-- What one call has added, the other takes away; a second row is not added.
module _ (rid uid : ℕ) (by again : Option ℕ) (db : Db) where
  abbrev Undone : Watcher × Db → Type 0
  Undone (w, d) =
      (add_row rid uid again d ≡ (w, d))
      × (Admitted rid uid db → Admitted rid uid d)
      × (remove_watcher rid uid d
          ≡ (true, record db { watchers = remove watcher_key (rid, uid) db.watchers }))

  removed_new :
      remove_watcher rid uid (with_row rid uid by db)
      ≡ (true, record db { watchers = remove watcher_key (rid, uid) db.watchers })
  removed_new =
      remove_found rid uid (with_row rid uid by db)
        (find-cons_self watcher_key (new_watcher rid uid by) db.watchers)
      ∙ ap (λ ws. (true, record db { watchers = ws })) (remove-self db.watchers)
    where
      remove-self :
          (ws : List Watcher)
          → remove watcher_key (rid, uid) (new_watcher rid uid by ∷ ws)
            ≡ remove watcher_key (rid, uid) ws
      remove-self ws = ground arith

  undone : Undone (add_row rid uid by db)
  undone = elim (Option-cases (find_watcher rid uid db)) [
    | inr (old, f) ↦
        subst Undone (sym (add_row_old rid uid by db old f))
          (add_row_old rid uid again db old f, (λ a. a), remove_found rid uid db f)
    | inl f ↦ subst Undone (sym (add_row_new rid uid by db f)) (
      add_row_old rid uid again (with_row rid uid by db) (new_watcher rid uid by)
          (find-cons_self watcher_key (new_watcher rid uid by) db.watchers),
      (λ a. a),
      removed_new,
    )
  ]

-- If a call of add_watcher returns, then calling it again returns the same row and changes nothing,
-- and remove_watcher deletes that row, so the table is as before but without this watcher.
pub add_watcher_lem :
    (rid uid : ℕ) (by again : Option ℕ) (db : Db) {w : Watcher} {db' : Db}
    → add_watcher rid uid by db ≡ ok (w, db')
    → (add_watcher rid uid again db' ≡ ok (w, db'))
      × (remove_watcher rid uid db'
          ≡ (true, record db { watchers = remove watcher_key (rid, uid) db.watchers }))
add_watcher_lem rid uid by again db {w} {db'} h =
    let (a, q) = admitted rid uid by db h in
    let (twice, still, gone) =
      subst (Undone rid uid by again db) (ap of_ok q) (undone rid uid by again db) in
    (admits rid uid again db' (still a) ∙ ap ok twice, gone)
  where
    of_ok : Result HttpError (Watcher × Db) → Watcher × Db
    of_ok (ok p) = p
    of_ok (err e) = add_row rid uid by db
