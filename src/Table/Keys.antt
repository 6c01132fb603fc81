-- ===== src/Table/Keys.antt =====
-- A row that one unique column finds, and the other column deletes or changes.
use templehe_consign.Base.{◌≡◌, refl, ◌≢◌, none, some, List, [], ◌∷◌, arith, Eq}
use templehe_consign.Table.Defs.{update, find, remove, IsUnique, insert_row, IsKeyed}
use templehe_consign.Table.Laws.{update_absent, remove_absent}

module _ {R K I : Type 0} ⦃e : Eq K⦄ ⦃f : Eq I⦄ (key : R → K) (id : R → I) where
  -- A row that is in the table under one column is there under the other.
  pub found_by_id : (k : K) (t : List R) {r : R} → find key k t ≡ some r → find id (id r) t ≢ none
  found_by_id k [] h n = cc
  found_by_id k (x ∷ t) {r} h n = ground (arith, found_by_id k t {r = r}, f.beq_iff (id r) (id x))

  pub find-remove_by_none :
      (j : K) (i : I) (t : List R) → find key j t ≡ none → find key j (remove id i t) ≡ none
  find-remove_by_none j i [] h = refl
  find-remove_by_none j i (x ∷ t) h = ground (arith, find-remove_by_none j i t)

  pub remove_by-IsUnique : (i : I) (t : List R) → IsUnique key t → IsUnique key (remove id i t)
  remove_by-IsUnique i [] h = tt
  remove_by-IsUnique i (x ∷ t) h =
      ground (arith, remove_by-IsUnique i t h.1, find-remove_by_none (key x) i t h.0)

  -- Deleting the row of a key by its id leaves no row with the key.
  pub find-remove_by_id :
      (k : K) (t : List R) {r : R}
      → IsUnique key t
      → find key k t ≡ some r
      → find key k (remove id (id r) t) ≡ none
  find-remove_by_id k [] u h = cc
  find-remove_by_id k (x ∷ t) {r} u h = ground (
    arith,
    e.beq_iff k (key x),
    f.beq_iff (id r) (id x),
    find-remove_by_id k t {r = r} u.1,
    find-remove_by_none k (id r) t,
  )

  -- It leaves the rows of the other keys alone.
  pub find-remove_by_id_ne :
      (j k : K) (t : List R) {r : R}
      → IsUnique id t
      → j ≢ k
      → find key k t ≡ some r
      → find key j (remove id (id r) t) ≡ find key j t
  find-remove_by_id_ne j k [] u n h = refl
  find-remove_by_id_ne j k (x ∷ t) {r} u n h = ground (
    arith,
    e.beq_iff k (key x),
    e.beq_iff j (key x),
    f.beq_iff (id r) (id x),
    found_by_id k t {r = r},
    remove_absent id (id r) t,
    find-remove_by_id_ne j k t {r = r} u.1 n,
  )

  -- An INSERT that succeeds adds the row, whose two keys were free.
  pub insert_row_inv :
      (r : R) (t : List R) {t' : List R}
      → insert_row key id r t ≡ some t'
      → (t' ≡ r ∷ t) × (find key (key r) t ≡ none) × (find id (id r) t ≡ none)
  insert_row_inv r t h = ground arith

  pub insert_row-IsKeyed :
      (r : R) (t : List R) {t' : List R}
      → IsKeyed key id t
      → insert_row key id r t ≡ some t'
      → IsKeyed key id t'
  insert_row-IsKeyed r t h e = let (p, k, i) = insert_row_inv r t e in rw p ((k, h.0), (i, h.1))

-- A change that keeps both columns.
module _ {R K I : Type 0} ⦃e : Eq K⦄ ⦃f : Eq I⦄ (key : R → K) (id : R → I) where
  pub find-update_by_none :
      (j : K) (i : I) (g : R → R) (t : List R)
      → ((x : R) → key (g x) ≡ key x)
      → find key j t ≡ none
      → find key j (update id i g t) ≡ none
  find-update_by_none j i g [] kept h = refl
  find-update_by_none j i g (x ∷ t) kept h =
      ground (arith, find-update_by_none j i g t kept, kept x)

  pub update_by-IsUnique :
      (i : I) (g : R → R) (t : List R)
      → ((x : R) → key (g x) ≡ key x)
      → IsUnique key t
      → IsUnique key (update id i g t)
  update_by-IsUnique i g [] kept h = tt
  update_by-IsUnique i g (x ∷ t) kept h =
      ground (
        arith,
        kept x,
        update_by-IsUnique i g t kept h.1,
        find-update_by_none (key x) i g t kept h.0,
      )

  pub find-update_by_id :
      (k : K) (g : R → R) (t : List R) {r : R}
      → ((x : R) → key (g x) ≡ key x)
      → IsUnique id t
      → find key k t ≡ some r
      → find key k (update id (id r) g t) ≡ some (g r)
  find-update_by_id k g [] kept u h = cc
  find-update_by_id k g (x ∷ t) {r} kept u h = ground (
    arith,
    e.beq_iff k (key x),
    f.beq_iff (id r) (id x),
    found_by_id key id k t {r = r},
    kept x,
    find-update_by_id k g t {r = r} kept u.1,
  )

  pub find-update_by_id_ne :
      (j k : K) (g : R → R) (t : List R) {r : R}
      → ((x : R) → key (g x) ≡ key x)
      → IsUnique id t
      → j ≢ k
      → find key k t ≡ some r
      → find key j (update id (id r) g t) ≡ find key j t
  find-update_by_id_ne j k g [] kept u n h = refl
  find-update_by_id_ne j k g (x ∷ t) {r} kept u n h = ground (
    arith,
    e.beq_iff k (key x),
    e.beq_iff j (key x),
    f.beq_iff (id r) (id x),
    found_by_id key id k t {r = r},
    update_absent id (id r) g t,
    kept x,
    find-update_by_id_ne j k g t {r = r} kept u.1 n,
  )

  pub insert_row_free :
      (r : R) (t : List R)
      → find key (key r) t ≡ none
      → find id (id r) t ≡ none
      → insert_row key id r t ≡ some (r ∷ t)
  insert_row_free r t h g = ground arith

  pub insert_row_taken :
      (r : R) (t : List R) {x : R} → find key (key r) t ≡ some x → insert_row key id r t ≡ none
  insert_row_taken r t h = ground arith

  -- What is done to the rows of another id.
  pub find-remove_other_id :
      (k : K) (i : I) (t : List R) {r : R}
      → i ≢ id r
      → find key k t ≡ some r
      → find key k (remove id i t) ≡ some r
  find-remove_other_id k i [] n h = cc h
  find-remove_other_id k i (x ∷ t) {r} n h =
      ground (arith, f.beq_iff i (id x), find-remove_other_id k i t {r = r} n)

  pub find-update_other_id :
      (k : K) (i : I) (g : R → R) (t : List R) {r : R}
      → ((x : R) → key (g x) ≡ key x)
      → i ≢ id r
      → find key k t ≡ some r
      → find key k (update id i g t) ≡ some r
  find-update_other_id k i g [] kept n h = cc h
  find-update_other_id k i g (x ∷ t) {r} kept n h =
      ground (arith, f.beq_iff i (id x), kept x, find-update_other_id k i g t {r = r} kept n)
