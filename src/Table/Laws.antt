-- ===== src/Table/Laws.antt =====
-- What the queries find after each write, for one unique column.
use templehe_consign.Base.{◌≡◌, refl, ◌≢◌, none, some, List, [], ◌∷◌, arith, Eq}
use templehe_consign.Table.Defs.{find, remove, update, IsUnique}

module _ {R K : Type 0} ⦃e : Eq K⦄ (key : R → K) where
  -- A row that is found has the key.
  pub find_key : (k : K) (t : List R) {r : R} → find key k t ≡ some r → key r ≡ k
  find_key k [] h = cc
  find_key k (x ∷ t) {r} h = ground (arith, find_key k t {r = r}, e.beq_iff k (key x))

  pub find-remove_self : (k : K) (t : List R) → find key k (remove key k t) ≡ none
  find-remove_self k [] = refl
  find-remove_self k (x ∷ t) = ground (arith, find-remove_self k t)

  pub find-remove_ne : (j k : K) (t : List R) → j ≢ k → find key j (remove key k t) ≡ find key j t
  find-remove_ne j k [] h = refl
  find-remove_ne j k (x ∷ t) h =
      ground (arith, find-remove_ne j k t h, e.beq_iff j (key x), e.beq_iff k (key x))

  pub remove_absent : (k : K) (t : List R) → find key k t ≡ none → remove key k t ≡ t
  remove_absent k [] h = refl
  remove_absent k (x ∷ t) h = ground (arith, remove_absent k t)

  pub find-update_self :
      (k : K) (f : R → R) (t : List R) {r : R}
      → ((x : R) → key (f x) ≡ key x)
      → find key k t ≡ some r
      → find key k (update key k f t) ≡ some (f r)
  find-update_self k f [] kept h = cc
  find-update_self k f (x ∷ t) {r} kept h =
      ground (arith, find-update_self k f t {r = r} kept, kept x)

  pub find-update_ne :
      (j k : K) (f : R → R) (t : List R)
      → ((x : R) → key (f x) ≡ key x)
      → j ≢ k
      → find key j (update key k f t) ≡ find key j t
  find-update_ne j k f [] kept h = refl
  find-update_ne j k f (x ∷ t) kept h =
      ground
        (arith, find-update_ne j k f t kept h, kept x, e.beq_iff j (key x), e.beq_iff k (key x))

  pub find-update-none :
      (j k : K) (f : R → R) (t : List R)
      → ((x : R) → key (f x) ≡ key x)
      → find key j t ≡ none
      → find key j (update key k f t) ≡ none
  find-update-none j k f [] kept h = refl
  find-update-none j k f (x ∷ t) kept h = ground (arith, find-update-none j k f t kept, kept x)

  pub update_absent : (k : K) (f : R → R) (t : List R) → find key k t ≡ none → update key k f t ≡ t
  update_absent k f [] h = refl
  update_absent k f (x ∷ t) h = ground (arith, update_absent k f t)

  pub find-remove-none :
      (j k : K) (t : List R) → find key j t ≡ none → find key j (remove key k t) ≡ none
  find-remove-none j k [] h = refl
  find-remove-none j k (x ∷ t) h = ground (arith, find-remove-none j k t)

  pub remove-IsUnique : (k : K) (t : List R) → IsUnique key t → IsUnique key (remove key k t)
  remove-IsUnique k [] h = tt
  remove-IsUnique k (x ∷ t) h =
      ground (arith, remove-IsUnique k t h.1, find-remove-none (key x) k t h.0)

  pub update-IsUnique :
      (k : K) (f : R → R) (t : List R)
      → ((x : R) → key (f x) ≡ key x)
      → IsUnique key t
      → IsUnique key (update key k f t)
  update-IsUnique k f [] kept h = tt
  update-IsUnique k f (x ∷ t) kept h =
      ground
        (arith, kept x, update-IsUnique k f t kept h.1, find-update-none (key x) k f t kept h.0)

  pub find-cons_self : (r : R) (t : List R) → find key (key r) (r ∷ t) ≡ some r
  find-cons_self r t = ground (arith, e.beq_iff (key r) (key r))

  pub find-cons_ne : (j : K) (r : R) (t : List R) → j ≢ key r → find key j (r ∷ t) ≡ find key j t
  find-cons_ne j r t n = ground (arith, e.beq_iff j (key r))
