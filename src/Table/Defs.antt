-- ===== src/Table/Defs.antt =====
-- Tables as lists of rows: queries, writes and the unique columns.
use templehe_consign.Base.{◌≡◌, Option, none, some, List, [], ◌∷◌, Eq, ◌==◌, if◌then◌else◌}

module _ {R K : Type 0} ⦃e : Eq K⦄ (key : R → K) where
  abbrev pub find : K → List R → Option R
  find k [] = none
  find k (r ∷ t) = if k == key r then some r else find k t

  abbrev pub remove : K → List R → List R
  remove k [] = []
  remove k (r ∷ t) = let rest = remove k t in if k == key r then rest else r ∷ rest

  abbrev pub update : K → (R → R) → List R → List R
  update k f [] = []
  update k f (r ∷ t) = (if k == key r then f r else r) ∷ update k f t

  -- `none` is an IntegrityError.
  abbrev pub insert : R → List R → Option (List R)
  insert r t = elim (find (key r) t) [ none ↦ some (r ∷ t) | some _ ↦ none ]

  -- No two rows have one key.
  abbrev pub IsUnique : List R → Type 0
  IsUnique [] = Unit
  IsUnique (r ∷ t) = (find (key r) t ≡ none) × IsUnique t

-- A table with two unique columns: `id` is the primary key and `key` a
-- UNIQUE column or group of columns.
module _ {R K I : Type 0} ⦃e : Eq K⦄ ⦃f : Eq I⦄ (key : R → K) (id : R → I) where
  -- An INSERT that both constraints guard.
  abbrev pub insert_row : R → List R → Option (List R)
  insert_row r t = elim (find id (id r) t) [ none ↦ insert key r t | some _ ↦ none ]

  abbrev pub IsKeyed : List R → Type 0
  IsKeyed t = IsUnique key t × IsUnique id t
