-- ===== src/Table/Maps.antt =====
-- A change of every row that keeps a unique column, as a bulk UPDATE makes it.
use templehe_consign.Table.Laws.{find-cons_ne, find-cons_self}
use templehe_consign.Base.{
  All-map, ap, ◌∙◌, ◌≡◌, refl, none, some, List, [], ◌∷◌, map, Eq, arith, ◌==◌, All, Bool-cases,
  Bool, true, false, if◌then◌else◌, inl, inr, subst,
}
use templehe_consign.Table.Defs.{find, IsUnique, update}

module _ {R K : Type 0} ⦃e : Eq K⦄ (key : R → K) (f : R → R)
    (kept : (r : R) → key (f r) ≡ key r) where
  pub find-map-none : (k : K) (t : List R) → find key k t ≡ none → find key k (map f t) ≡ none
  find-map-none k [] h = refl
  find-map-none k (x ∷ t) h = ground (arith, find-map-none k t, kept x)

  pub find-map-some :
      (k : K) (t : List R) {r : R} → find key k t ≡ some r → find key k (map f t) ≡ some (f r)
  find-map-some k [] h = cc
  find-map-some k (x ∷ t) {r} h = ground (arith, find-map-some k t {r = r}, kept x)

  pub map-IsUnique : (t : List R) → IsUnique key t → IsUnique key (map f t)
  map-IsUnique [] u = tt
  map-IsUnique (x ∷ t) u = ground (arith, map-IsUnique t u.1, find-map-none (key x) t u.0, kept x)

-- What holds of every row.
module _ {R K : Type 0} ⦃e : Eq K⦄ (key : R → K) (P : R → Type 0) where
  pub All-find : (k : K) (t : List R) {r : R} → All P t → find key k t ≡ some r → P r
  All-find k [] a h = absurd (ground arith)
  All-find k (x ∷ t) {r} a h = elim (Bool-cases (k == key x)) [
    | inl b ↦ (let same : x ≡ r = ground arith in subst P same a.0)
    | inr b ↦ All-find k t a.1 (ground arith)
  ]

  pub All-update :
      (k : K) (f : R → R) (t : List R)
      → ((r : R) → P r → P (f r))
      → All P t
      → All P (update key k f t)
  All-update k f [] kept a = tt
  All-update k f (x ∷ t) kept a = (one (k == key x), All-update k f t kept a.1)
    where
      one : (b : Bool) → P (if b then f x else x)
      one true = kept x a.0
      one false = a.0

-- In a table with a unique column every row is the one that is found under its key.
module _ {R K : Type 0} ⦃e : Eq K⦄ (key : R → K) where
  still_found :
      (x : R) (t : List R)
      → find key (key x) t ≡ none
      → (r : R) → find key (key r) t ≡ some r
      → find key (key r) (x ∷ t) ≡ some r
  still_found x t h r g =
      find-cons_ne key (key r) x t (λ q. cc (h, g, ap (λ k. find key k t) q)) ∙ g

  pub All-found : (t : List R) → IsUnique key t → All (λ r. find key (key r) t ≡ some r) t
  All-found [] u = tt
  All-found (x ∷ t) u = (find-cons_self key x t, All-map t (still_found x t u.0) (All-found t u.1))
