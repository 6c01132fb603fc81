-- ===== src/Base/Sorting.antt =====
-- ORDER BY: a stable insertion sort, by a test of two items or by a number.
use Prim.Native.Nat.{ℕ}
use mathlib.Core.Bool.{Bool}
use mathlib.Core.List.{List, [], ◌∷◌}
use native.Mathlib.Omega.{arith}
use templehe_consign.Base.Tests.{leb, if◌then◌else◌}
use templehe_consign.Base.Lists.{All}

module _ {A : Type 0} (before : A → A → Bool) where
  abbrev pub sort_in : A → List A → List A
  sort_in x [] = x ∷ []
  sort_in x (y ∷ ys) = let later = y ∷ sort_in x ys in if before x y then x ∷ y ∷ ys else later

  abbrev pub sort_with : List A → List A
  sort_with [] = []
  sort_with (x ∷ xs) = sort_in x (sort_with xs)

  pub All-sort_in : (P : A → Type 0) (x : A) (xs : List A) → P x → All P xs → All P (sort_in x xs)
  All-sort_in P x [] p a = (p, tt)
  All-sort_in P x (y ∷ ys) p a = ground (arith, All-sort_in P x ys p a.1)

  -- What holds of all items holds after sorting, and the other way round.
  pub All-sort_with : (P : A → Type 0) (xs : List A) → All P xs → All P (sort_with xs)
  All-sort_with P [] a = tt
  All-sort_with P (x ∷ xs) a = All-sort_in P x (sort_with xs) a.0 (All-sort_with P xs a.1)

  All-sort_in_inv : (P : A → Type 0) (x : A) (xs : List A) → All P (sort_in x xs) → P x × All P xs
  All-sort_in_inv P x [] a = (a.0, tt)
  All-sort_in_inv P x (y ∷ ys) a = ground (arith, All-sort_in_inv P x ys)

  pub All-sort_with_inv : (P : A → Type 0) (xs : List A) → All P (sort_with xs) → All P xs
  All-sort_with_inv P [] a = tt
  All-sort_with_inv P (x ∷ xs) a =
      let (p, r) = All-sort_in_inv P x (sort_with xs) a in (p, All-sort_with_inv P xs r)

module _ {A : Type 0} (key : A → ℕ) where
  abbrev by_key : A → A → Bool
  by_key x y = leb (key x) (key y)

  abbrev pub sort_by : List A → List A
  sort_by = sort_with by_key

  pub All-sort_by : (P : A → Type 0) (xs : List A) → All P xs → All P (sort_by xs)
  All-sort_by = All-sort_with by_key

  pub All-sort_by_inv : (P : A → Type 0) (xs : List A) → All P (sort_by xs) → All P xs
  All-sort_by_inv = All-sort_with_inv by_key
