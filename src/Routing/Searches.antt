-- ===== src/Routing/Searches.antt =====
-- Searches through a list: the first hit of a loop, and the items before it.
use templehe_consign.Base.{
  ◌≡◌, refl, ◌⊎◌, inl, inr, Bool, true, false, Option, none, some, List, [], ◌∷◌, arith,
  if◌then◌else◌, nat_eq, string_eq, pair_eq, Option-cases, is_some, select, All, ids_eq, sort_with,
  int_eq, All-sort_in, sort_in,
}
use templehe_consign.Routing.{first_some}

module _ {A : Type 0} where
  -- Some item has a property.
  abbrev pub Any : (A → Type 0) → List A → Type 0
  Any P [] = ⊥
  Any P (x ∷ xs) = P x ⊎ Any P xs

  pub Any-map : {P Q : A → Type 0} (xs : List A) → ((x : A) → P x → Q x) → Any P xs → Any Q xs
  Any-map [] f h = h
  Any-map (x ∷ xs) f (inl p) = inl (f x p)
  Any-map (x ∷ xs) f (inr h) = inr (Any-map xs f h)

  pub All-both :
      {P Q R : A → Type 0} (xs : List A)
      → ((x : A) → P x → Q x → R x)
      → All P xs
      → All Q xs
      → All R xs
  All-both [] f p q = tt
  All-both (x ∷ xs) f p q = (f x p.0 q.0, All-both xs f p.1 q.1)

  pub Any-select :
      (P : A → Type 0) (test : A → Bool) (xs : List A)
      → Any P (select test xs)
      → Any (λ x. (test x ≡ true) × P x) xs
  Any-select P test [] h = h
  Any-select P test (x ∷ xs) h = go (λ k. inr (Any-select P test xs k)) (test x) refl h
    where
      go :
          (Any P (select test xs) → Any (λ y. (test y ≡ true) × P y) (x ∷ xs))
          → (b : Bool) → test x ≡ b
          → Any P (if b then x ∷ select test xs else select test xs)
          → Any (λ y. (test y ≡ true) × P y) (x ∷ xs)
      go later true e (inl p) = inl (e, p)
      go later true e (inr k) = later k
      go later false e k = later k

  pub All-select_inv :
      (P : A → Type 0) (test : A → Bool) (xs : List A)
      → All P (select test xs)
      → All (λ x. test x ≡ true → P x) xs
  All-select_inv P test [] h = tt
  All-select_inv P test (x ∷ xs) h = go (All-select_inv P test xs) (test x) refl h
    where
      go :
          (All P (select test xs) → All (λ y. test y ≡ true → P y) xs)
          → (b : Bool) → test x ≡ b
          → All P (if b then x ∷ select test xs else select test xs)
          → All (λ y. test y ≡ true → P y) (x ∷ xs)
      go rest true e h = (λ _. h.0, rest h.1)
      go rest false e h = (λ t. cc (e, t), rest h)

  module _ (before : A → A → Bool) where
    Any-sort_in :
        (P : A → Type 0) (x : A) (xs : List A) → Any P (sort_in before x xs) → P x ⊎ Any P xs
    Any-sort_in P x [] h = h
    Any-sort_in P x (y ∷ ys) h = go (Any-sort_in P x ys) (before x y) h
      where
        swap : P x ⊎ Any P ys → P x ⊎ Any P (y ∷ ys)
        swap (inl p) = inl p
        swap (inr k) = inr (inr k)

        go :
            (Any P (sort_in before x ys) → P x ⊎ Any P ys)
            → (b : Bool) → Any P (if b then x ∷ y ∷ ys else y ∷ sort_in before x ys)
            → P x ⊎ Any P (y ∷ ys)
        go deeper true k = k
        go deeper false (inl p) = inr (inl p)
        go deeper false (inr k) = swap (deeper k)

    pub Any-sort_with : (P : A → Type 0) (xs : List A) → Any P (sort_with before xs) → Any P xs
    Any-sort_with P [] h = h
    Any-sort_with P (x ∷ xs) h = elim (Any-sort_in P x (sort_with before xs) h) [
      | inl p ↦ inl p
      | inr k ↦ inr (Any-sort_with P xs k)
    ]

    -- Every item comes before all the later ones.
    abbrev pub IsSorted : List A → Type 0
    IsSorted [] = Unit
    IsSorted (x ∷ xs) = All (λ y. before x y ≡ true) xs × IsSorted xs

    module _ (total : (a b : A) → before a b ≡ false → before b a ≡ true)
        (trans : (a b c : A) → before a b ≡ true → before b c ≡ true → before a c ≡ true) where
      All-later :
          (x y : A) (xs : List A)
          → before x y ≡ true
          → All (λ z. before y z ≡ true) xs
          → All (λ z. before x z ≡ true) xs
      All-later x y [] p h = tt
      All-later x y (z ∷ zs) p h = (trans x y z p h.0, All-later x y zs p h.1)

      sort_in-IsSorted : (x : A) (xs : List A) → IsSorted xs → IsSorted (sort_in before x xs)
      sort_in-IsSorted x [] s = (tt, tt)
      sort_in-IsSorted x (y ∷ ys) s = go (before x y) refl (sort_in-IsSorted x ys s.1)
        where
          go :
              (b : Bool)
              → before x y ≡ b
              → IsSorted (sort_in before x ys)
              → IsSorted (if b then x ∷ y ∷ ys else y ∷ sort_in before x ys)
          go true e ih = ((e, All-later x y ys e s.0), s)
          go false e ih = (All-sort_in before (λ z. before y z ≡ true) x ys (total x y e) s.0, ih)

      pub sort_with-IsSorted : (xs : List A) → IsSorted (sort_with before xs)
      sort_with-IsSorted [] = tt
      sort_with-IsSorted (x ∷ xs) = sort_in-IsSorted x (sort_with before xs) (sort_with-IsSorted xs)

  module _ {B : Type 0} (f : A → Option B) where
    pub first_some-none : (xs : List A) → first_some f xs ≡ none → All (λ x. f x ≡ none) xs
    first_some-none [] h = tt
    first_some-none (x ∷ xs) h = elim (Option-cases (f x)) [
      | inl e ↦ (e, first_some-none xs (ground arith))
      | inr (b, e) ↦ absurd (ground arith)
    ]

    pub first_some-Any :
        (xs : List A) {b : B} → first_some f xs ≡ some b → Any (λ x. f x ≡ some b) xs
    first_some-Any [] h = absurd (ground arith)
    first_some-Any (x ∷ xs) {b} h = elim (Option-cases (f x)) [
      | inr (c, e) ↦ inl (ground arith)
      | inl e ↦ inr (first_some-Any xs (ground arith))
    ]

    -- The hit, with what holds between it and the items that are hit too.
    pub first_some-some :
        (before : A → A → Bool) (xs : List A) {b : B}
        → IsSorted before xs
        → first_some f xs ≡ some b
        → Any
            (λ x.
              (f x ≡ some b) × All (λ y. is_some (f y) ≡ true → (y ≡ x) ⊎ (before x y ≡ true)) xs)
            xs
    first_some-some before [] s h = absurd (ground arith)
    first_some-some before (x ∷ xs) {b} s h = elim (Option-cases (f x)) [
      | inr (c, e) ↦ inl (ground arith, (λ _. inl refl, weaken xs s.0))
      | inl e ↦ inr (
          Any-map xs (λ y p. (p.0, ((λ t. absurd (ground arith)), p.1)))
            (first_some-some before xs s.1 (ground arith)))
    ]
      where
        weaken :
            (ys : List A)
            → All (λ y. before x y ≡ true) ys
            → All (λ y. is_some (f y) ≡ true → (y ≡ x) ⊎ (before x y ≡ true)) ys
        weaken [] a = tt
        weaken (y ∷ ys) a = (λ _. inr a.0, weaken ys a.1)
