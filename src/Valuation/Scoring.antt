-- ===== src/Valuation/Scoring.antt =====
-- The weighted score of an appraisal, api/services/scoring_service.py. Floating-point numbers, and
-- Decimal's rounding of one to hundredths, are the parameter `Floats`; the score is a number of
-- hundredths, and an InvalidOperation of Decimal is `none`.
use mathlib.Core.Option
use templehe_consign.Base.{
  ℕ, ◌≤◌, ◌<◌, String, ◌≡◌, refl, sym, subst, ◌↔◌, ◌⊎◌, inl, inr, Bool, true, false, not, Option,
  none, some, List, [], ◌∷◌, map, arith, leb, if◌then◌else◌, nat_eq, string_eq, pair_eq, Bool-cases,
  Option-cases, eq-cases, ids_eq, ℤ, pos, negsuc, leb_int, int_eq,
}

pub record Floats : Type 1 where
  pub Float : Type 0
  pub sum : List Float → Float
  pub mul : Float → Float → Float
  pub div : Float → Float → Float
  pub is_zero : Float → Bool
  pub near_hundred : Float → Bool  -- 99.5 <= … <= 100.5
  -- Decimal(str(…)).quantize, half up, as a number that `min` can compare; `none` where these raise,
  -- which they do on an infinity, a NaN and a number of too many digits.
  pub quantize : Float → Option ℤ

pub record ScoringResult : Type 0 where
  pub overall : ℤ
  pub band : String
  pub weight_normalized : Bool

-- _SCORE_BANDS
abbrev pub score_bands : List (ℤ × String)
score_bands =
    (pos 450, "Premium resale-ready")
    ∷ (pos 375, "Strong resale candidate")
    ∷ (pos 300, "Usable with value deductions")
    ∷ (pos 200, "Heavy discount / repair candidate")
    ∷ (pos 100, "Project, salvage, or parts-biased")
    ∷ (pos 0, "Insufficient data")
    ∷ []

-- The first band whose threshold is reached.
abbrev pub band_of : ℤ → List (ℤ × String) → String
band_of overall [] = "salvage"
band_of overall ((threshold, label) ∷ bands) =
    let rest = band_of overall bands in if leb_int threshold overall then label else rest

-- max(0.00, min(5.00, …))
abbrev pub min_int : ℤ → ℤ → ℤ
min_int a b = if leb_int a b then a else b

abbrev pub max_int : ℤ → ℤ → ℤ
max_int a b = if leb_int b a then a else b

abbrev pub clamp : ℤ → ℤ
clamp v = max_int (pos 0) (min_int (pos 500) v)

abbrev pub no_score : ScoringResult
no_score = record { overall = pos 0; band = "Insufficient data"; weight_normalized = false }

module _ (f : Floats) where
  -- `component_scores.values()`: scores with their weights.
  abbrev pub total_weight : List (f.Float × f.Float) → f.Float
  total_weight xs = f.sum (map (λ x. x.1) xs)

  abbrev pub weighted_sum : List (f.Float × f.Float) → f.Float
  weighted_sum xs = f.sum (map (λ x. f.mul x.0 x.1) xs)

  abbrev pub average : List (f.Float × f.Float) → f.Float
  average xs = f.div (weighted_sum xs) (total_weight xs)

  abbrev pub result_of : f.Float → ℤ → ScoringResult
  result_of total v = record {
    overall = clamp v;
    band = band_of (clamp v) score_bands;
    weight_normalized = not (f.near_hundred total);
  }

  abbrev pub score : List (f.Float × f.Float) → Option ScoringResult
  score xs =
      if f.is_zero (total_weight xs)
      then some no_score
      else Option.map (result_of (total_weight xs)) (f.quantize (average xs))

  unfoldable pub calculate_overall : List (f.Float × f.Float) → Option ScoringResult
  calculate_overall [] = some no_score
  calculate_overall (x ∷ xs) = score (x ∷ xs)

  -- The band of a score, by where its hundredths lie.
  abbrev pub IsBand : ℕ → String → Type 0
  IsBand n band =
      ((band ≡ "Premium resale-ready") × (450 ≤ n))
      ⊎ ((band ≡ "Strong resale candidate") × (375 ≤ n) × (n < 450))
      ⊎ ((band ≡ "Usable with value deductions") × (300 ≤ n) × (n < 375))
      ⊎ ((band ≡ "Heavy discount / repair candidate") × (200 ≤ n) × (n < 300))
      ⊎ ((band ≡ "Project, salvage, or parts-biased") × (100 ≤ n) × (n < 200))
      ⊎ ((band ≡ "Insufficient data") × (n < 100))

  band_lem : (n : ℕ) → IsBand n (band_of (pos n) score_bands)
  band_lem n = elim (Bool-cases (leb 450 n)) [
    | inl e ↦ inl (ground arith)
    | inr a ↦ elim (Bool-cases (leb 375 n)) [
      | inl e ↦ inr (inl (ground arith))
      | inr b ↦ elim (Bool-cases (leb 300 n)) [
        | inl e ↦ inr (inr (inl (ground arith)))
        | inr c ↦ elim (Bool-cases (leb 200 n)) [
          | inl e ↦ inr (inr (inr (inl (ground arith))))
          | inr d ↦ elim (Bool-cases (leb 100 n)) [
            | inl e ↦ inr (inr (inr (inr (inl (ground arith)))))
            | inr g ↦ inr (inr (inr (inr (inr (ground arith)))))
          ]
        ]
      ]
    ]
  ]

  -- No component, or only weights that sum to zero.
  abbrev pub IsWeightless : List (f.Float × f.Float) → Type 0
  IsWeightless [] = Unit
  IsWeightless (x ∷ xs) = f.is_zero (total_weight (x ∷ xs)) ≡ true

  -- What the average of the components, rounded to hundredths, says of a score: it is the average
  -- where that lies between 0.00 and 5.00, and the nearer bound elsewhere.
  abbrev pub IsClamped : ℤ → ℕ → Type 0
  IsClamped (pos m) n = ((m ≤ 500) × (n ≡ m)) ⊎ ((500 < m) × (n ≡ 500))
  IsClamped (negsuc m) n = n ≡ 0

  clamp-IsClamped : (v : ℤ) → (n : ℕ) × (clamp v ≡ pos n) × (n ≤ 500) × IsClamped v n
  clamp-IsClamped (pos m) = elim (Bool-cases (leb 500 m)) [
    | inl e ↦ (
      500,
      ground arith,
      omega arith,
      elim (eq-cases m 500) [ inl h ↦ inl (ground arith) | inr h ↦ inr (ground arith) ],
    )
    | inr e ↦ (m, ground arith, ground arith, inl (ground arith))
  ]
  clamp-IsClamped (negsuc m) = (0, refl, omega arith, refl)

  -- The score of weightless components is 0.00 with "Insufficient data". Any others raise exactly
  -- if the weighted average cannot be rounded to hundredths and compared; if it can, then the score
  -- is that average, or the nearer of 0.00 and 5.00 if it lies outside, the band is that of the
  -- range in which the score lies, and the flag says whether the weights were off 100.
  pub calculate_overall_bounds :
      (xs : List (f.Float × f.Float))
      → (IsWeightless xs → calculate_overall xs ≡ some no_score)
        × (¬ IsWeightless xs → (calculate_overall xs ≡ none) ↔ (f.quantize (average xs) ≡ none))
        × ((v : ℤ)
            → ¬ IsWeightless xs
            → f.quantize (average xs) ≡ some v
            → (s : ScoringResult) × (n : ℕ) × (calculate_overall xs ≡ some s)
              × (s.overall ≡ pos n)
              × (n ≤ 500)
              × IsClamped v n
              × IsBand n s.band
              × (s.weight_normalized ≡ not (f.near_hundred (total_weight xs))))
  unfolding calculate_overall
  calculate_overall_bounds [] = ((λ w. refl), (λ w. absurd (w tt)), (λ v w q. absurd (w tt)))
  calculate_overall_bounds (x ∷ xs) = (
    (λ w. rw w refl),
    (λ w. go w),
    (λ v w q.
        let (n, p, b, c) = clamp-IsClamped v in
        (
          result_of (total_weight (x ∷ xs)) v,
          n,
          rw (nonzero w, q) refl,
          p,
          b,
          c,
          subst (λ u. IsBand n (band_of u score_bands)) (sym p) (band_lem n),
          refl,
        )),
  )
    where
      nonzero : ¬ IsWeightless (x ∷ xs) → f.is_zero (total_weight (x ∷ xs)) ≡ false
      nonzero w = elim (Bool-cases (f.is_zero (total_weight (x ∷ xs)))) [
        | inl e ↦ absurd (w e)
        | inr e ↦ e
      ]

      go :
          ¬ IsWeightless (x ∷ xs) → (score (x ∷ xs) ≡ none) ↔ (f.quantize (average (x ∷ xs)) ≡ none)
      go w = elim (Option-cases (f.quantize (average (x ∷ xs)))) [
        | inl e ↦ ((λ h. e), (λ h. rw (nonzero w, e) refl))
        | inr (v, e) ↦ rw (nonzero w, e) ((λ h. absurd (cc h)), (λ h. absurd (cc h)))
      ]
