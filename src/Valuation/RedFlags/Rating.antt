-- ===== src/Valuation/RedFlags/Rating.antt =====
-- The marketability rating of an appraisal, api/services/red_flag_service.py.
use templehe_consign.Base.{
  ℕ, ◌+◌, ◌≤◌, min, ◌≡◌, refl, sym, ap, ◌∙◌, inl, inr, Bool, true, false, ◌&&◌, List, [], ◌∷◌,
  arith, if◌then◌else◌, nat_eq, string_eq, pair_eq, Bool-cases, length, select, All, ids_eq, int_eq,
}
use templehe_consign.Json.{Json, is_text}
use templehe_consign.Valuation.RedFlags.{
  RuleSpec, RedFlagResult, Fields, condition_matches, downgrades, forces, rate, downgrade,
  apply_actions, apply_rules, evaluate_rules, untouched,
}
use templehe_consign.Valuation.RedFlags.Outcome.{applied, skipped}

-- The place of a band among the four, from the best; what is no band counts as the last one.
abbrev pub rank : Json → ℕ
rank v =
    if is_text v "Fast Sell"
    then 0
    else if is_text v "Average"
    then 1
    else if is_text v "Slow Sell"
    then 2
    else 3

rank-downgrade : (v : Json) → rank (downgrade v) ≡ min 3 (rank v + 1)
unfolding downgrade
rank-downgrade v = elim (Bool-cases (is_text v "Fast Sell")) [
  | inl a ↦ rw (a, downgrade) refl
  | inr a ↦ elim (Bool-cases (is_text v "Average")) [
    | inl b ↦ rw (a, b, downgrade) refl
    | inr b ↦ elim (Bool-cases (is_text v "Slow Sell")) [
      | inl c ↦ rw (a, b, c, downgrade) refl
      | inr c ↦ rw (a, b, c, downgrade) refl
    ]
  ]
]

rank_le : (v : Json) → rank v ≤ 3
rank_le v = ground arith

capped : (n : ℕ) → n ≤ 3 → n ≡ min 3 (n + 0)
capped n b = ground arith

module _ (fields : Fields) where
  abbrev lowers : RuleSpec → Bool
  lowers r = condition_matches r fields && downgrades r

  rank-rate :
      (r : RuleSpec) (v : Json)
      → forces r ≡ false
      → rank (rate r v) ≡ (if downgrades r then min 3 (rank v + 1) else rank v)
  rank-rate r v n = elim (Bool-cases (downgrades r)) [
    | inl d ↦ rw (n, d) (rank-downgrade v)
    | inr d ↦ rw (n, d) refl
  ]

  count_hit :
      (r : RuleSpec) (rs : List RuleSpec)
      → condition_matches r fields ≡ true
      → length (select lowers (r ∷ rs))
        ≡ (if downgrades r then length (select lowers rs) + 1 else length (select lowers rs))
  count_hit r rs e = elim (Bool-cases (downgrades r)) [
    | inl d ↦ rw (e, d) (omega arith)
    | inr d ↦ rw (e, d) refl
  ]

  count_miss :
      (r : RuleSpec) (rs : List RuleSpec)
      → condition_matches r fields ≡ false
      → length (select lowers (r ∷ rs)) ≡ length (select lowers rs)
  count_miss r rs e = rw e refl

  add_up :
      (d : Bool) (n m k : ℕ)
      → n ≤ 3
      → m ≡ (if d then min 3 (n + 1) else n)
      → min 3 (m + k) ≡ min 3 (n + (if d then k + 1 else k))
  add_up true n m k b e = ground arith
  add_up false n m k b e = ground arith

  rating_lem :
      (rs : List RuleSpec) (result : RedFlagResult)
      → All (λ r. condition_matches r fields ≡ true → forces r ≡ false) rs
      → rank (apply_rules rs fields result).marketability_rating
        ≡ min 3 (rank result.marketability_rating + length (select lowers rs))
  unfolding apply_rules apply_actions
  rating_lem [] result a =
      capped (rank result.marketability_rating) (rank_le result.marketability_rating)
  rating_lem (r ∷ rs) result a = elim (Bool-cases (condition_matches r fields)) [
    | inl e ↦
        ap (λ p. rank p.marketability_rating) (applied fields r rs result e)
        ∙ rating_lem rs (apply_actions r result) a.1
        ∙ add_up (downgrades r) (rank result.marketability_rating)
            (rank (rate r result.marketability_rating)) (length (select lowers rs))
            (rank_le result.marketability_rating) (rank-rate r result.marketability_rating (a.0 e))
        ∙ ap (λ n. min 3 (rank result.marketability_rating + n)) (sym (count_hit r rs e))
    | inr e ↦
        ap (λ p. rank p.marketability_rating) (skipped fields r rs result e)
        ∙ rating_lem rs result a.1
        ∙ ap (λ n. min 3 (rank result.marketability_rating + n)) (sym (count_miss r rs e))
  ]

  -- Unless a rule that matches forces a rating, the rating moves one band down for each rule that
  -- matches and asks for it, and no further than the last band, "Salvage Risk"; a rating that is no
  -- band, or none, counts as that one.
  pub evaluate_rules-rank :
      (rules : List RuleSpec) (rating notes : Json)
      → All (λ r. condition_matches r fields ≡ true → forces r ≡ false) rules
      → rank (evaluate_rules rules fields rating notes).marketability_rating
        ≡ min 3
            (rank rating + length (select (λ r. condition_matches r fields && downgrades r) rules))
  unfolding evaluate_rules
  evaluate_rules-rank rules rating notes a = rating_lem rules (untouched rating notes) a
