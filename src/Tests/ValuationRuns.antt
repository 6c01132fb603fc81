-- ===== src/Tests/ValuationRuns.antt =====
-- Flags and scores of concrete appraisals.
use templehe_consign.Valuation.Scoring.{
  ScoringResult, IsClamped, Floats, calculate_overall, calculate_overall_bounds, IsBand,
}
use templehe_consign.Base.{
  ℕ, ◌+◌, ◌*◌, ◌/◌, ◌≤◌, String, ◌≡◌, refl, true, false, ◌&&◌, some, List, [], ◌∷◌, map, ◌==◌,
  nat_eq, string_eq, pair_eq, select, any_item, ids_eq, pos, int_eq,
}
use templehe_consign.Json.{Json, null, value, text, other}
use templehe_consign.Valuation.RedFlags.{
  RuleSpec, Fields, condition_matches, asks_review, asks_hold, evaluate_rules,
}
use templehe_consign.Valuation.RedFlags.Outcome.{evaluate_rules_lem}
use templehe_consign.Valuation.RedFlags.Rating.{evaluate_rules-rank, rank}

abbrev rule : String → String → String → List (String × Json) → RuleSpec
rule id field operator actions = record {
  id = id;
  condition_field = field;
  condition_operator = operator;
  condition_value = some "salvage";
  actions = actions;
}

abbrev yes : Json
yes = value (other true "True")

abbrev rules : List RuleSpec
rules =
    rule "r1" "title_status" "equals"
      (("set_management_review_required", yes) ∷ ("downgrade_marketability", yes) ∷ [])
    ∷ rule "r2" "serial_number" "is_false" (("downgrade_marketability", yes) ∷ [])
    ∷ rule "r3" "running_status" "is_true" (("hold_for_title_review", yes) ∷ [])
    ∷ []

abbrev fields : Fields
fields = ("title_status", value (text "salvage")) ∷ ("serial_number", null) ∷ []

abbrev average : Json
average = value (text "Average")

evaluate_rules_lem_example :
    ((evaluate_rules rules fields average null).management_review_required
      ≡ any_item (λ r. condition_matches r fields && asks_review r) rules)
    × ((evaluate_rules rules fields average null).hold_for_title_review
        ≡ any_item (λ r. condition_matches r fields && asks_hold r) rules)
    × ((evaluate_rules rules fields average null).triggered_rules
        ≡ map (λ r. r.id) (select (λ r. condition_matches r fields) rules))
evaluate_rules_lem_example = evaluate_rules_lem fields rules average null

evaluate_rules-rank_example :
    rank (evaluate_rules rules fields average null).marketability_rating ≡ 3
unfolding condition_matches
evaluate_rules-rank_example =
    evaluate_rules-rank fields rules average null ((λ _. refl), ((λ _. refl), ((λ _. refl), tt)))

abbrev total : List ℕ → ℕ
total [] = 0
total (x ∷ xs) = x + total xs

-- Whole numbers in place of floating-point ones.
abbrev whole : Floats
whole = record {
  Float = ℕ;
  sum = total;
  mul = λ a b. a * b;
  div = λ a b. a / b;
  is_zero = λ a. a == 0;
  near_hundred = λ a. a == 100;
  quantize = λ a. some (pos (a * 100));
}

abbrev components : List (ℕ × ℕ)
components = (4, 60) ∷ (2, 40) ∷ []

calculate_overall_bounds_example :
    (s : ScoringResult) × (n : ℕ) × (calculate_overall whole components ≡ some s)
    × (s.overall ≡ pos n)
    × (n ≤ 500)
    × IsClamped whole (pos 300) n
    × IsBand whole n s.band
    × (s.weight_normalized ≡ false)
calculate_overall_bounds_example =
    (calculate_overall_bounds whole components).2 (pos 300) (λ h. cc h) refl
