-- ===== src/Valuation/RedFlags/Outcome.antt =====
-- What the flags and the rating of an appraisal are, api/services/red_flag_service.py.
use templehe_consign.Base.{
  String, ◌≡◌, refl, sym, ap, ◌∙◌, inl, inr, Bool, true, false, ◌&&◌, ◌||◌, List, [], ◌∷◌, ◌++◌,
  map, if◌then◌else◌, nat_eq, string_eq, pair_eq, Bool-cases, select, any_item, ids_eq, int_eq,
}
use templehe_consign.Json.{Json}
use templehe_consign.Valuation.RedFlags.{
  RuleSpec, RedFlagResult, Fields, condition_matches, asks_review, asks_hold, apply_actions,
  apply_rules, evaluate_rules, untouched,
}

module _ (fields : Fields) where
  abbrev pub fires : (RuleSpec → Bool) → RuleSpec → Bool
  fires asks r = condition_matches r fields && asks r

  -- The results of a rule that matches, and of one that does not.
  flag_step :
      (asks : RuleSpec → Bool) (r : RuleSpec) (rs : List RuleSpec) (b flag : Bool)
      → condition_matches r fields ≡ b
      → (any_item (fires asks) rs || (if b then (if asks r then true else flag) else flag))
        ≡ (any_item (fires asks) (r ∷ rs) || flag)
  flag_step asks r rs true flag e = rw e (go (asks r) (any_item (fires asks) rs) flag)
    where
      go :
          (a rest flag : Bool)
          → (rest || (if a then true else flag)) ≡ ((if a then true else rest) || flag)
      go true true flag = refl
      go true false flag = refl
      go false rest flag = refl
  flag_step asks r rs false flag e = rw e refl

  pub applied :
      (r : RuleSpec) (rs : List RuleSpec) (result : RedFlagResult)
      → condition_matches r fields ≡ true
      → apply_rules (r ∷ rs) fields result ≡ apply_rules rs fields (apply_actions r result)
  unfolding apply_rules
  applied r rs result e = rw (e, apply_rules) refl

  pub skipped :
      (r : RuleSpec) (rs : List RuleSpec) (result : RedFlagResult)
      → condition_matches r fields ≡ false
      → apply_rules (r ∷ rs) fields result ≡ apply_rules rs fields result
  unfolding apply_rules
  skipped r rs result e = rw (e, apply_rules) refl

  review_lem :
      (rs : List RuleSpec) (result : RedFlagResult)
      → (apply_rules rs fields result).management_review_required
        ≡ (any_item (fires asks_review) rs || result.management_review_required)
  unfolding apply_rules apply_actions
  review_lem [] result = refl
  review_lem (r ∷ rs) result = elim (Bool-cases (condition_matches r fields)) [
    | inl e ↦
        ap (λ p. p.management_review_required) (applied r rs result e)
        ∙ review_lem rs (apply_actions r result)
        ∙ flag_step asks_review r rs true result.management_review_required e
    | inr e ↦
        ap (λ p. p.management_review_required) (skipped r rs result e)
        ∙ review_lem rs result
        ∙ flag_step asks_review r rs false result.management_review_required e
  ]

  hold_lem :
      (rs : List RuleSpec) (result : RedFlagResult)
      → (apply_rules rs fields result).hold_for_title_review
        ≡ (any_item (fires asks_hold) rs || result.hold_for_title_review)
  unfolding apply_rules apply_actions
  hold_lem [] result = refl
  hold_lem (r ∷ rs) result = elim (Bool-cases (condition_matches r fields)) [
    | inl e ↦
        ap (λ p. p.hold_for_title_review) (applied r rs result e)
        ∙ hold_lem rs (apply_actions r result)
        ∙ flag_step asks_hold r rs true result.hold_for_title_review e
    | inr e ↦
        ap (λ p. p.hold_for_title_review) (skipped r rs result e)
        ∙ hold_lem rs result
        ∙ flag_step asks_hold r rs false result.hold_for_title_review e
  ]

  abbrev pub matching : List RuleSpec → List String
  matching rs = map (λ r. r.id) (select (λ r. condition_matches r fields) rs)

  append_one :
      (xs : List String) (x : String) (ys : List String) → (xs ++ x ∷ []) ++ ys ≡ xs ++ x ∷ ys
  append_one [] x ys = refl
  append_one (z ∷ zs) x ys = ap (λ w. z ∷ w) (append_one zs x ys)

  append_nothing : (xs : List String) → xs ++ [] ≡ xs
  append_nothing [] = refl
  append_nothing (x ∷ xs) = ap (λ w. x ∷ w) (append_nothing xs)

  matching_hit :
      (r : RuleSpec) (rs : List RuleSpec)
      → condition_matches r fields ≡ true
      → r.id ∷ matching rs ≡ matching (r ∷ rs)
  matching_hit r rs e = rw e refl

  matching_miss :
      (r : RuleSpec) (rs : List RuleSpec)
      → condition_matches r fields ≡ false
      → matching rs ≡ matching (r ∷ rs)
  matching_miss r rs e = rw e refl

  triggered_lem :
      (rs : List RuleSpec) (result : RedFlagResult)
      → (apply_rules rs fields result).triggered_rules ≡ result.triggered_rules ++ matching rs
  unfolding apply_rules apply_actions
  triggered_lem [] result = sym (append_nothing result.triggered_rules)
  triggered_lem (r ∷ rs) result = elim (Bool-cases (condition_matches r fields)) [
    | inl e ↦
        ap (λ p. p.triggered_rules) (applied r rs result e)
        ∙ triggered_lem rs (apply_actions r result)
        ∙ append_one result.triggered_rules r.id (matching rs)
        ∙ ap (λ w. result.triggered_rules ++ w) (matching_hit r rs e)
    | inr e ↦
        ap (λ p. p.triggered_rules) (skipped r rs result e)
        ∙ triggered_lem rs result
        ∙ ap (λ w. result.triggered_rules ++ w) (matching_miss r rs e)
  ]

  or_false : (b : Bool) → (b || false) ≡ b
  or_false true = refl
  or_false false = refl

  -- The flags of an evaluation: a management review is required, and a hold for title review set,
  -- exactly if some rule that matches asks for it, and the rules named as triggered are those that
  -- match, in their order.
  pub evaluate_rules_lem :
      (rules : List RuleSpec) (rating notes : Json)
      → ((evaluate_rules rules fields rating notes).management_review_required
          ≡ any_item (λ r. condition_matches r fields && asks_review r) rules)
        × ((evaluate_rules rules fields rating notes).hold_for_title_review
            ≡ any_item (λ r. condition_matches r fields && asks_hold r) rules)
        × ((evaluate_rules rules fields rating notes).triggered_rules
            ≡ map (λ r. r.id) (select (λ r. condition_matches r fields) rules))
  unfolding evaluate_rules
  evaluate_rules_lem rules rating notes =
      let start = untouched rating notes in
      (
        review_lem rules start ∙ or_false (any_item (fires asks_review) rules),
        hold_lem rules start ∙ or_false (any_item (fires asks_hold) rules),
        triggered_lem rules start,
      )
