-- ===== src/Routing/DryRun.antt =====
-- test_rule of api/services/lead_routing_service.py, the dry run of one rule. The texts of the reason
-- are left out.
use templehe_consign.Store.{HttpError, http}
use templehe_consign.Table.{find}
use templehe_consign.Base.Result.{Result, ok, err, ◌>>=◌}
use templehe_consign.Base.{
  ℕ, ◌%◌, String, Bool, true, false, ◌||◌, Option, none, some, List, [], ◌∷◌, if◌then◌else◌, ◌==◌,
  nat_eq, string_eq, pair_eq, is_some, length, ids_eq, int_eq,
}
use templehe_consign.Routing.{LeadRoutingRule, Rules, Outside, rule_id}
use templehe_consign.Routing.Conditions.{ad_hoc_matches, geo_matches, metro_of, round_robin_rep_ids}
use templehe_consign.Routing.Waterfall.{nth_id}

pub record TestRuleResult : Type 0 where
  pub rule_id : ℕ
  pub rule_type : String
  pub matched : Bool
  pub would_assign_to : Option ℕ

-- get_rule
unfoldable pub get_rule : ℕ → Rules → Result HttpError LeadRoutingRule
get_rule i rules = elim (find rule_id i rules) [
  | none ↦ err (http 404)
  | some r ↦ if is_some r.deleted_at then err (http 404) else ok r
]

-- The synthetic customer: the arguments of the call.
pub record Synthetic : Type 0 where
  pub customer_id : Option ℕ
  pub customer_email : Option String
  pub customer_state : Option String
  pub customer_zip : Option String
  pub customer_lat : Option ℕ
  pub customer_lng : Option ℕ

abbrev answer : LeadRoutingRule → Bool → TestRuleResult
answer r matched = record {
  rule_id = r.id;
  rule_type = r.rule_type;
  matched = matched;
  would_assign_to = if matched then r.assigned_user_id else none;
}

module _ (x : Outside) where
  -- _metro_matches_synthetic; the distance is taken from the customer to the centre.
  abbrev metro_matches_synthetic : LeadRoutingRule → ℕ → ℕ → Bool
  metro_matches_synthetic r lat lng = elim (metro_of x r) [
    | none ↦ false
    | some c ↦ x.float_le (x.haversine_miles lat lng c.center_lat c.center_lon) c.radius_miles
  ]

  abbrev near_synthetic : LeadRoutingRule → Option ℕ → Option ℕ → Bool
  near_synthetic r (some lat) (some lng) = metro_matches_synthetic r lat lng
  near_synthetic r _ _ = false

  abbrev pub next_rep : LeadRoutingRule → List ℕ → TestRuleResult
  next_rep r [] = record {
    rule_id = r.id;
    rule_type = r.rule_type;
    matched = false;
    would_assign_to = none;
  }
  next_rep r (rep ∷ reps) = record {
    rule_id = r.id;
    rule_type = r.rule_type;
    matched = true;
    would_assign_to = some (nth_id rep (rep ∷ reps) (r.round_robin_index % length (rep ∷ reps)));
  }

  -- The branches of test_rule by the type of the rule.
  abbrev pub try_as : String → LeadRoutingRule → Synthetic → TestRuleResult
  try_as rule_type r s =
      if rule_type == "ad_hoc"
      then answer r (ad_hoc_matches x r s.customer_id s.customer_email)
      else if rule_type == "geographic"
      then answer r (
          geo_matches x r s.customer_state s.customer_zip
          || near_synthetic r s.customer_lat s.customer_lng)
      else next_rep r (round_robin_rep_ids x r)

  abbrev pub try_rule : LeadRoutingRule → Synthetic → TestRuleResult
  try_rule r s = try_as r.rule_type r s

  unfoldable pub test_rule : ℕ → Synthetic → Rules → Result HttpError TestRuleResult
  test_rule i s rules = do r ← get_rule i rules; ok (try_rule r s)
