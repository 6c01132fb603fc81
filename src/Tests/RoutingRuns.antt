-- ===== src/Tests/RoutingRuns.antt =====
-- Lead routing at concrete rules, customers and calls. Outside code is replaced by functions on plain
-- texts.
use templehe_consign.Routing.Admin.{
  partly, check_priority_slot_free, update_rule, require_sales_role, RulePatch, patched,
  set_priority, writes, phase, reorder_priorities, has_id,
}
use templehe_consign.Base.{
  ℕ, ◌-◌, String, ◌≡◌, refl, ◌⊎◌, Bool, true, false, ◌&&◌, Option, none, some, List, [], ◌∷◌, arith,
  leb, if◌then◌else◌, ◌==◌, nat_eq, string_eq, pair_eq, is_some, All, ids_eq, strip, pos, negsuc,
  int_eq,
}
use templehe_consign.Table.{find, All-find}
use templehe_consign.Routing.Admin.Slots.{update_rule-IsSlotted}
use templehe_consign.Routing.Admin.Free.{IsSlotted, add-IsSlotted, checked-IsFree_new}
use templehe_consign.Routing.Admin.Renumbering.{Numbered, Covered}
use templehe_consign.Routing.Admin.Reordering.{IsPlaced, reorder_priorities_lem}
use templehe_consign.Base.Result.{ok, err}
use templehe_consign.Store.{http}
use templehe_consign.Routing.Waterfall.{
  decide_if, load_active_rules, decide, claim_next_round_robin, route_for_record, ad_hoc_pass,
  geographic_pass,
}
use templehe_consign.Routing.{
  Scalar, text, array, LeadRoutingRule, Rules, Customer, Outside, Conditions, rule_id,
}
use templehe_consign.Routing.Conditions.{
  ad_hoc_matches, geo_matches, metro_matches, metro_of, round_robin_rep_ids,
}
use templehe_consign.Routing.DryRun.{TestRuleResult, Synthetic, test_rule, get_rule}
use templehe_consign.Routing.Rotation.{after_claims, claims_rotate, test_rule_lem, assignee}
use templehe_consign.Routing.Precedence.{IsRouted, route_for_record_lem}

abbrev plain : Outside
plain = record {
  lower = λ s. s;
  upper = λ s. s;
  is_digit = λ c. leb 48 c && leb c 57;
  digit_value = λ c. c - 48;
  parse_uuid = λ s. if s == "seven" then some 7 else if s == "eight" then some 8 else none;
  to_float = λ v. none;
  float_le = leb;
  float_zero = 0;
  haversine_miles = λ a b c d. 0;
  geocode = λ s. none;
}

abbrev rule : ℕ → String → ℕ → String → List Scalar → Option ℕ → LeadRoutingRule
rule id t priority field items user = record {
  id = id;
  rule_type = t;
  priority = pos priority;
  conditions = some ((field, array "" items) ∷ []);
  assigned_user_id = user;
  round_robin_index = 3;
  is_active = true;
  created_by = none;
  deleted_at = none;
}

abbrev far : LeadRoutingRule
far = rule 1 "geographic" 5 "state_list" (text "CA" ∷ text "NV" ∷ []) (some 10)

abbrev near : LeadRoutingRule
near = rule 2 "geographic" 4 "state_list" (text " NV " ∷ []) (some 11)

abbrev turns : LeadRoutingRule
turns = rule 3 "round_robin" 0 "rep_ids" (text "seven" ∷ text "nobody" ∷ text "eight" ∷ []) none

abbrev rules : Rules
rules = far ∷ near ∷ turns ∷ []

abbrev customer : Customer
customer = record {
  id = 20;
  user_email = none;
  address_street = none;
  address_city = none;
  address_state = some "NV";
  address_zip = none;
}

route_for_record_lem_example :
    IsRouted plain customer (some "eight") rules (decide "geographic" near 11)
unfolding route_for_record ad_hoc_pass geographic_pass load_active_rules geo_matches metro_matches
    metro_of strip
route_for_record_lem_example = route_for_record_lem plain customer (some "eight") rules

claims_rotate_example :
    (claim_next_round_robin 3 (7 ∷ 8 ∷ []) (after_claims 2 3 (7 ∷ 8 ∷ []) rules)).0 ≡ some 8
claims_rotate_example = claims_rotate 3 7 (8 ∷ []) 2 rules refl

abbrev nobody : Synthetic
nobody = record {
  customer_id = none;
  customer_email = none;
  customer_state = none;
  customer_zip = none;
  customer_lat = none;
  customer_lng = none;
}

test_rule_lem_example :
    ((r : LeadRoutingRule) × (find rule_id 3 rules ≡ some r)
      × (is_some r.deleted_at ≡ false)
      × ((result : TestRuleResult) × (test_rule plain 3 nobody rules ≡ ok result)
          × (r.rule_type ≡ "round_robin"
              → result.would_assign_to
                ≡ (claim_next_round_robin 3 (round_robin_rep_ids plain r) rules).0)
          × (r.rule_type ≡ "ad_hoc"
              → result.would_assign_to
                ≡ assignee (decide_if "ad_hoc" (ad_hoc_matches plain r none none) r))))
    ⊎ (test_rule plain 3 nobody rules ≡ err (http 404))
test_rule_lem_example = test_rule_lem plain nobody 3 rules

-- The administration of rules, with a validation that admits everything.
abbrev accepts : String → Option Conditions → Bool
accepts t c = true

empty-IsSlotted : IsSlotted []
empty-IsSlotted a b r s fa fb sa sb t p = absurd (ground arith)

rules-IsSlotted : IsSlotted rules
unfolding check_priority_slot_free
rules-IsSlotted =
    add-IsSlotted far (near ∷ turns ∷ [])
      (checked-IsFree_new "geographic" (pos 5) 1 (near ∷ turns ∷ []) refl)
      (add-IsSlotted near (turns ∷ []) (checked-IsFree_new "geographic" (pos 4) 2 (turns ∷ []) refl)
        (add-IsSlotted turns [] (checked-IsFree_new "round_robin" (pos 0) 3 [] refl)
          empty-IsSlotted))

-- Another priority, and no longer active.
abbrev retreat : RulePatch
retreat = record {
  set_priority = true;
  new_priority = some (pos 7);
  set_conditions = false;
  new_conditions = none;
  set_assigned_user = false;
  new_assigned_user = none;
  set_is_active = true;
  new_is_active = some false;
}

update_rule-IsSlotted_example : IsSlotted (far ∷ patched retreat near ∷ turns ∷ [])
unfolding update_rule get_rule check_priority_slot_free require_sales_role
update_rule-IsSlotted_example =
    update_rule-IsSlotted accepts [] 2 retreat rules rules-IsSlotted refl

rules-IsPlaced : IsPlaced "geographic" rules
rules-IsPlaced i r m =
    All-find rule_id (λ y. (k : ℕ) × (y.priority ≡ pos k)) i rules
      ((5, refl), ((4, refl), ((0, refl), tt))) m.0

abbrev reordered : Rules
reordered = set_priority (pos 1) far ∷ set_priority (pos 0) near ∷ turns ∷ []

reorder_priorities_lem_example :
    Numbered pos 0 (2 ∷ 1 ∷ []) reordered
    × Covered "geographic" (2 ∷ 1 ∷ []) reordered
    × ((j : ℕ) → has_id j (2 ∷ 1 ∷ []) ≡ false → find rule_id j reordered ≡ find rule_id j rules)
    × All IsSlotted (writes negsuc 0 (2 ∷ 1 ∷ []) rules)
    × All IsSlotted (writes pos 0 (2 ∷ 1 ∷ []) (phase negsuc 0 (2 ∷ 1 ∷ []) rules))
    × ((written : ℕ → Bool) → IsSlotted (partly written negsuc 0 (2 ∷ 1 ∷ []) rules))
    × ((written : ℕ → Bool)
        → IsSlotted (partly written pos 0 (2 ∷ 1 ∷ []) (phase negsuc 0 (2 ∷ 1 ∷ []) rules)))
    × IsSlotted reordered
unfolding reorder_priorities phase
reorder_priorities_lem_example =
    reorder_priorities_lem "geographic" 2 (1 ∷ []) rules (refl, (refl, (refl, tt))) rules-IsSlotted
      rules-IsPlaced refl
