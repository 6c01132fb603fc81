-- ===== src/Routing/Waterfall.antt =====
-- route_for_record of api/services/lead_routing_service.py. `default_rep` is the setting
-- default_sales_rep_id as the registry returns it.
use templehe_consign.Table.{find, update}
use templehe_consign.Base.{
  ℕ, zero, suc, ◌+◌, ◌-◌, ◌%◌, String, Bool, not, ◌&&◌, ◌||◌, Option, none, some, List, [], ◌∷◌,
  if◌then◌else◌, ◌==◌, nat_eq, string_eq, pair_eq, is_some, length, select, ids_eq, get_or,
  sort_with, leb_int, int_eq,
}
use templehe_consign.Routing.{
  LeadRoutingRule, Rules, Customer, Outside, RoutingDecision, rule_id, first_some,
}
use templehe_consign.Routing.Conditions.{
  ad_hoc_matches, geo_matches, metro_matches, round_robin_rep_ids,
}

-- The rows that _load_active_rules selects, in no particular order.
abbrev pub is_live : LeadRoutingRule → Bool
is_live r = not (is_some r.deleted_at) && r.is_active

unfoldable pub load_active_rules : Rules → Rules
load_active_rules rules = select is_live rules

abbrev pub of_type : String → LeadRoutingRule → Bool
of_type t r = r.rule_type == t

abbrev pub by_priority : Rules → Rules
by_priority = sort_with (λ a b. leb_int a.priority b.priority)

abbrev pub decide : String → LeadRoutingRule → ℕ → RoutingDecision
decide rule_type r user = record {
  assigned_user_id = some user;
  rule_id = some r.id;
  rule_type = some rule_type;
  trigger = "lead_routing";
}

-- A rule that matches decides if it has an assignee.
abbrev pub decide_if : String → Bool → LeadRoutingRule → Option RoutingDecision
decide_if t matched r = elim r.assigned_user_id [
  | none ↦ none
  | some user ↦ if matched then some (decide t r user) else none
]

abbrev pub nth_id : ℕ → List ℕ → ℕ → ℕ
nth_id d [] i = d
nth_id d (x ∷ xs) zero = x
nth_id d (x ∷ xs) (suc i) = nth_id d xs i

abbrev pub bump : LeadRoutingRule → LeadRoutingRule
bump r = record r { round_robin_index = r.round_robin_index + 1 }

-- _claim_next_round_robin: UPDATE … RETURNING, and the representative of the index before it.
unfoldable pub claim_next_round_robin : ℕ → List ℕ → Rules → Option ℕ × Rules
claim_next_round_robin id [] rules = (none, rules)
claim_next_round_robin id (rep ∷ reps) rules = elim (find rule_id id rules) [
  | none ↦ (none, rules)
  | some r ↦ (
    some (nth_id rep (rep ∷ reps) ((r.round_robin_index + 1 - 1) % length (rep ∷ reps))),
    update rule_id id bump rules,
  )
]

module _ (x : Outside) where
  -- _read_default_sales_rep
  abbrev pub read_default_sales_rep : Option String → Option ℕ
  read_default_sales_rep none = none
  read_default_sales_rep (some raw) = if raw == "" then none else x.parse_uuid raw

  -- The two decisions without a rule.
  abbrev pub by_default : Option String → RoutingDecision
  by_default default_rep = elim (read_default_sales_rep default_rep) [
    | none ↦ record {
      assigned_user_id = none;
      rule_id = none;
      rule_type = none;
      trigger = "unassigned";
    }
    | some rep ↦ record {
      assigned_user_id = some rep;
      rule_id = none;
      rule_type = none;
      trigger = "default_sales_rep";
    }
  ]

  unfoldable pub ad_hoc_pass : Customer → Rules → Option RoutingDecision
  ad_hoc_pass customer rules =
      first_some
        (λ r. decide_if "ad_hoc" (ad_hoc_matches x r (some customer.id) customer.user_email) r)
        (select (of_type "ad_hoc") rules)

  abbrev pub in_area : Customer → LeadRoutingRule → Bool
  in_area customer r =
      geo_matches x r customer.address_state customer.address_zip || metro_matches x r customer

  unfoldable pub geographic_pass : Customer → Rules → Option RoutingDecision
  geographic_pass customer rules =
      first_some (λ r. decide_if "geographic" (in_area customer r) r)
        (by_priority (select (of_type "geographic") rules))

  -- The loop over the round-robin rules. `rules` is the table, which a claim changes.
  unfoldable pub round_robin_pass : Rules → Rules → Option RoutingDecision × Rules
  round_robin_pass [] rules = (none, rules)
  round_robin_pass (r ∷ rs) rules =
      let (claimed, after) = claim_next_round_robin r.id (round_robin_rep_ids x r) rules in
      elim claimed [
        | some user ↦ (some (decide "round_robin" r user), after)
        | none ↦ round_robin_pass rs after
      ]

  abbrev pub after_rules : Option String → Option RoutingDecision × Rules → RoutingDecision × Rules
  after_rules default_rep (d, rules) = (get_or d (by_default default_rep), rules)

  unfoldable pub route_for_record : Option String → Customer → Rules → RoutingDecision × Rules
  route_for_record default_rep customer rules =
      let live = load_active_rules rules in
      elim (ad_hoc_pass customer live) [
        | some d ↦ (d, rules)
        | none ↦ elim (geographic_pass customer live) [
          | some d ↦ (d, rules)
          | none ↦
              after_rules default_rep
                (round_robin_pass (by_priority (select (of_type "round_robin") live)) rules)
        ]
      ]
