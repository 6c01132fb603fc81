-- ===== src/Routing/Precedence.antt =====
-- The waterfall of route_for_record in api/services/lead_routing_service.py against the precedence of
-- the rules as a relation.
use templehe_consign.Table.{find}
use templehe_consign.Routing.{
  rule_id, Customer, Outside, first_some, LeadRoutingRule, Rules, RoutingDecision,
}
use templehe_consign.Base.{
  ℕ, String, ◌≡◌, sym, ap, ◌∙◌, ◌≢◌, inl, inr, Bool, true, Option, none, some, [], nat_eq,
  string_eq, pair_eq, eq→≡, ≡→eq, Option-cases, is_some, select, All, All-map, ids_eq, leb_int,
  int_eq,
}
use templehe_consign.Routing.Waterfall.{
  route_for_record, ad_hoc_pass, geographic_pass, round_robin_pass, by_default, in_area, decide_if,
  decide, is_live, load_active_rules, of_type, by_priority,
}
use templehe_consign.Routing.Decisions.{decide_if_inv, decide_if-none, decide_if-is_some}
use templehe_consign.Routing.Searches.{
  Any-select, All-select_inv, first_some-Any, first_some-none, Any-map, All-both, Any,
}
use templehe_consign.Routing.Passes.{
  rows_found, pass_none, pass_some, offer, offer_inv, no_offer, round_robin_pass_lem,
}
use templehe_consign.Routing.Conditions.{round_robin_rep_ids, ad_hoc_matches}
use templehe_consign.Routing.Admin.{has_id}

module _ (x : Outside) (customer : Customer) where
  -- No live rule of the type that matches has a user to give the record to.
  abbrev pub NoneServes : String → (LeadRoutingRule → Bool) → Rules → Type 0
  NoneServes t m rules =
      All (λ r. is_live r ≡ true → r.rule_type ≡ t → m r ≡ true → r.assigned_user_id ≡ none) rules

  -- The decision names the user of a live, matching rule of the type.
  abbrev pub Serves : String → (LeadRoutingRule → Bool) → RoutingDecision → LeadRoutingRule → Type 0
  Serves t m d r =
      (is_live r ≡ true)
      × (r.rule_type ≡ t)
      × ((u : ℕ) × (r.assigned_user_id ≡ some u) × (m r ≡ true) × (d ≡ decide t r u))

  abbrev pub suits : LeadRoutingRule → Bool
  suits r = ad_hoc_matches x r (some customer.id) customer.user_email

  -- The decisions that the precedence of the rules allows: of an ad-hoc rule; without one, of a
  -- geographic rule of the smallest priority; without one, of a round-robin rule of the smallest
  -- priority that has representatives, for one of them; and without one, the default.
  pub data IsRouted (default_rep : Option String) (rules : Rules) : RoutingDecision → Type 0 where
    ad_hoc :
        (d : RoutingDecision) → Any (Serves "ad_hoc" suits d) rules → IsRouted default_rep rules d
    geographic :
        (d : RoutingDecision)
        → NoneServes "ad_hoc" suits rules
        → Any
            (λ r.
              Serves "geographic" (in_area x customer) d r
              × All
                  (λ y.
                    is_live y ≡ true
                    → y.rule_type ≡ "geographic"
                    → in_area x customer y ≡ true
                    → is_some y.assigned_user_id ≡ true
                    → leb_int r.priority y.priority ≡ true)
                  rules)
            rules
        → IsRouted default_rep rules d
    round_robin :
        (d : RoutingDecision)
        → NoneServes "ad_hoc" suits rules
        → NoneServes "geographic" (in_area x customer) rules
        → Any
            (λ r.
              (is_live r ≡ true)
              × (r.rule_type ≡ "round_robin")
              × ((u : ℕ) × (has_id u (round_robin_rep_ids x r) ≡ true)
                  × (d ≡ decide "round_robin" r u))
              × All
                  (λ y.
                    is_live y ≡ true
                    → y.rule_type ≡ "round_robin"
                    → round_robin_rep_ids x y ≢ []
                    → leb_int r.priority y.priority ≡ true)
                  rules)
            rules
        → IsRouted default_rep rules d
    no_rule :
        NoneServes "ad_hoc" suits rules
        → NoneServes "geographic" (in_area x customer) rules
        → All
            (λ r. is_live r ≡ true → r.rule_type ≡ "round_robin" → round_robin_rep_ids x r ≡ [])
            rules
        → IsRouted default_rep rules (by_default x default_rep)

  module _ (t : String) (m : LeadRoutingRule → Bool) (rules : Rules) where
    abbrev tries : LeadRoutingRule → Option RoutingDecision
    tries r = decide_if t (m r) r

    none_serves :
        first_some tries (by_priority (select (of_type t) (load_active_rules rules))) ≡ none
        → NoneServes t m rules
    none_serves h =
        All-map rules (λ r k l e p. decide_if-none t (m r) r (k l e) p) (pass_none tries t rules h)

    none_tried :
        first_some tries (select (of_type t) (load_active_rules rules)) ≡ none
        → NoneServes t m rules
    unfolding load_active_rules
    none_tried h =
        All-map rules (λ r k l e p. decide_if-none t (m r) r (k l (≡→eq r.rule_type t e)) p)
          (All-select_inv _ is_live rules (
            All-select_inv _ (of_type t) (select is_live rules)
              (first_some-none tries (select (of_type t) (select is_live rules)) h)))

    one_tried :
        (d : RoutingDecision)
        → first_some tries (select (of_type t) (load_active_rules rules)) ≡ some d
        → Any (Serves t m d) rules
    unfolding load_active_rules
    one_tried d h =
        Any-map rules (λ r p. (p.0, eq→≡ r.rule_type t p.1.0, decide_if_inv t (m r) r p.1.1))
          (Any-select (λ r. (of_type t r ≡ true) × (tries r ≡ some d)) is_live rules
            (Any-select (λ r. tries r ≡ some d) (of_type t) (select is_live rules)
              (first_some-Any tries (select (of_type t) (select is_live rules)) h)))

    best-Serves :
        (d : RoutingDecision)
        → first_some tries (by_priority (select (of_type t) (load_active_rules rules))) ≡ some d
        → Any
            (λ r.
              Serves t m d r
              × All
                  (λ y.
                    is_live y ≡ true
                    → y.rule_type ≡ t
                    → m y ≡ true
                    → is_some y.assigned_user_id ≡ true
                    → leb_int r.priority y.priority ≡ true)
                  rules)
            rules
    best-Serves d h =
        Any-map rules
          (λ r (l, e, (c, a)). (
            (l, e, decide_if_inv t (m r) r c),
            All-map rules (λ y k p q b g. k p q (decide_if-is_some t (m y) y b g)) a,
          ))
          (pass_some tries t rules d h)

  module _ (rules : Rules) where
    first_reps :
        (d : RoutingDecision)
        → first_some
            (offer x rules)
            (by_priority (select (of_type "round_robin") (load_active_rules rules)))
          ≡ some d
        → Any
            (λ r.
              (is_live r ≡ true)
              × (r.rule_type ≡ "round_robin")
              × ((u : ℕ) × (has_id u (round_robin_rep_ids x r) ≡ true)
                  × (d ≡ decide "round_robin" r u))
              × All
                  (λ y.
                    is_live y ≡ true
                    → y.rule_type ≡ "round_robin"
                    → round_robin_rep_ids x y ≢ []
                    → leb_int r.priority y.priority ≡ true)
                  rules)
            rules
    first_reps d h =
        Any-map rules (λ r (l, e, (c, a)). (l, e, offer_inv x rules r d c, least r a))
          (pass_some (offer x rules) "round_robin" rules d h)
      where
        least :
            (r : LeadRoutingRule)
            → All
                (λ y.
                  is_live y ≡ true
                  → y.rule_type ≡ "round_robin"
                  → is_some (offer x rules y) ≡ true
                  → leb_int r.priority y.priority ≡ true)
                rules
            → All
                (λ y.
                  is_live y ≡ true
                  → y.rule_type ≡ "round_robin"
                  → round_robin_rep_ids x y ≢ []
                  → leb_int r.priority y.priority ≡ true)
                rules
        least r a =
            All-both rules
              (λ y
                  (k : is_live y ≡ true
                    → y.rule_type ≡ "round_robin"
                    → is_some (offer x rules y) ≡ true
                    → leb_int r.priority y.priority ≡ true)
                  (f : is_some (find rule_id y.id rules) ≡ true) p q n.
                elim (Option-cases (offer x rules y)) [
                  | inl o ↦ absurd (n (no_offer x rules y f o))
                  | inr (b, o) ↦ k p q (ap is_some o)
                ])
              a (rows_found rules)

    no_reps_left :
        first_some
            (offer x rules)
            (by_priority (select (of_type "round_robin") (load_active_rules rules)))
          ≡ none
        → All
            (λ r. is_live r ≡ true → r.rule_type ≡ "round_robin" → round_robin_rep_ids x r ≡ [])
            rules
    no_reps_left h =
        All-both rules (λ r k f l e. no_offer x rules r f (k l e))
          (pass_none (offer x rules) "round_robin" rules h) (rows_found rules)

  -- What the waterfall decides is what the precedence of the rules allows: an ad-hoc rule that matches
  -- and has a user, or, if there is none, such a geographic rule, of the smallest priority among them,
  -- or, if there is none, a round-robin rule of the smallest priority among those that have
  -- representatives, and one of them, or, if there is none, the default representative or nobody.
  pub route_for_record_lem :
      (default_rep : Option String) (rules : Rules)
      → IsRouted default_rep rules (route_for_record x default_rep customer rules).0
  unfolding route_for_record ad_hoc_pass geographic_pass
  route_for_record_lem default_rep rules =
      let live = load_active_rules rules in
      let turns = by_priority (select (of_type "round_robin") live) in
      elim (Option-cases (ad_hoc_pass x customer live)) [
        | inr (d, e) ↦ rw (e, route_for_record) (ad_hoc d (one_tried "ad_hoc" suits rules d e))
        | inl a ↦ elim (Option-cases (geographic_pass x customer live)) [
          | inr (d, g) ↦
              rw (a, g, route_for_record)
                (geographic d (none_tried "ad_hoc" suits rules a)
                  (best-Serves "geographic" (in_area x customer) rules d g))
          | inl g ↦ elim (Option-cases (round_robin_pass x turns rules).0) [
            | inr (d, r) ↦
                rw (a, g, r, route_for_record)
                  (round_robin d (none_tried "ad_hoc" suits rules a)
                    (none_serves "geographic" (in_area x customer) rules g)
                    (first_reps rules d (sym (round_robin_pass_lem x rules turns) ∙ r)))
            | inl r ↦
                rw (a, g, r, route_for_record)
                  (no_rule (none_tried "ad_hoc" suits rules a)
                    (none_serves "geographic" (in_area x customer) rules g)
                    (no_reps_left rules (sym (round_robin_pass_lem x rules turns) ∙ r)))
          ]
        ]
      ]
