-- ===== src/Routing/Passes.antt =====
-- The passes of route_for_record in api/services/lead_routing_service.py over the rules of one type.
use templehe_consign.Base.{
  ℕ, String, ◌≡◌, refl, ap, ◌∙◌, ◌⊎◌, inl, inr, true, Option, none, some, [], ◌∷◌, arith, nat_eq,
  string_eq, pair_eq, eq→≡, ≡→eq, Option-cases, is_some, select, All, All-map, ids_eq,
  All-sort_with_inv, leb_int, int_eq,
}
use templehe_consign.Routing.Decisions.{
  leb_int_refl, leb_int_total, leb_int_trans, claim_inv, claim_fails, claim_succeeds,
}
use templehe_consign.Routing.Conditions.{round_robin_rep_ids}
use templehe_consign.Routing.Admin.{has_id}
use templehe_consign.Table.{find}
use templehe_consign.Routing.{Outside, rule_id, first_some, LeadRoutingRule, Rules, RoutingDecision}
use templehe_consign.Routing.Waterfall.{
  decide, round_robin_pass, claim_next_round_robin, is_live, load_active_rules, of_type,
  by_priority,
}
use templehe_consign.Routing.Searches.{
  sort_with-IsSorted, first_some-some, Any-sort_with, Any-select, Any-map, Any, first_some-none,
  All-select_inv,
}

-- The rows of a table are found by their ids.
pub rows_found : (rules : Rules) → All (λ r. is_some (find rule_id r.id rules) ≡ true) rules
rows_found [] = tt
rows_found (r ∷ rs) =
    (rw (≡→eq r.id r.id refl) refl, All-map rs (λ y f. ground (arith, f)) (rows_found rs))

module _ (f : LeadRoutingRule → Option RoutingDecision) (t : String) (rules : Rules) where
  -- A pass without a hit has a miss at every live rule of the type.
  pub pass_none :
      first_some f (by_priority (select (of_type t) (load_active_rules rules))) ≡ none
      → All (λ r. is_live r ≡ true → r.rule_type ≡ t → f r ≡ none) rules
  unfolding load_active_rules
  pass_none h =
      All-map rules (λ r a l e. a l (≡→eq r.rule_type t e))
        (All-select_inv _ is_live rules (
          All-select_inv _ (of_type t) (select is_live rules) (
            All-sort_with_inv _ _ (select (of_type t) (select is_live rules))
              (first_some-none f (by_priority (select (of_type t) (select is_live rules))) h))))

  -- A rule gives a decision, and no rule of the type that gives one has a smaller priority.
  abbrev pub IsBest : RoutingDecision → LeadRoutingRule → Type 0
  IsBest d r =
      (f r ≡ some d)
      × All
          (λ y.
            is_live y ≡ true
            → y.rule_type ≡ t
            → is_some (f y) ≡ true
            → leb_int r.priority y.priority ≡ true)
          rules

  pub pass_some :
      (d : RoutingDecision)
      → first_some f (by_priority (select (of_type t) (load_active_rules rules))) ≡ some d
      → Any (λ r. (is_live r ≡ true) × (r.rule_type ≡ t) × IsBest d r) rules
  unfolding load_active_rules
  pass_some d h =
      let live = select is_live rules in
      let typed = select (of_type t) live in
      let hits =
        first_some-some f _ (by_priority typed)
          (sort_with-IsSorted _ (λ a b. leb_int_total a.priority b.priority)
            (λ a b c. leb_int_trans a.priority b.priority c.priority) typed)
          h in
      Any-map rules (λ r p. (p.0, eq→≡ r.rule_type t p.1.0, p.1.1))
        (Any-select (λ r. (of_type t r ≡ true) × IsBest d r) is_live rules
          (Any-select (IsBest d) (of_type t) live (
            Any-sort_with _ (IsBest d) typed
              (Any-map (by_priority typed) (λ r p. (p.0, precedes r p.1)) hits))))
    where
      precedes :
          (r : LeadRoutingRule)
          → All
              (λ y. is_some (f y) ≡ true → (y ≡ r) ⊎ (leb_int r.priority y.priority ≡ true))
              (by_priority (select (of_type t) (select is_live rules)))
          → All
              (λ y.
                is_live y ≡ true
                → y.rule_type ≡ t
                → is_some (f y) ≡ true
                → leb_int r.priority y.priority ≡ true)
              rules
      precedes r a =
          All-map rules
            (λ y k l e s. elim (k l (≡→eq y.rule_type t e) s) [
              | inl same ↦ ap (λ z. leb_int r.priority z.priority) same ∙ leb_int_refl r.priority
              | inr b ↦ b
            ])
            (All-select_inv _ is_live rules (
              All-select_inv _ (of_type t) (select is_live rules)
                (All-sort_with_inv _ _ (select (of_type t) (select is_live rules)) a)))

module _ (x : Outside) (rules : Rules) where
  -- What a round-robin rule gives when its turn comes.
  abbrev pub offer : LeadRoutingRule → Option RoutingDecision
  offer r = elim (claim_next_round_robin r.id (round_robin_rep_ids x r) rules).0 [
    | none ↦ none
    | some user ↦ some (decide "round_robin" r user)
  ]

  pub offer_inv :
      (r : LeadRoutingRule) (d : RoutingDecision)
      → offer r ≡ some d
      → (u : ℕ) × (has_id u (round_robin_rep_ids x r) ≡ true) × (d ≡ decide "round_robin" r u)
  offer_inv r d h =
      elim (Option-cases (claim_next_round_robin r.id (round_robin_rep_ids x r) rules).0) [
        | inl e ↦ absurd (ground arith)
        | inr (u, e) ↦ (u, claim_inv r.id (round_robin_rep_ids x r) rules e, ground arith)
      ]

  pub no_offer :
      (r : LeadRoutingRule)
      → is_some (find rule_id r.id rules) ≡ true
      → offer r ≡ none
      → round_robin_rep_ids x r ≡ []
  no_offer r f h =
      elim (Option-cases (claim_next_round_robin r.id (round_robin_rep_ids x r) rules).0) [
        | inl e ↦ claim_succeeds r.id (round_robin_rep_ids x r) rules f e
        | inr (u, e) ↦ absurd (ground arith)
      ]

  passed_over :
      (r : LeadRoutingRule) (rs : Rules)
      → (claim_next_round_robin r.id (round_robin_rep_ids x r) rules).0 ≡ none
      → first_some offer rs ≡ first_some offer (r ∷ rs)
  passed_over r rs e = ground arith

  taken :
      (r : LeadRoutingRule) (rs : Rules) {u : ℕ}
      → (claim_next_round_robin r.id (round_robin_rep_ids x r) rules).0 ≡ some u
      → some (decide "round_robin" r u) ≡ first_some offer (r ∷ rs)
  taken r rs e = ground arith

  -- The loop gives the first offer, since the claims before it change nothing.
  pub round_robin_pass_lem : (rs : Rules) → (round_robin_pass x rs rules).0 ≡ first_some offer rs
  unfolding round_robin_pass
  round_robin_pass_lem [] = refl
  round_robin_pass_lem (r ∷ rs) =
      elim (Option-cases (claim_next_round_robin r.id (round_robin_rep_ids x r) rules).0) [
        | inl e ↦
            (let same = claim_fails r.id (round_robin_rep_ids x r) rules e in
              rw (e, round_robin_pass)
                (ap (λ p. (round_robin_pass x rs p.1).0) same
                  ∙ round_robin_pass_lem rs
                  ∙ passed_over r rs e))
        | inr (u, e) ↦ rw (e, round_robin_pass) (taken r rs e)
      ]
