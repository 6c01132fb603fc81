-- ===== src/Routing/Rotation.antt =====
-- The rotation of _claim_next_round_robin in api/services/lead_routing_service.py, and test_rule, which
-- foretells it.
use templehe_consign.Store.{http}
use templehe_consign.Table.{find, update, find-update_self}
use templehe_consign.Base.Result.{ok, err}
use templehe_consign.Base.{
  ℕ, zero, suc, ◌+◌, ◌-◌, ◌%◌, ◌≡◌, refl, sym, ap, ◌∙◌, ◌⊎◌, inl, inr, Bool, true, false, Option,
  none, some, List, [], ◌∷◌, arith, if◌then◌else◌, nat_eq, string_eq, pair_eq, Bool-cases,
  Option-cases, is_some, length, ids_eq, int_eq,
}
use templehe_consign.Routing.{LeadRoutingRule, Rules, Outside, RoutingDecision, rule_id}
use templehe_consign.Routing.Conditions.{ad_hoc_matches, round_robin_rep_ids}
use templehe_consign.Routing.Waterfall.{decide, claim_next_round_robin, nth_id, bump, decide_if}
use templehe_consign.Routing.DryRun.{
  next_rep, Synthetic, TestRuleResult, get_rule, test_rule, try_rule, try_as, next_rep,
}

-- The table after a number of claims.
pub after_claims : ℕ → ℕ → List ℕ → Rules → Rules
after_claims zero id reps rules = rules
after_claims (suc k) id reps rules = after_claims k id reps (claim_next_round_robin id reps rules).1

module _ (id rep : ℕ) (reps : List ℕ) where
  -- A claim of a rule that is in the table.
  pub claim_found :
      (rules : Rules) {r : LeadRoutingRule}
      → find rule_id id rules ≡ some r
      → claim_next_round_robin id (rep ∷ reps) rules ≡ (
        some (nth_id rep (rep ∷ reps) (r.round_robin_index % length (rep ∷ reps))),
        update rule_id id bump rules,
      )
  unfolding claim_next_round_robin
  claim_found rules {r} f =
      let less : r.round_robin_index + 1 - 1 ≡ r.round_robin_index = omega arith in
      rw (f, claim_next_round_robin)
        (ap
          (λ n. (
            some (nth_id rep (rep ∷ reps) (n % length (rep ∷ reps))),
            update rule_id id bump rules,
          ))
          less)

  -- The rotation: after any number of claims of a rule the next one goes to the representative that is
  -- so many places behind the first one, round and round the list.
  pub claims_rotate :
      (k : ℕ) (rules : Rules) {r : LeadRoutingRule}
      → find rule_id id rules ≡ some r
      → (claim_next_round_robin id (rep ∷ reps) (after_claims k id (rep ∷ reps) rules)).0
        ≡ some (nth_id rep (rep ∷ reps) ((r.round_robin_index + k) % length (rep ∷ reps)))
  unfolding after_claims
  claims_rotate zero rules {r} f =
      ap (λ p. p.0) (claim_found rules f)
      ∙ ap (λ n. some (nth_id rep (rep ∷ reps) (n % length (rep ∷ reps)))) (omega arith)
  claims_rotate (suc k) rules {r} f =
      let next : find rule_id id (update rule_id id bump rules) ≡ some (bump r) =
        find-update_self rule_id id bump rules (λ y. refl) f in
      ap (λ p. (claim_next_round_robin id (rep ∷ reps) (after_claims k id (rep ∷ reps) p.1)).0)
        (claim_found rules f)
      ∙ claims_rotate k (update rule_id id bump rules) next
      ∙ ap (λ n. some (nth_id rep (rep ∷ reps) (n % length (rep ∷ reps)))) (omega arith)

pub no_reps : (i : ℕ) (rules : Rules) → claim_next_round_robin i [] rules ≡ (none, rules)
unfolding claim_next_round_robin
no_reps i rules = refl

module _ (i : ℕ) (rules : Rules) where
  not_there : find rule_id i rules ≡ none → get_rule i rules ≡ err (http 404)
  unfolding get_rule
  not_there e = ground arith

  is_deleted :
      {r : LeadRoutingRule}
      → find rule_id i rules ≡ some r
      → is_some r.deleted_at ≡ true
      → get_rule i rules ≡ err (http 404)
  unfolding get_rule
  is_deleted e d = ground arith

  is_there :
      {r : LeadRoutingRule}
      → find rule_id i rules ≡ some r
      → is_some r.deleted_at ≡ false
      → get_rule i rules ≡ ok r
  unfolding get_rule
  is_there e d = ground arith

-- Whom a decision assigns.
abbrev pub assignee : Option RoutingDecision → Option ℕ
assignee none = none
assignee (some d) = d.assigned_user_id

module _ (x : Outside) (s : Synthetic) where
  foretold :
      (i : ℕ) (rules : Rules) (r : LeadRoutingRule)
      → find rule_id i rules ≡ some r
      → r.rule_type ≡ "round_robin"
      → (try_rule x r s).would_assign_to
        ≡ (claim_next_round_robin i (round_robin_rep_ids x r) rules).0
  foretold i rules r f t =
      ap (λ k. (try_as x k r s).would_assign_to) t ∙ go (round_robin_rep_ids x r)
    where
      go :
          (reps : List ℕ)
          → (next_rep x r reps).would_assign_to ≡ (claim_next_round_robin i reps rules).0
      go [] = sym (ap (λ p. p.0) (no_reps i rules))
      go (rep ∷ reps) = sym (ap (λ p. p.0) (claim_found i rep reps rules f))

  agreed :
      (r : LeadRoutingRule)
      → r.rule_type ≡ "ad_hoc"
      → (try_rule x r s).would_assign_to
        ≡ assignee (decide_if "ad_hoc" (ad_hoc_matches x r s.customer_id s.customer_email) r)
  agreed r t =
      ap (λ k. (try_as x k r s).would_assign_to) t
      ∙ go (ad_hoc_matches x r s.customer_id s.customer_email) r.assigned_user_id
    where
      go :
          (b : Bool) (u : Option ℕ)
          → (if b then u else none)
            ≡ assignee (elim u [
              | none ↦ none
              | some user ↦ if b then some (decide "ad_hoc" r user) else none
            ])
      go true none = refl
      go true (some u) = refl
      go false none = refl
      go false (some u) = refl

  -- The dry run of a round-robin rule names the representative that the next claim would take, and that
  -- of an ad-hoc rule the assignee that the waterfall would take from this rule; a rule that is deleted
  -- or not there raises 404.
  pub test_rule_lem :
      (i : ℕ) (rules : Rules)
      → ((r : LeadRoutingRule) × (find rule_id i rules ≡ some r)
          × (is_some r.deleted_at ≡ false)
          × ((result : TestRuleResult) × (test_rule x i s rules ≡ ok result)
              × (r.rule_type ≡ "round_robin"
                  → result.would_assign_to
                    ≡ (claim_next_round_robin i (round_robin_rep_ids x r) rules).0)
              × (r.rule_type ≡ "ad_hoc"
                  → result.would_assign_to
                    ≡ assignee (
                        decide_if "ad_hoc" (ad_hoc_matches x r s.customer_id s.customer_email) r))))
        ⊎ (test_rule x i s rules ≡ err (http 404))
  unfolding test_rule
  test_rule_lem i rules = elim (Option-cases (find rule_id i rules)) [
    | inl e ↦ inr (rw (not_there i rules e) refl)
    | inr (r, e) ↦ elim (Bool-cases (is_some r.deleted_at)) [
      | inl d ↦ inr (rw (is_deleted i rules e d) refl)
      | inr d ↦ inl (
        r,
        e,
        d,
        (try_rule x r s, rw (is_there i rules e d) refl, foretold i rules r e, agreed r),
      )
    ]
  ]
