-- ===== src/Routing/Admin/Slots.antt =====
-- The unique slots of rules, (rule_type, priority) among the rows that are not deleted, under the
-- calls of api/services/lead_routing_service.py that write one rule.
use templehe_consign.Store.{User, HttpError, http}
use templehe_consign.Table.{find, find_key}
use templehe_consign.Base.Result.{Result, ok, err, require, >>=-eq-ok}
use templehe_consign.Base.{
  ℕ, String, ◌≡◌, refl, ap, subst, ◌∙◌, inl, inr, Bool, true, Option, none, some, List, arith,
  if◌then◌else◌, nat_eq, string_eq, pair_eq, ne→neq, Bool-cases, Option-cases, is_some, eq-cases,
  ids_eq, ℤ, int_eq,
}
use templehe_consign.Routing.{LeadRoutingRule, Rules, Conditions, rule_id}
use templehe_consign.Routing.DryRun.{get_rule}
use templehe_consign.Routing.Admin.{
  deleted, stands, check_priority_slot_free, RulePatch, patched, check_move, check_patch,
  require_sales_role, is_rule_type, new_rule, create_rule, update_rule, soft_delete_rule,
}
use templehe_consign.Routing.Admin.Free.{
  IsSlotted, IsFree, move-IsSlotted, checked-IsFree, checked-IsFree_new, add-IsSlotted,
}

pub got_rule :
    (i : ℕ) (rules : Rules) {r : LeadRoutingRule}
    → get_rule i rules ≡ ok r
    → (find rule_id i rules ≡ some r) × (stands r ≡ true)
unfolding get_rule
got_rule i rules {r} h = elim (Option-cases (find rule_id i rules)) [
  | inl e ↦ absurd (ground arith)
  | inr (s, e) ↦ elim (Bool-cases (is_some s.deleted_at)) [
    | inl d ↦ absurd (ground arith)
    | inr d ↦ (let same : s ≡ r = ground arith in (e ∙ ap some same, rw (← same) (rw d refl)))
  ]
]

abbrev table_of : Rules → Result HttpError (LeadRoutingRule × Rules) → Rules
table_of rules (ok (r, t)) = t
table_of rules (err e) = rules

-- Deleting a rule keeps the slots unique.
pub soft_delete_rule-IsSlotted :
    (clock i : ℕ) (rules : Rules) {r : LeadRoutingRule} {rules' : Rules}
    → IsSlotted rules
    → soft_delete_rule clock i rules ≡ ok (r, rules')
    → IsSlotted rules'
unfolding soft_delete_rule
soft_delete_rule-IsSlotted clock i rules v h =
    let (r, _, q) = >>=-eq-ok (get_rule i rules) _ h in
    subst IsSlotted (ap (table_of rules) q)
      (move-IsSlotted i (deleted clock) (λ y. refl) rules v (λ old f gone. absurd (ground arith)))

IsFree-move :
    (p : RulePatch) (i : ℕ) (rules : Rules) (r : LeadRoutingRule)
    → IsSlotted rules
    → find rule_id i rules ≡ some r
    → stands r ≡ true
    → check_move (patched p r) r rules ≡ ok tt
    → IsFree i (patched p r).rule_type (patched p r).priority rules
IsFree-move p i rules r v f st m = elim (eq-cases (patched p r).priority r.priority) [
  | inl e ↦ (λ b s n fb sb t q. n (v b i s r fb f sb st t (q ∙ e)))
  | inr n ↦
      (let c : check_priority_slot_free r.rule_type (patched p r).priority (some r.id) rules
            ≡ ok tt =
          subst
            (λ t.
              (if t
                then ok tt
                else check_priority_slot_free r.rule_type (patched p r).priority (some r.id) rules)
              ≡ ok tt)
            (ne→neq (patched p r).priority r.priority n) m in
        subst (λ k. IsFree k r.rule_type (patched p r).priority rules) (find_key rule_id i rules f)
          (checked-IsFree r.rule_type (patched p r).priority r.id rules c))
]

module _ (accepts : String → Option Conditions → Bool) (users : List User) where
  -- Creating a rule keeps the slots unique.
  pub create_rule-IsSlotted :
      (id creator : ℕ) (rule_type : String) (priority : ℤ) (conditions : Option Conditions)
      (assigned_user_id : Option ℕ) (is_active : Bool) (rules : Rules) {r : LeadRoutingRule}
      {rules' : Rules}
      → IsSlotted rules
      → create_rule accepts users id creator rule_type priority conditions assigned_user_id
          is_active rules
        ≡ ok (r, rules')
      → IsSlotted rules'
  unfolding create_rule
  create_rule-IsSlotted id creator rule_type priority conditions assigned_user_id is_active rules v
        h =
      let (_, _, h1) = >>=-eq-ok (require (is_rule_type rule_type) (http 422)) _ h in
      let (_, _, h2) = >>=-eq-ok (require (accepts rule_type conditions) (http 422)) _ h1 in
      let (_, _, h3) = >>=-eq-ok (require_sales_role assigned_user_id users) _ h2 in
      let (_, c, h4) = >>=-eq-ok (check_priority_slot_free rule_type priority none rules) _ h3 in
      let new =
        new_rule accepts users id creator rule_type priority conditions assigned_user_id
          is_active in
      subst IsSlotted (ap (table_of rules) h4)
        (add-IsSlotted new rules (checked-IsFree_new rule_type priority id rules c) v)

  -- A change of a rule that returns leaves no two standing rules of one type with one priority, if
  -- there were none before, whatever the validation of the conditions admits.
  pub update_rule-IsSlotted :
      (i : ℕ) (p : RulePatch) (rules : Rules) {r : LeadRoutingRule} {rules' : Rules}
      → IsSlotted rules
      → update_rule accepts users i p rules ≡ ok (r, rules')
      → IsSlotted rules'
  unfolding update_rule
  update_rule-IsSlotted i p rules v h =
      let (r, g, h1) = >>=-eq-ok (get_rule i rules) _ h in
      let (_, c, h2) = >>=-eq-ok (check_patch accepts users p r rules) _ h1 in
      let (_, m, _) = >>=-eq-ok (check_move (patched p r) r rules) _ c in
      let (f, st) = got_rule i rules g in
      subst IsSlotted (ap (table_of rules) h2) (
        move-IsSlotted i (patched p) (λ y. refl) rules v
          (λ old fo so.
            subst (λ y. IsFree i (patched p y).rule_type (patched p y).priority rules)
              (same r old f fo) (IsFree-move p i rules r v f st m)))
    where
      same :
          (r old : LeadRoutingRule)
          → find rule_id i rules ≡ some r
          → find rule_id i rules ≡ some old
          → r ≡ old
      same r old f fo = cc
