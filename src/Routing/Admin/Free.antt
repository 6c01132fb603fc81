-- ===== src/Routing/Admin/Free.antt =====
-- Free slots of rules, (rule_type, priority) among the rows that are not deleted, as
-- _check_priority_slot_free of api/services/lead_routing_service.py looks for them.
use templehe_consign.Store.{HttpError, http}
use templehe_consign.Table.{
  find, update, find_key, find-update_self, find-update_ne, find-update-none, find-cons_ne,
}
use templehe_consign.Base.Result.{Result, ok, err}
use templehe_consign.Base.{
  ℕ, String, ◌≡◌, refl, sym, ap, subst, ◌∙◌, ◌≢◌, ◌⊎◌, inl, inr, Bool, true, false, ◌&&◌, none,
  some, [], ◌∷◌, arith, nat_eq, string_eq, pair_eq, ≡→eq, ne→neq, Bool-cases, Option-cases, select,
  eq-cases, ids_eq, ℤ, int_eq,
}
use templehe_consign.Routing.{LeadRoutingRule, Rules, rule_id}
use templehe_consign.Routing.Admin.{stands, takes, is_other, check_priority_slot_free}

-- Two rows that stand in one slot are one row.
abbrev pub IsSlotted : Rules → Type 0
IsSlotted rules =
    (a b : ℕ) (r s : LeadRoutingRule)
    → find rule_id a rules ≡ some r
    → find rule_id b rules ≡ some s
    → stands r ≡ true
    → stands s ≡ true
    → r.rule_type ≡ s.rule_type
    → r.priority ≡ s.priority
    → a ≡ b

-- No other row than that of an id stands in a slot.
abbrev pub IsFree : ℕ → String → ℤ → Rules → Type 0
IsFree i t p rules =
    (b : ℕ) (s : LeadRoutingRule)
    → b ≢ i
    → find rule_id b rules ≡ some s
    → stands s ≡ true
    → s.rule_type ≡ t
    → s.priority ≢ p

module _ (i : ℕ) (g : LeadRoutingRule → LeadRoutingRule)
    (kept : (r : LeadRoutingRule) → (g r).id ≡ r.id) where
  -- Where a row of the changed table comes from.
  abbrev Origin : ℕ → LeadRoutingRule → Rules → Type 0
  Origin a r rules =
      ((a ≡ i) × (old : LeadRoutingRule) × (find rule_id i rules ≡ some old) × (r ≡ g old))
      ⊎ ((a ≢ i) × (find rule_id a rules ≡ some r))

  pub origin :
      (a : ℕ) (r : LeadRoutingRule) (rules : Rules)
      → find rule_id a (update rule_id i g rules) ≡ some r
      → Origin a r rules
  origin a r rules h = elim (eq-cases a i) [
    | inr n ↦ inr (n, sym (find-update_ne rule_id a i g rules kept n) ∙ h)
    | inl e ↦ elim (Option-cases (find rule_id i rules)) [
      | inl none_there ↦
          absurd (let t = find-update-none rule_id i i g rules kept none_there in ground (arith, t))
      | inr (old, f) ↦
          inl (e, old, f, (let t = find-update_self rule_id i g rules kept f in ground (arith, t)))
    ]
  ]

  -- One row may move to a slot that is free.
  pub move-IsSlotted :
      (rules : Rules)
      → IsSlotted rules
      → ((old : LeadRoutingRule)
          → find rule_id i rules ≡ some old
          → stands (g old) ≡ true
          → IsFree i (g old).rule_type (g old).priority rules)
      → IsSlotted (update rule_id i g rules)
  move-IsSlotted rules v free a b r s fa fb sa sb t p =
      go (origin a r rules fa) (origin b s rules fb)
    where
      go : Origin a r rules → Origin b s rules → a ≡ b
      go (inl (ea, _, _, _)) (inl (eb, _, _, _)) = ea ∙ sym eb
      go (inr (na, ga)) (inr (nb, gb)) = v a b r s ga gb sa sb t p
      go (inl (ea, old, f, e)) (inr (nb, gb)) = absurd (
          free old f (subst (λ y. stands y ≡ true) e sa) b s nb gb sb
            (sym t ∙ ap (λ y. y.rule_type) e) (sym p ∙ ap (λ y. y.priority) e))
      go (inr (na, ga)) (inl (eb, old, f, e)) = absurd (
          free old f (subst (λ y. stands y ≡ true) e sb) a r na ga sa (t ∙ ap (λ y. y.rule_type) e)
            (p ∙ ap (λ y. y.priority) e))

-- A silent check means that the slot is free.
unchosen :
    (test : LeadRoutingRule → Bool) (rules : Rules) (b : ℕ) {s : LeadRoutingRule}
    → select test rules ≡ []
    → find rule_id b rules ≡ some s
    → test s ≡ false
unchosen test [] b h f = absurd (ground arith)
unchosen test (r ∷ rs) b {s} h f = elim (Bool-cases (test r)) [
  | inl t ↦ absurd (ground arith)
  | inr t ↦ elim (eq-cases b r.id) [
    | inl e ↦ ground arith
    | inr n ↦ unchosen test rs b (ground arith) (ground arith)
  ]
]

nothing_chosen :
    (chosen : Rules)
    → ◌≡◌ {A = Result HttpError (Unit {0})}
        (elim chosen [ [] ↦ ok tt | r ∷ rs ↦ err (http 409) ])
        (ok tt)
    → chosen ≡ []
nothing_chosen [] h = refl
nothing_chosen (r ∷ rs) h = cc

chosen_lem :
    (t : String) (p : ℤ) (i : ℕ) (s : LeadRoutingRule)
    → s.id ≢ i
    → stands s ≡ true
    → s.rule_type ≡ t
    → s.priority ≡ p
    → (takes t p s && is_other (some i) s) ≡ true
chosen_lem t p i s n st et ep =
    rw (≡→eq s.rule_type t et, ≡→eq s.priority p ep, st, ne→neq s.id i n) refl

pub checked-IsFree :
    (t : String) (p : ℤ) (i : ℕ) (rules : Rules)
    → check_priority_slot_free t p (some i) rules ≡ ok tt
    → IsFree i t p rules
unfolding check_priority_slot_free
checked-IsFree t p i rules h b s n f st et ep =
    let test : LeadRoutingRule → Bool = λ r. takes t p r && is_other (some i) r in
    let un = unchosen test rules b (nothing_chosen (select test rules) h) f in
    let id = find_key rule_id b rules f in
    cc (un, chosen_lem t p i s (λ e. n (sym id ∙ e)) st et ep)

-- A new slot is free for any id, if the id is new.
pub checked-IsFree_new :
    (t : String) (p : ℤ) (i : ℕ) (rules : Rules)
    → check_priority_slot_free t p none rules ≡ ok tt
    → IsFree i t p rules
unfolding check_priority_slot_free
checked-IsFree_new t p i rules h b s n f st et ep =
    let test : LeadRoutingRule → Bool = λ r. takes t p r && is_other none r in
    let un = unchosen test rules b (nothing_chosen (select test rules) h) f in
    let e : (takes t p s && true) ≡ true =
      rw (≡→eq s.rule_type t et, ≡→eq s.priority p ep, st) refl in
    cc (un, e)

module _ (r : LeadRoutingRule) (rules : Rules) where
  tail_found :
      (a : ℕ) {p : LeadRoutingRule}
      → a ≢ r.id
      → find rule_id a (r ∷ rules) ≡ some p
      → find rule_id a rules ≡ some p
  tail_found a n h = sym (find-cons_ne rule_id a r rules n) ∙ h

  head_found :
      (a : ℕ) {p : LeadRoutingRule} → a ≡ r.id → find rule_id a (r ∷ rules) ≡ some p → p ≡ r
  head_found a e h = ground arith

  -- A row may be added in a free slot.
  pub add-IsSlotted :
      IsFree r.id r.rule_type r.priority rules → IsSlotted rules → IsSlotted (r ∷ rules)
  add-IsSlotted free v a b p q fa fb sp sq t e = elim (eq-cases a r.id) [
    | inl ea ↦
        (let same = head_found a ea fa in
          elim (eq-cases b r.id) [
            | inl eb ↦ ea ∙ sym eb
            | inr nb ↦ absurd (
                free b q nb (tail_found b nb fb) sq (sym t ∙ ap (λ y. y.rule_type) same)
                  (sym e ∙ ap (λ y. y.priority) same))
          ])
    | inr na ↦ elim (eq-cases b r.id) [
      | inl eb ↦
          (let same = head_found b eb fb in
            absurd (
              free a p na (tail_found a na fa) sp (t ∙ ap (λ y. y.rule_type) same)
                (e ∙ ap (λ y. y.priority) same)))
      | inr nb ↦ v a b p q (tail_found a na fa) (tail_found b nb fb) sp sq t e
    ]
  ]
