-- ===== src/Routing/Admin/Renumbering.antt =====
-- reorder_priorities of api/services/lead_routing_service.py: every write of its two phases keeps
-- the slots unique, and the rules end in the order that was asked for.
use templehe_consign.Table.{find, update, find-update_self, find-update_ne}
use templehe_consign.Base.{
  ℕ, suc, ◌+◌, ◌≤◌, ◌<◌, String, ◌≡◌, refl, sym, ap, subst, ◌∙◌, ◌≢◌, ◌⊎◌, inl, inr, true, false,
  some, List, [], ◌∷◌, arith, if◌then◌else◌, nat_eq, string_eq, pair_eq, ne→neq, length, All,
  eq-cases, ids_eq, ℤ, int_eq,
}
use templehe_consign.Routing.{LeadRoutingRule, Rules, rule_id}
use templehe_consign.Routing.Admin.{stands, set_priority, phase, writes, has_id, no_duplicates}
use templehe_consign.Routing.Admin.Free.{IsSlotted, origin, move-IsSlotted}

-- A row of the bucket of a type that stands in the table.
abbrev pub Member : String → ℕ → LeadRoutingRule → Rules → Type 0
Member t i r rules = (find rule_id i rules ≡ some r) × (stands r ≡ true) × (r.rule_type ≡ t)

abbrev pub Held : String → List ℕ → Rules → Type 0
Held t ids rules = All (λ i. (r : LeadRoutingRule) × Member t i r rules) ids

-- Every row of the bucket has its id in the list.
abbrev pub Covered : String → List ℕ → Rules → Type 0
Covered t ids rules = (i : ℕ) (r : LeadRoutingRule) → Member t i r rules → has_id i ids ≡ true

module _ (i : ℕ) (p : ℤ) (t : String) where
  abbrev pub moved : Rules → Rules
  moved rules = update rule_id i (set_priority p) rules

  held_moved :
      (j : ℕ) (rules : Rules)
      → (r : LeadRoutingRule) × Member t j r rules
      → (r : LeadRoutingRule) × Member t j r (moved rules)
  held_moved j rules (r, (f, s, e)) = elim (eq-cases j i) [
    | inl q ↦ (
      set_priority p r,
      (
        subst (λ k. find rule_id k (moved rules) ≡ some (set_priority p r)) (sym q)
            (find-update_self rule_id i (set_priority p) rules (λ y. refl)
              (subst (λ k. find rule_id k rules ≡ some r) q f)),
        s,
        e,
      ),
    )
    | inr n ↦ (r, (find-update_ne rule_id j i (set_priority p) rules (λ y. refl) n ∙ f, s, e))
  ]

  pub Held-moved : (ids : List ℕ) (rules : Rules) → Held t ids rules → Held t ids (moved rules)
  Held-moved [] rules h = tt
  Held-moved (j ∷ js) rules h = (held_moved j rules h.0, Held-moved js rules h.1)

  -- A row of the changed table was there before, up to its priority.
  Member-before :
      (j : ℕ) (r : LeadRoutingRule) (rules : Rules)
      → Member t j r (moved rules)
      → (old : LeadRoutingRule) × Member t j old rules
  Member-before j r rules (f, s, e) = elim (origin i (set_priority p) (λ y. refl) j r rules f) [
    | inl (q, old, g, same) ↦ (
      old,
      (
        subst (λ k. find rule_id k rules ≡ some old) (sym q) g,
        subst (λ y. stands y ≡ true) same s,
        subst (λ y. y.rule_type ≡ t) same e,
      ),
    )
    | inr (n, g) ↦ (r, (g, s, e))
  ]

  Covered-moved : (ids : List ℕ) (rules : Rules) → Covered t ids rules → Covered t ids (moved rules)
  Covered-moved ids rules c j r m = let (old, o) = Member-before j r rules m in c j old o

-- One phase gives the priorities `f n`, `f (n + 1)`, …; the rows that it has not come to have others.
module _ (t : String) (f : ℕ → ℤ) (inj : (m n : ℕ) → f m ≡ f n → m ≡ n) (Old : ℤ → Type 0)
    (apart : (n : ℕ) (p : ℤ) → Old p → p ≢ f n) where
  abbrev Stage : ℕ → List ℕ → Rules → Type 0
  Stage n rest rules =
      (i : ℕ) (r : LeadRoutingRule)
      → Member t i r rules
      → ((has_id i rest ≡ true) × Old r.priority) ⊎ ((k : ℕ) × (k < n) × (r.priority ≡ f k))

  Stage-moved :
      (n i : ℕ) (rest : List ℕ) (rules : Rules)
      → Stage n (i ∷ rest) rules
      → Stage (suc n) rest (moved i (f n) t rules)
  Stage-moved n i rest rules st j r (g, s, e) =
      elim (origin i (set_priority (f n)) (λ y. refl) j r rules g) [
        | inl (q, old, h, same) ↦ inr (n, omega arith, ap (λ y. y.priority) same)
        | inr (m, h) ↦ elim (st j r (h, s, e)) [
          | inl (a, o) ↦
              inl (subst (λ b. (if b then true else has_id j rest) ≡ true) (ne→neq j i m) a, o)
          | inr (k, l, q) ↦ inr (k, omega (arith, l), q)
        ]
      ]

  IsSlotted-moved :
      (n i : ℕ) (rest : List ℕ) (rules : Rules)
      → Held t (i ∷ rest) rules
      → Stage n (i ∷ rest) rules
      → IsSlotted rules
      → IsSlotted (moved i (f n) t rules)
  IsSlotted-moved n i rest rules h st v =
      move-IsSlotted i (set_priority (f n)) (λ y. refl) rules v
        (λ old fo so b s m fb sb e p. free b s m fb sb (e ∙ bucket old fo) p)
    where
      the_same :
          (a b : LeadRoutingRule)
          → find rule_id i rules ≡ some a
          → find rule_id i rules ≡ some b
          → a ≡ b
      the_same a b p q = cc

      bucket : (old : LeadRoutingRule) → find rule_id i rules ≡ some old → old.rule_type ≡ t
      bucket old fo = let (r, (g, _, e)) = h.0 in ap (λ y. y.rule_type) (the_same old r fo g) ∙ e

      free :
          (b : ℕ) (s : LeadRoutingRule)
          → b ≢ i
          → find rule_id b rules ≡ some s
          → stands s ≡ true
          → s.rule_type ≡ t
          → s.priority ≢ f n
      free b s m fb sb e p = elim (st b s (fb, sb, e)) [
        | inl (_, o) ↦ apart n s.priority o p
        | inr (k, l, q) ↦ (let same = inj k n (sym q ∙ p) in omega (arith, same, l))
      ]

  Stage-later :
      (m n : ℕ) (rest : List ℕ) (rules : Rules) → m ≤ n → Stage m rest rules → Stage n rest rules
  Stage-later m n rest rules l st i r mem = elim (st i r mem) [
    | inl o ↦ inl o
    | inr (k, lt, q) ↦ inr (k, omega (arith, l, lt), q)
  ]

  -- After a phase every row of the bucket has one of its priorities, and every table on the way is
  -- slotted.
  pub phase-Stage :
      (n : ℕ) (ids : List ℕ) (rules : Rules)
      → Held t ids rules
      → Stage n ids rules
      → IsSlotted rules
      → All IsSlotted (writes f n ids rules)
        × IsSlotted (phase f n ids rules)
        × Stage (n + length ids) [] (phase f n ids rules)
  unfolding phase
  phase-Stage n [] rules h st v = (tt, v, Stage-later n (n + 0) [] rules (omega arith) st)
  phase-Stage n (i ∷ is) rules h st v =
      let next = IsSlotted-moved n i is rules h st v in
      let (a, b, c) =
        phase-Stage (suc n) is (moved i (f n) t rules) (Held-moved i (f n) t is rules h.1)
          (Stage-moved n i is rules st) next in
      (
        (next, a),
        b,
        Stage-later (suc n + length is) (n + suc (length is)) []
            (phase f (suc n) is (moved i (f n) t rules)) (omega arith) c,
      )

-- What a phase leaves alone: the rows of other ids, the ids that stand in the bucket, and all rows
-- up to their priorities.
module _ (t : String) (f : ℕ → ℤ) where
  pub phase-Held :
      (n : ℕ) (is ids : List ℕ) (rules : Rules) → Held t ids rules → Held t ids (phase f n is rules)
  unfolding phase
  phase-Held n [] ids rules h = h
  phase-Held n (i ∷ is) ids rules h =
      phase-Held (suc n) is ids (moved i (f n) t rules) (Held-moved i (f n) t ids rules h)

  pub phase-Covered :
      (n : ℕ) (is ids : List ℕ) (rules : Rules)
      → Covered t ids rules
      → Covered t ids (phase f n is rules)
  unfolding phase
  phase-Covered n [] ids rules c = c
  phase-Covered n (i ∷ is) ids rules c =
      phase-Covered (suc n) is ids (moved i (f n) t rules) (Covered-moved i (f n) t ids rules c)

pub phase_frame :
    (f : ℕ → ℤ) (n : ℕ) (ids : List ℕ) (rules : Rules) (j : ℕ)
    → has_id j ids ≡ false
    → find rule_id j (phase f n ids rules) ≡ find rule_id j rules
unfolding phase
phase_frame f n [] rules j h = refl
phase_frame f n (i ∷ is) rules j h = elim (eq-cases j i) [
  | inl e ↦ absurd (ground arith)
  | inr m ↦
      phase_frame f (suc n) is (update rule_id i (set_priority (f n)) rules) j (ground arith)
      ∙ find-update_ne rule_id j i (set_priority (f n)) rules (λ y. refl) m
]

-- The rows of the ids have the priorities n, n + 1, … in the order of the list.
abbrev pub Numbered : (ℕ → ℤ) → ℕ → List ℕ → Rules → Type 0
Numbered f n [] rules = Unit
Numbered f n (i ∷ is) rules =
    ((r : LeadRoutingRule) × (find rule_id i rules ≡ some r) × (r.priority ≡ f n))
    × Numbered f (suc n) is rules

pub phase-Numbered :
    (t : String) (f : ℕ → ℤ) (n : ℕ) (ids : List ℕ) (rules : Rules)
    → no_duplicates ids ≡ true
    → Held t ids rules
    → Numbered f n ids (phase f n ids rules)
unfolding phase
phase-Numbered t f n [] rules d h = tt
phase-Numbered t f n (i ∷ is) rules d h =
    let next = update rule_id i (set_priority (f n)) rules in
    let (r, (g, _, _)) = h.0 in
    (
      (
        set_priority (f n) r,
        (phase_frame f (suc n) is next i (ground arith)
            ∙ find-update_self rule_id i (set_priority (f n)) rules (λ y. refl) g),
        refl,
      ),
      phase-Numbered t f (suc n) is next (ground arith) (Held-moved i (f n) t is rules h.1),
    )
