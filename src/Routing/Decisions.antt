-- ===== src/Routing/Decisions.antt =====
-- Single decisions of route_for_record in api/services/lead_routing_service.py: what a rule or a claim
-- that decides has, and the order of priorities.
use templehe_consign.Table.{find}
use templehe_consign.Base.{
  ℕ, zero, suc, ◌%◌, String, ◌≡◌, refl, ap, subst, ◌⊎◌, inl, inr, Bool, true, false, none, some,
  List, [], ◌∷◌, arith, nat_eq, string_eq, pair_eq, ≡→eq, ne→neq, Bool-cases, Option-cases, is_some,
  length, eq-cases, ids_eq, ℤ, pos, negsuc, leb_int, int_eq,
}
use templehe_consign.Routing.{LeadRoutingRule, Rules, RoutingDecision, rule_id}
use templehe_consign.Routing.Waterfall.{decide, decide_if, nth_id, claim_next_round_robin}
use templehe_consign.Routing.Admin.{has_id}
use templehe_consign.Routing.Rotation.{claim_found, no_reps}

pub decide_if_inv :
    (t : String) (m : Bool) (r : LeadRoutingRule) {d : RoutingDecision}
    → decide_if t m r ≡ some d
    → (u : ℕ) × (r.assigned_user_id ≡ some u) × (m ≡ true) × (d ≡ decide t r u)
decide_if_inv t m r {d} h = elim (Option-cases r.assigned_user_id) [
  | inl e ↦ absurd (ground arith)
  | inr (u, e) ↦ elim (Bool-cases m) [
    | inl p ↦ (u, e, p, ground arith)
    | inr p ↦ absurd (ground arith)
  ]
]

pub decide_if-none :
    (t : String) (m : Bool) (r : LeadRoutingRule)
    → decide_if t m r ≡ none
    → m ≡ true
    → r.assigned_user_id ≡ none
decide_if-none t m r h p = ground arith

pub decide_if-is_some :
    (t : String) (m : Bool) (r : LeadRoutingRule)
    → m ≡ true
    → is_some r.assigned_user_id ≡ true
    → is_some (decide_if t m r) ≡ true
decide_if-is_some t m r p a = ground arith

has_id-nth_id :
    (d : ℕ) (ids : List ℕ) (i : ℕ) → (has_id (nth_id d ids i) ids ≡ true) ⊎ (nth_id d ids i ≡ d)
has_id-nth_id d [] i = inr refl
has_id-nth_id d (j ∷ js) zero = inl (rw (≡→eq j j refl) refl)
has_id-nth_id d (j ∷ js) (suc i) = elim (has_id-nth_id d js i) [
  | inr e ↦ inr e
  | inl h ↦ elim (eq-cases (nth_id d js i) j) [
    | inl e ↦ inl (rw (≡→eq (nth_id d js i) j e) refl)
    | inr n ↦ inl (rw (ne→neq (nth_id d js i) j n) h)
  ]
]

claim_absent :
    (id rep : ℕ) (reps : List ℕ) (rules : Rules)
    → find rule_id id rules ≡ none
    → (claim_next_round_robin id (rep ∷ reps) rules).0 ≡ none
unfolding claim_next_round_robin
claim_absent id rep reps rules e = ground arith

-- A claim goes to one of the representatives, and fails only without any or without its row.
pub claim_inv :
    (id : ℕ) (reps : List ℕ) (rules : Rules) {u : ℕ}
    → (claim_next_round_robin id reps rules).0 ≡ some u
    → has_id u reps ≡ true
claim_inv id [] rules h = absurd (let e = no_reps id rules in ground arith)
claim_inv id (rep ∷ reps) rules {u} h = elim (Option-cases (find rule_id id rules)) [
  | inl e ↦ absurd (let l = claim_absent id rep reps rules e in ground arith)
  | inr (r, e) ↦
      (let n : ℕ = r.round_robin_index % length (rep ∷ reps) in
        let found = ap (λ p. p.0) (claim_found id rep reps rules e) in
        let same : nth_id rep (rep ∷ reps) n ≡ u = cc (found, h) in
        subst (λ k. has_id k (rep ∷ reps) ≡ true) same (member rep reps n))
]
  where
    member :
        (rep : ℕ) (reps : List ℕ) (n : ℕ) → has_id (nth_id rep (rep ∷ reps) n) (rep ∷ reps) ≡ true
    member rep reps n = elim (has_id-nth_id rep (rep ∷ reps) n) [
      | inl h ↦ h
      | inr e ↦ rw (≡→eq (nth_id rep (rep ∷ reps) n) rep e) refl
    ]

pub leb_int_refl : (a : ℤ) → leb_int a a ≡ true
leb_int_refl (pos a) = ground arith
leb_int_refl (negsuc a) = ground arith

pub leb_int_total : (a b : ℤ) → leb_int a b ≡ false → leb_int b a ≡ true
leb_int_total (pos a) (pos b) h = ground arith
leb_int_total (pos a) (negsuc b) h = refl
leb_int_total (negsuc a) (pos b) h = cc
leb_int_total (negsuc a) (negsuc b) h = ground arith

pub leb_int_trans : (a b c : ℤ) → leb_int a b ≡ true → leb_int b c ≡ true → leb_int a c ≡ true
leb_int_trans (pos a) (pos b) (pos c) h k = ground arith
leb_int_trans (pos a) (pos b) (negsuc c) h k = cc
leb_int_trans (pos a) (negsuc b) c h k = cc
leb_int_trans (negsuc a) (pos b) (pos c) h k = refl
leb_int_trans (negsuc a) (pos b) (negsuc c) h k = cc
leb_int_trans (negsuc a) (negsuc b) (pos c) h k = refl
leb_int_trans (negsuc a) (negsuc b) (negsuc c) h k = ground arith

-- A claim that fails changes nothing.
pub claim_fails :
    (id : ℕ) (reps : List ℕ) (rules : Rules)
    → (claim_next_round_robin id reps rules).0 ≡ none
    → claim_next_round_robin id reps rules ≡ (none, rules)
unfolding claim_next_round_robin
claim_fails id [] rules h = no_reps id rules
claim_fails id (rep ∷ reps) rules h = elim (Option-cases (find rule_id id rules)) [
  | inl e ↦ unmoved e
  | inr (r, e) ↦ absurd (let f = ap (λ p. p.0) (claim_found id rep reps rules e) in cc (f, h))
]
  where
    unmoved :
        find rule_id id rules ≡ none → claim_next_round_robin id (rep ∷ reps) rules ≡ (none, rules)
    unmoved e = rw (e, claim_next_round_robin) refl

-- A claim of a rule of the table succeeds if the rule has representatives.
pub claim_succeeds :
    (id : ℕ) (reps : List ℕ) (rules : Rules)
    → is_some (find rule_id id rules) ≡ true
    → (claim_next_round_robin id reps rules).0 ≡ none
    → reps ≡ []
claim_succeeds id [] rules f h = refl
claim_succeeds id (rep ∷ reps) rules f h = elim (Option-cases (find rule_id id rules)) [
  | inl e ↦ absurd (ground arith)
  | inr (r, e) ↦ absurd (let c = ap (λ p. p.0) (claim_found id rep reps rules e) in cc (c, h))
]
