-- ===== src/Routing/Admin/Flushing.antt =====
-- reorder_priorities of api/services/lead_routing_service.py: the flush of a phase may send its
-- UPDATEs in any order.
use templehe_consign.Table.{find}
use templehe_consign.Base.{
  ℕ, suc, ◌<◌, String, ◌≡◌, refl, sym, ap, ◌∙◌, ◌≢◌, ◌⊎◌, inl, inr, Bool, true, some, List, [], ◌∷◌,
  arith, nat_eq, string_eq, pair_eq, Bool-cases, ids_eq, ℤ, int_eq,
}
use templehe_consign.Routing.{LeadRoutingRule, Rules, rule_id}
use templehe_consign.Routing.Admin.{stands, set_priority, partly}
use templehe_consign.Routing.Admin.Free.{IsSlotted, origin, move-IsSlotted}
use templehe_consign.Routing.Admin.Renumbering.{Member, Held, moved, Held-moved}

-- The writes of a phase in any order: at each moment the rows of some of its ids are written.
module _ (t : String) (f : ℕ → ℤ) (inj : (m n : ℕ) → f m ≡ f n → m ≡ n) (Old : ℤ → Type 0)
    (apart : (n : ℕ) (p : ℤ) → Old p → p ≢ f n) (written : ℕ → Bool) where
  -- Each row of the bucket has an old priority or one that is given out already.
  abbrev Given : ℕ → Rules → Type 0
  Given n rules =
      (i : ℕ) (r : LeadRoutingRule)
      → Member t i r rules
      → Old r.priority ⊎ ((k : ℕ) × (k < n) × (r.priority ≡ f k))

  Given-later : (n : ℕ) (rules : Rules) → Given n rules → Given (suc n) rules
  Given-later n rules g i r m = elim (g i r m) [
    | inl o ↦ inl o
    | inr (k, l, q) ↦ inr (k, omega (arith, l), q)
  ]

  Given-moved : (n i : ℕ) (rules : Rules) → Given n rules → Given (suc n) (moved i (f n) t rules)
  Given-moved n i rules g j r (h, s, e) =
      elim (origin i (set_priority (f n)) (λ y. refl) j r rules h) [
        | inl (q, old, k, same) ↦ inr (n, omega arith, ap (λ y. y.priority) same)
        | inr (m, k) ↦ Given-later n rules g j r (k, s, e)
      ]

  give-IsSlotted :
      (n i : ℕ) (rules : Rules)
      → (r : LeadRoutingRule) × Member t i r rules
      → Given n rules
      → IsSlotted rules
      → IsSlotted (moved i (f n) t rules)
  give-IsSlotted n i rules (r, (fr, sr, er)) g v =
      move-IsSlotted i (set_priority (f n)) (λ y. refl) rules v
        (λ old fo so b s m fb sb e p. free b s fb sb (e ∙ bucket old fo) p)
    where
      bucket : (old : LeadRoutingRule) → find rule_id i rules ≡ some old → old.rule_type ≡ t
      bucket old fo = (let same : old ≡ r = cc (fo, fr) in ap (λ y. y.rule_type) same ∙ er)

      free :
          (b : ℕ) (s : LeadRoutingRule)
          → find rule_id b rules ≡ some s
          → stands s ≡ true
          → s.rule_type ≡ t
          → s.priority ≢ f n
      free b s fb sb e p = elim (g b s (fb, sb, e)) [
        | inl o ↦ apart n s.priority o p
        | inr (k, l, q) ↦ (let same = inj k n (sym q ∙ p) in omega (arith, same, l))
      ]

  pub partly-IsSlotted :
      (n : ℕ) (ids : List ℕ) (rules : Rules)
      → Held t ids rules
      → Given n rules
      → IsSlotted rules
      → IsSlotted (partly written f n ids rules)
  partly-IsSlotted n [] rules h g v = v
  partly-IsSlotted n (i ∷ is) rules h g v = elim (Bool-cases (written i)) [
    | inl e ↦ rw e (
        partly-IsSlotted (suc n) is (moved i (f n) t rules) (Held-moved i (f n) t is rules h.1)
          (Given-moved n i rules g) (give-IsSlotted n i rules h.0 g v))
    | inr e ↦ rw e (partly-IsSlotted (suc n) is rules h.1 (Given-later n rules g) v)
  ]
