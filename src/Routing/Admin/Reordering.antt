-- ===== src/Routing/Admin/Reordering.antt =====
-- The whole of reorder_priorities of api/services/lead_routing_service.py: its checks and its two
-- phases.
use templehe_consign.Routing.Admin.{
  partly, stands, is_rule_type, in_bucket, phase, writes, has_id, no_duplicates, includes,
  reorder_priorities,
}
use templehe_consign.Routing.Admin.Flushing.{partly-IsSlotted}
use templehe_consign.Store.{HttpError, http}
use templehe_consign.Table.{find, IsUnique}
use templehe_consign.Base.Result.{Result, ok, err, require, >>=-eq-ok}
use templehe_consign.Base.{
  ℕ, ◌<◌, String, ◌≡◌, refl, sym, ap, subst, ◌∙◌, ◌≢◌, ◌⊎◌, inl, inr, Bool, true, false, ◌&&◌, none,
  List, [], ◌∷◌, map, arith, if◌then◌else◌, ◌==◌, nat_eq, string_eq, pair_eq, eq→≡, ≡→eq, ne→neq,
  Bool-cases, select, All, eq-cases, ids_eq, ℤ, pos, negsuc, int_eq,
}
use templehe_consign.Routing.{LeadRoutingRule, Rules, rule_id}
use templehe_consign.Routing.Admin.Free.{IsSlotted}
use templehe_consign.Routing.Admin.Renumbering.{
  Held, Covered, Numbered, Member, phase-Stage, phase-Held, phase-Covered, phase_frame,
  phase-Numbered,
}

clash : {b : Bool} → b ≡ false → ¬ (b ≡ true)
clash p q = cc

pos-injective : (m n : ℕ) → pos m ≡ pos n → m ≡ n
pos-injective m n h = cc

negsuc-injective : (m n : ℕ) → negsuc m ≡ negsuc n → m ≡ n
negsuc-injective m n h = cc

abbrev Above : ℤ → Type 0
Above p = (k : ℕ) × (p ≡ pos k)

abbrev Below : ℤ → Type 0
Below p = (k : ℕ) × (p ≡ negsuc k)

Above-apart : (n : ℕ) (p : ℤ) → Above p → p ≢ negsuc n
Above-apart n p (k, e) h = cc

Below-apart : (n : ℕ) (p : ℤ) → Below p → p ≢ pos n
Below-apart n p (k, e) h = cc

-- No rule of the bucket has a scratch priority, as the API's schema demands.
abbrev pub IsPlaced : String → Rules → Type 0
IsPlaced t rules =
    (i : ℕ) (r : LeadRoutingRule) → Member t i r rules → (k : ℕ) × (r.priority ≡ pos k)

module _ (t : String) where
  abbrev locked : Rules → List ℕ
  locked rules = map rule_id (select (in_bucket t) rules)

  in_bucket-Member :
      (r : LeadRoutingRule) → stands r ≡ true → r.rule_type ≡ t → in_bucket t r ≡ true
  in_bucket-Member r s e = rw (≡→eq r.rule_type t e, s) refl

  of_bucket : (r : LeadRoutingRule) → in_bucket t r ≡ true → (stands r ≡ true) × (r.rule_type ≡ t)
  of_bucket r h = elim (Bool-cases (r.rule_type == t)) [
    | inl e ↦ (subst (λ b. (b && stands r) ≡ true) e h, eq→≡ r.rule_type t e)
    | inr e ↦ absurd (clash refl (subst (λ b. (b && stands r) ≡ true) e h))
  ]

  locked_above :
      (i : ℕ) (rules : Rules) → find rule_id i rules ≡ none → has_id i (locked rules) ≡ false
  locked_above i [] h = refl
  locked_above i (r ∷ rs) h = elim (eq-cases i r.id) [
    | inl e ↦ absurd (ground arith)
    | inr n ↦
        (let ih = locked_above i rs (let q = ne→neq i r.id n in ground (arith, q)) in
          elim (Bool-cases (in_bucket t r)) [
            | inl b ↦ rw (b, ne→neq i r.id n) ih
            | inr b ↦ rw b ih
          ])
  ]

  -- An id that is locked is that of a row of the bucket.
  locked-Member :
      (i : ℕ) (rules : Rules)
      → IsUnique rule_id rules
      → has_id i (locked rules) ≡ true
      → (r : LeadRoutingRule) × Member t i r rules
  locked-Member i [] u h = cc
  locked-Member i (r ∷ rs) u h = elim (eq-cases i r.id) [
    | inl e ↦ elim (Bool-cases (in_bucket t r)) [
      | inl b ↦ (r, (rw (≡→eq i r.id e) refl, (of_bucket r b).0, (of_bucket r b).1))
      | inr b ↦
          (let gone = locked_above i rs (ap (λ k. find rule_id k rs) e ∙ u.0) in
            absurd (
              clash gone (
                subst
                  (λ c.
                    has_id i (
                      map rule_id
                        (if c then r ∷ select (in_bucket t) rs else select (in_bucket t) rs))
                    ≡ true)
                  b h)))
    ]
    | inr n ↦
        (let (s, (f, st, ty)) = locked-Member i rs u.1 (elim (Bool-cases (in_bucket t r)) [
          | inl b ↦
              subst (λ c. (if c then true else has_id i (locked rs)) ≡ true) (ne→neq i r.id n)
                (subst
                  (λ c.
                    has_id i (
                      map rule_id
                        (if c then r ∷ select (in_bucket t) rs else select (in_bucket t) rs))
                    ≡ true)
                  b h)
          | inr b ↦
              subst
                (λ c.
                  has_id i (
                    map rule_id
                      (if c then r ∷ select (in_bucket t) rs else select (in_bucket t) rs))
                  ≡ true)
                b h
        ]) in
          (s, (rw (ne→neq i r.id n) f, st, ty)))
  ]

  Member-locked :
      (i : ℕ) (rules : Rules) (r : LeadRoutingRule)
      → Member t i r rules
      → has_id i (locked rules) ≡ true
  Member-locked i [] r (f, s, e) = absurd (ground arith)
  Member-locked i (q ∷ rs) r (f, s, e) = elim (eq-cases i q.id) [
    | inl k ↦
        (let same : q ≡ r = (let w = ≡→eq i q.id k in ground (arith, w)) in
          rw (subst (λ y. in_bucket t y ≡ true) (sym same) (in_bucket-Member r s e), ≡→eq i q.id k)
            refl)
    | inr n ↦
        (let ih = Member-locked i rs r ((let w = ne→neq i q.id n in ground (arith, w)), s, e) in
          elim (Bool-cases (in_bucket t q)) [
            | inl b ↦ rw (b, ne→neq i q.id n) ih
            | inr b ↦ rw b ih
          ])
  ]

  Held-includes :
      (ids : List ℕ) (rules : Rules)
      → IsUnique rule_id rules
      → includes (locked rules) ids ≡ true
      → Held t ids rules
  Held-includes [] rules u h = tt
  Held-includes (i ∷ is) rules u h =
      (locked-Member i rules u (ground arith), Held-includes is rules u (ground arith))

  has_id-includes :
      (i : ℕ) (ids js : List ℕ) → includes ids js ≡ true → has_id i js ≡ true → has_id i ids ≡ true
  has_id-includes i ids [] h m = cc
  has_id-includes i ids (j ∷ js) h m = elim (eq-cases i j) [
    | inl e ↦ ground arith
    | inr n ↦ has_id-includes i ids js (ground arith) (ground arith)
  ]

  -- What a call of reorder_priorities that returns has checked and done.
  reordered :
      (i : ℕ) (is : List ℕ) (rules : Rules) {rules' : Rules}
      → reorder_priorities t (i ∷ is) rules ≡ ok rules'
      → (no_duplicates (i ∷ is) ≡ true)
        × (includes (locked rules) (i ∷ is) ≡ true)
        × (includes (i ∷ is) (locked rules) ≡ true)
        × (phase pos 0 (i ∷ is) (phase negsuc 0 (i ∷ is) rules) ≡ rules')
  unfolding reorder_priorities
  reordered i is rules {rules'} h =
      let (_, _, h1) = >>=-eq-ok (require (is_rule_type t) (http 422)) _ h in
      let (_, d, h2) = >>=-eq-ok (require (no_duplicates (i ∷ is)) (http 422)) _ h1 in
      let (_, b, h3) =
        >>=-eq-ok
          (require (includes (locked rules) (i ∷ is) && includes (i ∷ is) (locked rules))
            (http 422))
          (λ _. ok (phase pos 0 (i ∷ is) (phase negsuc 0 (i ∷ is) rules))) h2 in
      let both =
        both_true (includes (locked rules) (i ∷ is)) (includes (i ∷ is) (locked rules))
          (required _ b) in
      (required (no_duplicates (i ∷ is)) d, both.0, both.1, ap (table_of rules) h3)
    where
      table_of : Rules → Result HttpError Rules → Rules
      table_of q (ok r) = r
      table_of q (err e) = q

      required :
          (b : Bool)
          → ◌≡◌ {A = Result HttpError (Unit {0})} (require b (http 422)) (ok tt)
          → b ≡ true
      required true q = refl
      required false q = cc

      both_true : (a b : Bool) → (a && b) ≡ true → (a ≡ true) × (b ≡ true)
      both_true true b q = (refl, q)
      both_true false b q = cc

  -- A call of reorder_priorities that returns, for a list of ids that is not empty, has given the
  -- rules of the list the priorities 0, 1, … in its order, and these are all the rules of the bucket
  -- that stand. No other row has changed, and the slots are unique at the end and whichever of the
  -- rows of a phase are written, so after each write of both phases in the order of the list or any
  -- other, if they were at the start, the ids are unique and no rule had a scratch priority.
  pub reorder_priorities_lem :
      (i : ℕ) (is : List ℕ) (rules : Rules) {rules' : Rules}
      → IsUnique rule_id rules
      → IsSlotted rules
      → IsPlaced t rules
      → reorder_priorities t (i ∷ is) rules ≡ ok rules'
      → Numbered pos 0 (i ∷ is) rules'
        × Covered t (i ∷ is) rules'
        × ((j : ℕ) → has_id j (i ∷ is) ≡ false → find rule_id j rules' ≡ find rule_id j rules)
        × All IsSlotted (writes negsuc 0 (i ∷ is) rules)
        × All IsSlotted (writes pos 0 (i ∷ is) (phase negsuc 0 (i ∷ is) rules))
        × ((written : ℕ → Bool) → IsSlotted (partly written negsuc 0 (i ∷ is) rules))
        × ((written : ℕ → Bool)
            → IsSlotted (partly written pos 0 (i ∷ is) (phase negsuc 0 (i ∷ is) rules)))
        × IsSlotted rules'
  reorder_priorities_lem i is rules {rules'} u v p h =
      let ids = i ∷ is in
      let (d, a, b, e) = reordered i is rules h in
      let held = Held-includes ids rules u a in
      let cover : Covered t ids rules =
        (λ j r m. has_id-includes j ids (locked rules) b (Member-locked j rules r m)) in
      let (w1, v1, s1) =
        phase-Stage t negsuc negsuc-injective Above Above-apart 0 ids rules held
          (λ j r m. inl (cover j r m, p j r m)) v in
      let mid = phase negsuc 0 ids rules in
      let held1 = phase-Held t negsuc 0 ids ids rules held in
      let cover1 = phase-Covered t negsuc 0 ids ids rules cover in
      let (w2, v2, s2) =
        phase-Stage t pos pos-injective Below Below-apart 0 ids mid held1
          (λ j r m. inl (cover1 j r m, below (s1 j r m))) v1 in
      subst
        (λ q.
          Numbered pos 0 ids q
          × Covered t ids q
          × ((j : ℕ) → has_id j ids ≡ false → find rule_id j q ≡ find rule_id j rules)
          × All IsSlotted (writes negsuc 0 ids rules)
          × All IsSlotted (writes pos 0 ids mid)
          × ((written : ℕ → Bool) → IsSlotted (partly written negsuc 0 ids rules))
          × ((written : ℕ → Bool) → IsSlotted (partly written pos 0 ids mid))
          × IsSlotted q)
        e
        (
          phase-Numbered t pos 0 ids mid d held1,
          phase-Covered t pos 0 ids ids mid cover1,
          (λ j m. phase_frame pos 0 ids mid j m ∙ phase_frame negsuc 0 ids rules j m),
          w1,
          w2,
          (λ written.
              partly-IsSlotted t negsuc negsuc-injective Above Above-apart written 0 ids rules held
                (λ j r m. inl (p j r m)) v),
          (λ written.
              partly-IsSlotted t pos pos-injective Below Below-apart written 0 ids mid held1
                (λ j r m. inl (below (s1 j r m))) v1),
          v2,
        )
    where
      below :
          {P : Type 0} {n : ℕ} {q : ℤ}
          → ((false ≡ true) × P) ⊎ ((k : ℕ) × (k < n) × (q ≡ negsuc k))
          → Below q
      below (inl (f, _)) = cc
      below (inr (k, _, e)) = (k, e)
