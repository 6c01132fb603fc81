-- ===== src/Requests/Single.antt =====
-- One pending request for a record: api/services/change_request_service.py.
use templehe_consign.Base.{
  ℕ, String, ◌≡◌, refl, sym, subst, ◌∙◌, ◌≢◌, inl, inr, Bool, true, false, not, Option, none, some,
  List, [], ◌∷◌, arith, if◌then◌else◌, ◌==◌, nat_eq, string_eq, pair_eq, eq→≡, ≡→eq, ne→neq,
  Bool-cases, Option-cases, is_some, select, All, All-map, any_item, ids_eq, int_eq,
}
use templehe_consign.Table.{find, update, All-find, All-update}
use templehe_consign.Requests.{ChangeRequest, Tables, change_id, is_request_type, sanitize_plain}
use templehe_consign.Requests.Prices.{
  Percent, evaluate, flagged, compare_price, comparable, one_or_none, is_approved_for, exceeds,
}
use templehe_consign.Requests.Submitting.{
  is_pending_for, insert_change, new_change, submit_change_request,
}
use templehe_consign.Store.{User, EquipmentRecord, HttpError, http, Texts}
use templehe_consign.Base.Result.{Result, ok, ◌>>=◌, require, >>=-eq-ok}

-- A record has at most one pending request, and no two requests share an id: each row is unlike
-- those behind it.
abbrev pub IsApart : ChangeRequest → ChangeRequest → Type 0
IsApart c d =
    c.status ≡ "pending" → d.status ≡ "pending" → c.equipment_record_id ≢ d.equipment_record_id

abbrev pub IsSingle : List ChangeRequest → Type 0
IsSingle [] = Unit
IsSingle (c ∷ cs) = All (IsApart c) cs × IsSingle cs

module _ (i : ℕ) (g : ChangeRequest → ChangeRequest)
    (same : (c : ChangeRequest) → (g c).equipment_record_id ≡ c.equipment_record_id)
    (settles : (c : ChangeRequest) → (g c).status ≡ "pending" → c.status ≡ "pending") where
  left_row : (c d : ChangeRequest) → IsApart c d → IsApart (g c) d
  left_row c d a p q e = a (settles c p) q (sym (same c) ∙ e)

  right_row : (c d : ChangeRequest) → IsApart c d → IsApart c (g d)
  right_row c d a p q e = a p (settles d q) (e ∙ same d)

  -- A change that makes no request pending again.
  pub update-IsSingle : (cs : List ChangeRequest) → IsSingle cs → IsSingle (update change_id i g cs)
  update-IsSingle [] v = tt
  update-IsSingle (c ∷ cs) v = (one (i == c.id), update-IsSingle cs v.1)
    where
      rest : (c' : ChangeRequest) → All (IsApart c') cs → All (IsApart c') (update change_id i g cs)
      rest c' a = All-update change_id (IsApart c') i g cs (right_row c') a

      one : (b : Bool) → All (IsApart (if b then g c else c)) (update change_id i g cs)
      one true = rest (g c) (All-map cs (λ d a. left_row c d a) v.0)
      one false = rest c v.0

none_pending :
    (rid : ℕ) (cs : List ChangeRequest)
    → any_item (is_pending_for rid) cs ≡ false
    → All (λ d. d.status ≡ "pending" → rid ≢ d.equipment_record_id) cs
none_pending rid [] h = tt
none_pending rid (d ∷ ds) h = elim (Bool-cases (is_pending_for rid d)) [
  | inl e ↦ absurd (ground arith)
  | inr e ↦ (
    λ p q. absurd (
        let a = ≡→eq d.equipment_record_id rid (sym q) in
        let b = ≡→eq d.status "pending" p in ground (arith, a, b)),
    none_pending rid ds (ground arith),
  )
]

insert_change-IsSingle :
    (c : ChangeRequest) (cs : List ChangeRequest) {cs' : List ChangeRequest}
    → IsSingle cs
    → insert_change c cs ≡ ok cs'
    → IsSingle cs'
unfolding insert_change
insert_change-IsSingle c cs {cs'} v h =
    let (_, _, h1) = >>=-eq-ok (require (not (is_some (find change_id c.id cs))) (http 409)) _ h in
    let (_, p, h2) =
      >>=-eq-ok (require (not (any_item (is_pending_for c.equipment_record_id) cs)) (http 409)) _
        h1 in
    subst IsSingle (rows h2)
      (All-map cs (λ d k _ q. k q) (none_pending c.equipment_record_id cs (was_free p)), v)
  where
    rows : ◌≡◌ {A = Result HttpError (List ChangeRequest)} (ok (c ∷ cs)) (ok cs') → c ∷ cs ≡ cs'
    rows h2 = ground arith

    was_free :
        {u : Unit {0}}
        → require (not (any_item (is_pending_for c.equipment_record_id) cs)) (http 409) ≡ ok u
        → any_item (is_pending_for c.equipment_record_id) cs ≡ false
    was_free p = ground arith

flagged-IsSingle :
    (i : ℕ) (cs : List ChangeRequest) → IsSingle cs → IsSingle (update change_id i flagged cs)
flagged-IsSingle i cs v = update-IsSingle i flagged (λ c. refl) (λ c e. e) cs v

pub pending_found :
    (i : ℕ) (cs : List ChangeRequest) {c : ChangeRequest}
    → find change_id i cs ≡ some c
    → c.status ≡ "pending"
    → any_item (is_pending_for c.equipment_record_id) cs ≡ true
pending_found i [] f p = absurd (ground arith)
pending_found i (d ∷ cs) {c} f p = elim (Bool-cases (i == d.id)) [
  | inl e ↦ ground (arith, ≡→eq c.status "pending" p)
  | inr e ↦ ground (arith, pending_found i cs {c = c})
]

apart_row :
    (c d : ChangeRequest)
    → c.status ≡ "pending"
    → IsApart c d
    → is_pending_for c.equipment_record_id d ≡ false
apart_row c d p a = elim (Bool-cases (is_pending_for c.equipment_record_id d)) [
  | inl e ↦ absurd (let (q, r) = both e in a p r (sym q))
  | inr e ↦ e
]
  where
    both :
        is_pending_for c.equipment_record_id d ≡ true
        → (d.equipment_record_id ≡ c.equipment_record_id) × (d.status ≡ "pending")
    both e = (ground arith, eq→≡ d.status "pending" (ground arith))

-- A request that is settled leaves its record without a pending one.
module _ (i : ℕ) (g : ChangeRequest → ChangeRequest)
    (resolves : (c : ChangeRequest) → (g c).status ≢ "pending") where
  cleared_row : (rid : ℕ) (c : ChangeRequest) → is_pending_for rid (g c) ≡ false
  cleared_row rid c = ground (arith, ne→neq (g c).status "pending" (resolves c))

  cleared_behind :
      (c : ChangeRequest) (cs : List ChangeRequest)
      → c.status ≡ "pending"
      → All (IsApart c) cs
      → any_item (is_pending_for c.equipment_record_id) (update change_id i g cs) ≡ false
  cleared_behind c [] p a = refl
  cleared_behind c (d ∷ cs) p a = elim (Bool-cases (i == d.id)) [
    | inl e ↦ rw (e, cleared_row c.equipment_record_id d) (cleared_behind c cs p a.1)
    | inr e ↦ rw (e, apart_row c d p a.0) (cleared_behind c cs p a.1)
  ]

  pub cleared :
      (cs : List ChangeRequest) {c : ChangeRequest}
      → IsSingle cs
      → find change_id i cs ≡ some c
      → c.status ≡ "pending"
      → any_item (is_pending_for c.equipment_record_id) (update change_id i g cs) ≡ false
  cleared [] v f p = absurd (ground arith)
  cleared (d ∷ cs) {c} v f p = elim (Bool-cases (i == d.id)) [
    | inl e ↦
        (let same : d ≡ c = ground arith in
          rw (e, cleared_row c.equipment_record_id d)
            (cleared_behind c cs p (subst (λ y. All (IsApart y) cs) same v.0)))
    | inr e ↦
        (let rest : find change_id i cs ≡ some c = ground arith in
          rw
            (e, apart_row c d p (λ a b q. All-find change_id (IsApart d) i cs v.0 rest b a (sym q)))
            (cleared cs v.1 rest p))
  ]

module _ (p : Percent) where
  compare_price-IsSingle :
      (c : ChangeRequest) (proposed : ℕ) (o : Option ℕ) (t : Tables)
      → IsSingle t.changes
      → IsSingle (compare_price p c proposed o t).changes
  compare_price-IsSingle c proposed none t v = v
  compare_price-IsSingle c proposed (some approved) t v =
      elim (Bool-cases (exceeds p approved proposed)) [
        | inl e ↦ rw e (flagged-IsSingle c.id t.changes v)
        | inr e ↦ rw e v
      ]

  evaluate-IsSingle :
      (c : ChangeRequest) (t : Tables) {t' : Tables}
      → IsSingle t.changes
      → evaluate p c t ≡ ok t'
      → IsSingle t'.changes
  unfolding evaluate
  evaluate-IsSingle c t {t'} v h = elim (Option-cases c.proposed_consignment_price) [
    | inl e ↦ (let q : t ≡ t' = ground arith in subst (λ w. IsSingle w.changes) q v)
    | inr (proposed, e) ↦
        (let (s, _, h1) =
            >>=-eq-ok (one_or_none (select (is_approved_for c.equipment_record_id) t.submissions)) _
              (opened proposed e) in
          let q : compare_price p c proposed (comparable s) t ≡ t' = ground arith in
          subst (λ w. IsSingle w.changes) q (compare_price-IsSingle c proposed (comparable s) t v))
  ]
    where
      opened :
          (proposed : ℕ)
          → c.proposed_consignment_price ≡ some proposed
          → (one_or_none (select (is_approved_for c.equipment_record_id) t.submissions)
              >>= λ submission. ok (compare_price p c proposed (comparable submission) t))
            ≡ ok t'
      opened proposed e = ground arith

module _ (x : Texts) (clean : String → String) where
  -- A submission that returns leaves at most one pending request for each record, if there was at
  -- most one before.
  pub submit_change_request-IsSingle :
      (ops_email : String) (p : Percent) (id : ℕ) (customer : User) (r : EquipmentRecord)
      (request_type : String) (notes : Option String) (price : Option ℕ) (t : Tables) {t' : Tables}
      → IsSingle t.changes
      → submit_change_request x clean ops_email p id customer r request_type notes price t ≡ ok t'
      → IsSingle t'.changes
  unfolding submit_change_request
  submit_change_request-IsSingle ops_email p id customer r request_type notes price t {t'} v h =
      let c = new_change id r.id request_type (sanitize_plain clean notes) price in
      let (_, _, h1) = >>=-eq-ok (require (is_request_type request_type) (http 422)) _ h in
      let (cs, i, h2) = >>=-eq-ok (insert_change c t.changes) _ h1 in
      let (t1, j, h3) = >>=-eq-ok (evaluate p c (record t { changes = cs })) _ h2 in
      let q : t1.changes ≡ t'.changes = ground arith in
      subst IsSingle q (
        evaluate-IsSingle p c (record t { changes = cs }) (insert_change-IsSingle c t.changes v i)
          j)
