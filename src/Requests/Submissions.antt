-- ===== src/Requests/Submissions.antt =====
-- What a submission of a change request leaves: api/services/change_request_service.py with the price
-- check of api/services/price_change_service.py.
use templehe_consign.Requests.{
  ChangeRequest, AppraisalSubmission, Tables, change_id, is_request_type, sanitize_plain,
}
use templehe_consign.Requests.Prices.{
  Percent, evaluate, flagged, compare_price, comparable, one_or_none, is_approved_for, exceeds,
}
use templehe_consign.Requests.Submitting.{
  is_pending_for, insert_change, new_change, submit_change_request,
}
use templehe_consign.Table.{find, update, find-update_self, find-cons_self}
use templehe_consign.Base.Result.{ok, err, ◌>>=◌, require, >>=-eq-ok}
use templehe_consign.Store.{User, EquipmentRecord, http, Texts}
use templehe_consign.Base.{
  ℕ, String, ◌≡◌, refl, sym, ap, ◌∙◌, inl, inr, Bool, true, false, not, ◌&&◌, Option, none, some,
  List, [], ◌∷◌, arith, if◌then◌else◌, ◌==◌, nat_eq, string_eq, pair_eq, ≡→eq, Bool-cases,
  Option-cases, is_some, select, any_item, ids_eq, int_eq,
}

-- The price check as a test: there is a proposal, one approved appraisal of the record with a price
-- that is not 0, and the change from it is above the threshold.
abbrev pub needs_manager : Percent → ℕ → Option ℕ → List AppraisalSubmission → Bool
needs_manager p rid none submissions = false
needs_manager p rid (some proposed) submissions = elim (select (is_approved_for rid) submissions) [
  | [] ↦ false
  | s ∷ rest ↦ elim s.suggested_consignment_price [
    | none ↦ false
    | some approved ↦ not (approved == 0) && exceeds p approved proposed
  ]
]

pending_flagged :
    (rid i : ℕ) (cs : List ChangeRequest)
    → any_item (is_pending_for rid) (update change_id i flagged cs)
      ≡ any_item (is_pending_for rid) cs
pending_flagged rid i [] = refl
pending_flagged rid i (c ∷ cs) = elim (Bool-cases (i == c.id)) [
  | inl e ↦ rw (e, pending_flagged rid i cs) refl
  | inr e ↦ rw (e, pending_flagged rid i cs) refl
]

module _ (p : Percent) where
  -- The table after a check, by whether a manager is needed.
  abbrev checked : Bool → ChangeRequest → List ChangeRequest → List ChangeRequest
  checked needed c cs = if needed then update change_id c.id flagged cs else cs

  priced :
      (c : ChangeRequest) (proposed : ℕ) (t : Tables) (price : Option ℕ)
      → (compare_price p c proposed
          (elim price [ none ↦ none | some a ↦ if a == 0 then none else some a ])
          t).changes
        ≡ checked
            (elim price [ none ↦ false | some a ↦ not (a == 0) && exceeds p a proposed ])
            c
            t.changes
  priced c proposed t none = refl
  priced c proposed t (some a) = elim (Bool-cases (a == 0)) [
    | inl z ↦ rw z refl
    | inr z ↦ elim (Bool-cases (exceeds p a proposed)) [
      | inl e ↦ rw (z, e) refl
      | inr e ↦ rw (z, e) refl
    ]
  ]

  compared :
      (c : ChangeRequest) (proposed : ℕ) (t : Tables) (found : List AppraisalSubmission)
      (submission : Option AppraisalSubmission)
      → one_or_none found ≡ ok submission
      → (compare_price p c proposed (comparable submission) t).changes
        ≡ checked
            (elim found [
              | [] ↦ false
              | s ∷ rest ↦ elim s.suggested_consignment_price [
                | none ↦ false
                | some approved ↦ not (approved == 0) && exceeds p approved proposed
              ]
            ])
            c
            t.changes
  compared c proposed t [] none h = refl
  compared c proposed t [] (some s) h = absurd (ground arith)
  compared c proposed t (s ∷ []) none h = absurd (ground arith)
  compared c proposed t (s ∷ []) (some s') h =
      let same : s' ≡ s = ground arith in
      ap (λ w. (compare_price p c proposed (comparable (some w)) t).changes) same
      ∙ priced c proposed t s.suggested_consignment_price
  compared c proposed t (s ∷ s' ∷ rest) submission h = absurd (ground arith)

  evaluate_changes :
      (c : ChangeRequest) (t : Tables) {t' : Tables}
      → evaluate p c t ≡ ok t'
      → t'.changes
        ≡ checked
            (needs_manager p c.equipment_record_id c.proposed_consignment_price t.submissions)
            c
            t.changes
  unfolding evaluate
  evaluate_changes c t {t'} h = elim (Option-cases c.proposed_consignment_price) [
    | inl e ↦
        (let q : t' ≡ t = ground arith in
          ap (λ s. s.changes) q
          ∙ ap (λ b. checked b c t.changes)
              (ap (λ o. needs_manager p c.equipment_record_id o t.submissions) (sym e)))
    | inr (proposed, e) ↦
        (let found = select (is_approved_for c.equipment_record_id) t.submissions in
          let (s, k, h1) = >>=-eq-ok (one_or_none found) _ (opened proposed e) in
          let q : t' ≡ compare_price p c proposed (comparable s) t = ground arith in
          ap (λ w. w.changes) q
          ∙ compared c proposed t found s k
          ∙ ap (λ b. checked b c t.changes)
              (ap (λ o. needs_manager p c.equipment_record_id o t.submissions) (sym e)))
  ]
    where
      opened :
          (proposed : ℕ)
          → c.proposed_consignment_price ≡ some proposed
          → (one_or_none (select (is_approved_for c.equipment_record_id) t.submissions)
              >>= λ submission. ok (compare_price p c proposed (comparable submission) t))
            ≡ ok t'
      opened proposed e = ground arith

  -- The table after a submission.
  submitted :
      (x : Texts) (clean : String → String) (ops_email : String) (id : ℕ) (customer : User)
      (r : EquipmentRecord) (request_type : String) (notes : Option String) (price : Option ℕ)
      (t : Tables) {t' : Tables}
      → submit_change_request x clean ops_email p id customer r request_type notes price t ≡ ok t'
      → t'.changes
        ≡ checked
            (needs_manager p r.id price t.submissions)
            (new_change id r.id request_type (sanitize_plain clean notes) price)
            (new_change id r.id request_type (sanitize_plain clean notes) price ∷ t.changes)
  unfolding submit_change_request insert_change
  submitted x clean ops_email id customer r request_type notes price t {t'} h =
      let c = new_change id r.id request_type (sanitize_plain clean notes) price in
      let (_, _, h1) = >>=-eq-ok (require (is_request_type request_type) (http 422)) _ h in
      let (cs, i, h2) = >>=-eq-ok (insert_change c t.changes) _ h1 in
      let (t1, j, h3) = >>=-eq-ok (evaluate p c (record t { changes = cs })) _ h2 in
      let q : t'.changes ≡ t1.changes = ground arith in
      let (_, _, i1) =
        >>=-eq-ok (require (not (is_some (find change_id c.id t.changes))) (http 409)) _ i in
      let (_, _, i2) =
        >>=-eq-ok (require (not (any_item (is_pending_for r.id) t.changes)) (http 409)) _ i1 in
      let new : cs ≡ c ∷ t.changes = ground arith in
      q
      ∙ evaluate_changes c (record t { changes = cs }) j
      ∙ ap (checked (needs_manager p r.id price t.submissions) c) new

  -- The row of a submission that returns is pending, belongs to the record, and requires a manager
  -- exactly if the price check asks for one: there is a proposed price, an approved appraisal of the
  -- record with a price other than 0, and the change from it in percent is above the threshold.
  pub submit_change_request_lem :
      (x : Texts) (clean : String → String) (ops_email : String) (id : ℕ) (customer : User)
      (r : EquipmentRecord) (request_type : String) (notes : Option String) (price : Option ℕ)
      (t : Tables) {t' : Tables}
      → submit_change_request x clean ops_email p id customer r request_type notes price t ≡ ok t'
      → (c : ChangeRequest) × (find change_id id t'.changes ≡ some c)
        × (c.status ≡ "pending")
        × (c.equipment_record_id ≡ r.id)
        × (c.request_type ≡ request_type)
        × (c.requires_manager_reapproval ≡ needs_manager p r.id price t.submissions)
  submit_change_request_lem x clean ops_email id customer r request_type notes price t {t'} h =
      go (needs_manager p r.id price t.submissions)
        (submitted x clean ops_email id customer r request_type notes price t h)
    where
      c : ChangeRequest
      c = new_change id r.id request_type (sanitize_plain clean notes) price

      go :
          (b : Bool)
          → t'.changes ≡ checked b c (c ∷ t.changes)
          → (d : ChangeRequest) × (find change_id id t'.changes ≡ some d)
            × (d.status ≡ "pending")
            × (d.equipment_record_id ≡ r.id)
            × (d.request_type ≡ request_type)
            × (d.requires_manager_reapproval ≡ b)
      go true e = (
        flagged c,
        ap (find change_id id) e
            ∙ find-update_self change_id id flagged (c ∷ t.changes) (λ y. refl)
                (find-cons_self change_id c t.changes),
        refl,
        refl,
        refl,
        refl,
      )
      go false e = (
        c,
        ap (find change_id id) e ∙ find-cons_self change_id c t.changes,
        refl,
        refl,
        refl,
        refl,
      )

  -- Directly after a submission that returns, every further one for the same record, of a known type,
  -- raises 409.
  pub submit_again :
      (x : Texts) (clean : String → String) (ops_email : String) (id id' : ℕ)
      (customer customer' : User) (r : EquipmentRecord) (request_type request_type' : String)
      (notes notes' : Option String) (price price' : Option ℕ) (t : Tables) {t' : Tables}
      → submit_change_request x clean ops_email p id customer r request_type notes price t ≡ ok t'
      → is_request_type request_type' ≡ true
      → submit_change_request x clean ops_email p id' customer' r request_type' notes' price' t'
        ≡ err (http 409)
  unfolding submit_change_request insert_change
  submit_again x clean ops_email id id' customer customer' r request_type request_type' notes notes'
        price price' t {t'} h v =
      let e = submitted x clean ops_email id customer r request_type notes price t h in
      let taken =
        ap (any_item (is_pending_for r.id)) e
        ∙ waiting (needs_manager p r.id price t.submissions) in
      elim (Bool-cases (is_some (find change_id id' t'.changes))) [
        | inl k ↦ rw (v, k) refl
        | inr k ↦ rw (v, k, taken) refl
      ]
    where
      c : ChangeRequest
      c = new_change id r.id request_type (sanitize_plain clean notes) price

      here : any_item (is_pending_for r.id) (c ∷ t.changes) ≡ true
      here = rw (≡→eq r.id r.id refl) refl

      waiting : (b : Bool) → any_item (is_pending_for r.id) (checked b c (c ∷ t.changes)) ≡ true
      waiting true = pending_flagged r.id id (c ∷ t.changes) ∙ here
      waiting false = here
