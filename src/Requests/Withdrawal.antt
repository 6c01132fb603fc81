-- ===== src/Requests/Withdrawal.antt =====
-- What a resolution does to the record and to the customer: resolve_change_request of
-- api/services/change_request_service.py with record_transition under it.
use templehe_consign.Requests.Single.{cleared, pending_found, IsSingle, update-IsSingle}
use templehe_consign.Requests.Submitting.{is_pending_for}
use templehe_consign.Base.{
  ℕ, String, ◌≡◌, refl, sym, ap, subst, ◌∙◌, ◌≢◌, Bool, true, false, Option, none, some, arith,
  nat_eq, string_eq, pair_eq, any_item, ids_eq, int_eq,
}
use templehe_consign.Table.{find, update, find_key}
use templehe_consign.Store.Growth.{Grows-refl, Grows, Grows-trans, Sends, send-Sends, send_present}
use templehe_consign.Requests.Effects.{found_settled, not_pending, resolve_inv, remark}
use templehe_consign.Requests.Resolving.{
  tell_resolution, settled, withdraw, withdraws, resolve_change_request, resolution_key,
}
use templehe_consign.Store.{User, EquipmentRecord, Db, record_id, find_record, Texts}
use templehe_consign.Requests.{Tables, change_id, ChangeRequest}
use templehe_consign.Jobs.{find_job}
use templehe_consign.Status.{withdrawn}
use templehe_consign.Base.Result.{ok}
use templehe_consign.Transition.Outcome.{record_transition_effect}

module _ (x : Texts) (r : EquipmentRecord) (resolver : ℕ) (notes : Option String) (db : Db) where
  withdrawn_record :
      {db' : Db}
      → find_record r.id db ≡ some r
      → withdraw x true r resolver notes db ≡ ok db'
      → (find_record r.id db' ≡ some (record r { status = withdrawn })) × Grows db.jobs db'.jobs
  withdrawn_record f h =
      let (a, _, _, _, _, g) =
        record_transition_effect x r withdrawn (some resolver) _ r.customer_user none db f h in
      (a, g)

  kept_record : {db' : Db} → withdraw x false r resolver notes db ≡ ok db' → db ≡ db'
  kept_record h = ground arith

module _ (x : Texts) (clean : String → String) (clock change : ℕ) (resolver : User)
    (role new_status : String) (notes : Option String) where
  told :
      (customer : User) (r : EquipmentRecord) (c : ChangeRequest) (said : Option String) (db : Db)
      → Sends db (tell_resolution x customer r c new_status said db)
        × (find_job
              (resolution_key c.id new_status)
              (tell_resolution x customer r c new_status said db).jobs
            ≢ none)
  unfolding tell_resolution
  told customer r c said db = (send-Sends _ _ _ _ _ db, send_present _ _ _ _ _ db)

  -- The database between the transition and the end of the call.
  reached :
      (c : ChangeRequest) (r : EquipmentRecord) (t : Tables) {db : Db}
      → find_record r.id t.db ≡ some r
      → withdraw x
          (withdraws new_status c)
          r
          resolver.id
          (remark x clean clock change resolver role new_status notes)
          t.db
        ≡ ok db
      → (withdraws new_status c ≡ true
          → find_record r.id db ≡ some (record r { status = withdrawn }))
        × (withdraws new_status c ≡ false → db.records ≡ t.db.records)
        × Grows t.db.jobs db.jobs
  reached c r t {db} f h = go (withdraws new_status c) refl h
    where
      go :
          (b : Bool)
          → withdraws new_status c ≡ b
          → withdraw x b r resolver.id
              (remark x clean clock change resolver role new_status notes)
              t.db
            ≡ ok db
          → (withdraws new_status c ≡ true
              → find_record r.id db ≡ some (record r { status = withdrawn }))
            × (withdraws new_status c ≡ false → db.records ≡ t.db.records)
            × Grows t.db.jobs db.jobs
      go true e k =
          let (a, g) =
            withdrawn_record x r resolver.id
              (remark x clean clock change resolver role new_status notes) t.db f k in
          (λ _. a, (λ n. absurd (cc (e, n))), g)
      go false e k =
          let same =
            kept_record x r resolver.id (remark x clean clock change resolver role new_status notes)
              t.db k in
          (
            (λ n. absurd (cc (e, n))),
            λ _. ap (λ d. d.records) (sym same),
            subst (λ d. Grows t.db.jobs d.jobs) same (Grows-refl t.db.jobs),
          )

  -- A resolution that returns was of a request of the table that was pending, which has the new
  -- status now; the record is withdrawn if the request was to withdraw it and has been granted, and
  -- no record has changed if not; the mail to the customer about this request and its new status is
  -- in the queue, which has only grown.
  pub resolve_change_request_lem :
      (t : Tables) {t' : Tables}
      → resolve_change_request x clean clock change resolver role new_status notes t ≡ ok t'
      → (c : ChangeRequest) × (find change_id change t.changes ≡ some c)
        × (c.status ≡ "pending")
        × ((d : ChangeRequest) × (find change_id change t'.changes ≡ some d)
            × (d.status ≡ new_status))
        × ((r : EquipmentRecord) × (find_record c.equipment_record_id t.db ≡ some r)
            × (withdraws new_status c ≡ true
                → find_record r.id t'.db ≡ some (record r { status = withdrawn }))
            × (withdraws new_status c ≡ false → t'.db.records ≡ t.db.records))
        × (find_job (resolution_key c.id new_status) t'.db.jobs ≢ none)
        × Grows t.db.jobs t'.db.jobs
  resolve_change_request_lem t {t'} h =
      let (v, (c, f, p, (r, g, (db, w, (customer, k, e))))) =
        resolve_inv x clean clock change resolver role new_status notes t h in
      let said = remark x clean clock change resolver role new_status notes in
      let there =
        subst (λ i. find_record i t.db ≡ some r)
          (sym (find_key record_id c.equipment_record_id t.db.records g)) g in
      let (a, b, grown) = reached c r t there w in
      let (sent, mailed) = told customer r c said db in
      let after = tell_resolution x customer r c new_status said db in
      (
        c,
        f,
        p,
        (
          settled new_status said clock resolver.id c,
          ap (λ s. find change_id change s.changes) e
              ∙ found_settled x clean clock change resolver role new_status notes t r customer db f,
          refl,
        ),
        (
          r,
          g,
          λ n. ap (λ s. find_record r.id s.db) e ∙ ap (find record_id r.id) sent.same_records ∙ a n,
          λ n. ap (λ s. s.db.records) e ∙ sent.same_records ∙ b n,
        ),
        (λ q. mailed (ap (λ s. find_job (resolution_key c.id new_status) s.db.jobs) (sym e) ∙ q)),
        subst (λ s. Grows t.db.jobs s.db.jobs) (sym e)
            (Grows-trans t.db.jobs db.jobs after.jobs grown sent.grown),
      )

  -- A resolution that returns, if each record had at most one pending request before, leaves the
  -- record of the request with none, so that the customer may submit another one, and every record
  -- with at most one.
  pub resolve_change_request-IsSingle :
      (t : Tables) {t' : Tables}
      → IsSingle t.changes
      → resolve_change_request x clean clock change resolver role new_status notes t ≡ ok t'
      → (c : ChangeRequest) × (find change_id change t.changes ≡ some c)
        × (any_item (is_pending_for c.equipment_record_id) t.changes ≡ true)
        × (any_item (is_pending_for c.equipment_record_id) t'.changes ≡ false)
        × IsSingle t'.changes
  resolve_change_request-IsSingle t {t'} v h =
      let (q, (c, f, p, (r, g, (db, w, (customer, k, e))))) =
        resolve_inv x clean clock change resolver role new_status notes t h in
      let said = remark x clean clock change resolver role new_status notes in
      let set = settled new_status said clock resolver.id in
      let ends : new_status ≢ "pending" =
        not_pending x clean clock change resolver role new_status notes q in
      let keyed : c.id ≡ change = find_key change_id change t.changes f in
      (
        c,
        f,
        pending_found change t.changes f p,
        subst (λ s. any_item (is_pending_for c.equipment_record_id) s.changes ≡ false) (sym e)
            (subst
              (λ i.
                any_item (is_pending_for c.equipment_record_id) (update change_id i set t.changes)
                ≡ false)
              (sym keyed) (cleared change set (λ y. ends) t.changes v f p)),
        subst (λ s. IsSingle s.changes) (sym e)
            (update-IsSingle c.id set (λ y. refl) (λ y n. absurd (ends n)) t.changes v),
      )
