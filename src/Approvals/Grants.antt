-- ===== src/Approvals/Grants.antt =====
-- What an approval and its contract come to: approve of api/services/approval_service.py with
-- dispatch_contract of api/services/esign_service.py.
use templehe_consign.Store.{
  send, by_email, User, EquipmentRecord, Db, HttpError, record_id, find_record, Texts,
}
use templehe_consign.Jobs.{no_payload}
use templehe_consign.Status.{approved_pending_esign}
use templehe_consign.Table.{find, update, find_key, find-update_self, find-cons_self}
use templehe_consign.Base.Result.{Result, ok, ◌>>=◌, require, or_raise, >>=-eq-ok}
use templehe_consign.Base.{
  ℕ, String, ◌≡◌, refl, sym, ap, subst, ◌∙◌, inl, inr, Bool, true, false, not, ◌||◌, Option, none,
  some, List, [], ◌∷◌, arith, ◌==◌, nat_eq, string_eq, pair_eq, eq→≡, Bool-cases, Option-cases,
  select, ids_eq, int_eq,
}
use templehe_consign.Store.Growth.{Grows, Grows-trans, Sends, Sends-refl, send-Sends}
use templehe_consign.Transition.{record_transition}
use templehe_consign.Transition.Outcome.{record_transition_effect}
use templehe_consign.Requests.{AppraisalSubmission, Tables}
use templehe_consign.Requests.Prices.{one_or_none, is_approved_for}
use templehe_consign.Approvals.{
  ApprovalError, lookup_error, value_error, lift, submission_id, find_submission, log,
  resolve_actor_role,
}
use templehe_consign.Approvals.Contracts.{
  ConsignmentContract, Contracts, contract_record, dispatch_contract, send_contract, send_to,
  stands, write_contract, sent, resent,
}
use templehe_consign.Approvals.Granting.{Offer, granted, best_effort, dispatched, approve}
use templehe_consign.Approvals.Rejection.{lift_ok, raised_ok, required_ok, live_found}

module _ (r : EquipmentRecord) (envelope : Option String) where
  -- What is left after a best effort has at most sent mails.
  abbrev Kept : Contracts → Db → Result HttpError (Contracts × Db) → Type 0
  Kept cs db result = Sends db (best_effort cs db result).1

  send_contract-Sends :
      (old : Option ConsignmentContract) (e : Option String) (customer : User) (cs : Contracts)
      (db : Db)
      → Kept cs db (send_contract r old e customer cs db)
  unfolding send_contract
  send_contract-Sends old none customer cs db = Sends-refl db
  send_contract-Sends old (some e) customer cs db = send-Sends _ _ _ _ _ db

  send_to-Sends :
      (old : Option ConsignmentContract) (s : Option AppraisalSubmission) (cs : Contracts) (db : Db)
      → Kept cs db (send_to r old envelope s cs db)
  unfolding send_contract
  send_to-Sends old none cs db = Sends-refl db
  send_to-Sends old (some s) cs db = elim (Option-cases r.customer_user) [
    | inl e ↦ rw e (Sends-refl db)
    | inr (customer, e) ↦ rw e (send_contract-Sends old envelope customer cs db)
  ]

  found-Sends :
      (found : List AppraisalSubmission) (old : Option ConsignmentContract) (cs : Contracts)
      (db : Db)
      → Kept cs db (one_or_none found >>= λ s. send_to r old envelope s cs db)
  found-Sends [] old cs db = Sends-refl db
  found-Sends (s ∷ []) old cs db = send_to-Sends old (some s) cs db
  found-Sends (s ∷ s' ∷ rest) old cs db = Sends-refl db

  dispatch_contract-Sends :
      (submissions : List AppraisalSubmission) (cs : Contracts) (db : Db)
      → Kept cs db (dispatch_contract r envelope submissions cs db)
  unfolding dispatch_contract
  dispatch_contract-Sends submissions cs db =
      elim (Bool-cases (stands (find contract_record r.id cs))) [
        | inl e ↦ rw (e, dispatch_contract) (Sends-refl db)
        | inr e ↦
            rw (e, dispatch_contract)
              (found-Sends (select (is_approved_for r.id) submissions)
                (find contract_record r.id cs) cs db)
      ]

written_stands :
    (rid : ℕ) (envelope : String) (cs : Contracts)
    → stands
        (find contract_record rid (write_contract rid envelope (find contract_record rid cs) cs))
      ≡ true
written_stands rid envelope cs = elim (Option-cases (find contract_record rid cs)) [
  | inl e ↦ rw e (ap stands (find-cons_self contract_record (sent rid envelope) cs))
  | inr (c, e) ↦
      (let there = find-update_self contract_record rid (resent envelope) cs (λ y. refl) e in
        ap (λ o. stands (find contract_record rid (write_contract rid envelope o cs))) e
        ∙ ap stands there)
]

-- A contract is sent once: if a record has one approved appraisal and its customer an account, a
-- dispatch whose envelope the signing service creates leaves a contract with which every further
-- dispatch for the record changes nothing.
pub dispatch_once :
    (r : EquipmentRecord) (envelope : String) (submissions : List AppraisalSubmission)
    (cs : Contracts) (db : Db) {s : AppraisalSubmission} {customer : User}
    → select (is_approved_for r.id) submissions ≡ s ∷ []
    → r.customer_user ≡ some customer
    → (cs' : Contracts) × ((db' : Db) × (dispatch_contract r (some envelope) submissions cs db
          ≡ ok (cs', db'))
        × ((envelope' : Option String) (submissions' : List AppraisalSubmission) (later : Db)
            → dispatch_contract r envelope' submissions' cs' later ≡ ok (cs', later)))
unfolding dispatch_contract send_contract
dispatch_once r envelope submissions cs db {s} {customer} one known =
    elim (Bool-cases (stands (find contract_record r.id cs))) [
      | inl e ↦ (
        cs,
        (
          db,
          rw (e, dispatch_contract) refl,
          λ envelope' submissions' later. rw (e, dispatch_contract) refl,
        ),
      )
      | inr e ↦ (
        write_contract r.id envelope (find contract_record r.id cs) cs,
        (
          send by_email ("esign_dispatch", ([], envelope)) (some customer.id) "customer_esign_ready"
              (record no_payload { to_email = some customer.email }) db,
          rw (e, one, known, dispatch_contract) refl,
          λ envelope' submissions' later.
              rw (written_stands r.id envelope cs, dispatch_contract) refl,
        ),
      )
    ]

module _ (x : Texts) (envelope : Option String) (clock i user : ℕ) (o : Offer) where
  abbrev event : String
  event = "appraisal_submission.approved"

  allowed :
      (hold confirmed : Bool) {u : Unit {0}}
      → ◌≡◌ {A = Result ApprovalError (Unit {0})}
          (require (not hold || confirmed) value_error)
          (ok u)
      → hold ≡ true
      → confirmed ≡ true
  allowed true true h e = refl
  allowed true false h e = absurd (ground arith)
  allowed false confirmed h e = cc

  -- An approval that returns was of an appraisal that had been submitted, and was confirmed if the
  -- title was on hold; the appraisal is approved now, with the two prices of the offer, and its record
  -- waits for the signature, whatever comes of the contract; the queue has only grown.
  pub approve_lem :
      (t : Tables) (cs : Contracts) {t' : Tables} {cs' : Contracts}
      → approve x envelope clock i user o t cs ≡ ok (t', cs')
      → (s : AppraisalSubmission) × (find submission_id i t.submissions ≡ some s)
        × (s.status ≡ "submitted")
        × (s.hold_for_title_review ≡ true → o.title_review_confirmed ≡ true)
        × ((d : AppraisalSubmission) × (find submission_id i t'.submissions ≡ some d)
            × (d.status ≡ "approved")
            × (d.approved_purchase_offer ≡ some o.purchase_offer)
            × (d.suggested_consignment_price ≡ some o.consignment_price))
        × ((r : EquipmentRecord) × (find_record s.equipment_record_id t.db ≡ some r)
            × (find_record r.id t'.db ≡ some (record r { status = approved_pending_esign })))
        × Grows t.db.jobs t'.db.jobs
  unfolding approve
  approve_lem t cs {t'} {cs'} h =
      let (s, f, h1) = >>=-eq-ok (or_raise (find_submission i t) lookup_error) _ h in
      let (_, p, h2) = >>=-eq-ok (require (s.status == "submitted") value_error) _ h1 in
      let (_, q, h3) =
        >>=-eq-ok (require (not s.hold_for_title_review || o.title_review_confirmed) value_error) _
          h2 in
      let (r, g, h4) =
        >>=-eq-ok (or_raise (find_record s.equipment_record_id t.db) lookup_error) _ h3 in
      let (db, w, h5) =
        >>=-eq-ok
          (lift (record_transition x r approved_pending_esign (some user) none none none t.db)) _
          h4 in
      let found =
        live_found (find submission_id i t.submissions) (raised_ok (find_submission i t) f) in
      let known = raised_ok (find_record s.equipment_record_id t.db) g in
      let there =
        subst (λ k. find_record k t.db ≡ some r)
          (sym (find_key record_id s.equipment_record_id t.db.records known)) known in
      let (a, _, _, _, _, grown) =
        record_transition_effect x r approved_pending_esign (some user) none none none t.db there (
          lift_ok (record_transition x r approved_pending_esign (some user) none none none t.db)
            w) in
      let logged = log event user (resolve_actor_role user t) "appraisal_submission" s.id db in
      let mid : Tables = record t {
        db = logged;
        submissions = update submission_id i (granted o clock user) t.submissions;
      } in
      let moved : EquipmentRecord = record r { status = approved_pending_esign } in
      let e : dispatched moved envelope mid cs ≡ (t', cs') = ended h5 in
      let mails = dispatch_contract-Sends moved envelope mid.submissions cs logged in
      let after = (dispatched moved envelope mid cs).0 in
      (
        s,
        found,
        eq→≡ s.status "submitted" (required_ok (s.status == "submitted") p),
        allowed s.hold_for_title_review o.title_review_confirmed q,
        (
          granted o clock user s,
          ap (λ u. find submission_id i u.0.submissions) (sym e)
              ∙ find-update_self submission_id i (granted o clock user) t.submissions (λ y. refl)
                  found,
          refl,
          refl,
          refl,
        ),
        (
          r,
          known,
          ap (λ u. find_record r.id u.0.db) (sym e)
              ∙ ap (find record_id r.id) mails.same_records
              ∙ a,
        ),
        subst (λ u. Grows t.db.jobs u.0.db.jobs) e
            (Grows-trans t.db.jobs db.jobs after.db.jobs grown mails.grown),
      )
    where
      ended :
          {u v : Tables × Contracts}
          → ◌≡◌ {A = Result ApprovalError (Tables × Contracts)} (ok u) (ok v)
          → u ≡ v
      ended h5 = ground arith
