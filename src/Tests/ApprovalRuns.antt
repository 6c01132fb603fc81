-- ===== src/Tests/ApprovalRuns.antt =====
-- Approvals at a concrete record: a rejection, and a price that a manager approves.
use templehe_consign.Store.Recipients.{resolve_channel}
use templehe_consign.Status.{
  new_request, appraisal_complete, approved_pending_esign, notifies_customer, notifies_sales_rep,
  is_forbidden_transition, of_value,
}
use templehe_consign.Transition.{
  fan_out_raises, sales_rep_template_name, apply_status, record_transition,
}
use templehe_consign.Approvals.Granting.{Offer, approve}
use templehe_consign.Approvals.Contracts.{Contracts, dispatch_contract}
use templehe_consign.Approvals.Grants.{approve_lem, dispatch_once}
use templehe_consign.Store.{EquipmentRecord, Db, find_record}
use templehe_consign.Base.{
  ℕ, String, ◌≡◌, refl, ◌≢◌, ◌⊎◌, true, false, Option, none, some, List, [], ◌∷◌, nat_eq, string_eq,
  pair_eq, is_some, select, ids_eq, int_eq,
}
use templehe_consign.Jobs.{find_job}
use templehe_consign.Table.{find}
use templehe_consign.Base.Result.{Result, ok, err}
use templehe_consign.Tests.RecordRuns.{texts, truck, start}
use templehe_consign.Tests.RequestRuns.{fresh, asked}
use templehe_consign.Store.Growth.{Grows}
use templehe_consign.Requests.{ChangeRequest, AppraisalSubmission, Tables, change_id}
use templehe_consign.Requests.Prices.{evaluate}
use templehe_consign.Requests.Submitting.{submit_change_request, insert_change}
use templehe_consign.Approvals.{
  ApprovalError, value_error, submission_id, is_live_approved, repriced, rep_key, reject,
  approve_price_change,
}
use templehe_consign.Approvals.Rejection.{reject_lem, reject_once}
use templehe_consign.Approvals.Price.{approve_price_change_lem}

abbrev appraised : AppraisalSubmission
appraised = record {
  id = 30;
  equipment_record_id = 7;
  appraiser_id = some 2;
  status = "submitted";
  suggested_consignment_price = none;
  rejection_notes = none;
  hold_for_title_review = true;
  approved_purchase_offer = none;
  review_notes = none;
  approved_by_id = none;
  approved_at = none;
  deleted_at = none;
}

abbrev waiting : Tables
waiting = record fresh {
  db = record start {
    records = record truck { status = appraisal_complete; assigned_sales_rep_id = some 2 } ∷ [];
  };
  submissions = appraised ∷ [];
}

abbrev tables_of : Tables → Result ApprovalError Tables → Tables
tables_of t (ok s) = s
tables_of t (err e) = t

abbrev sent_back : Tables
sent_back = tables_of waiting (reject texts 30 9 "no photos" true waiting)

sends_back : reject texts 30 9 "no photos" true waiting ≡ ok sent_back
unfolding reject record_transition is_forbidden_transition fan_out_raises notifies_customer
    notifies_sales_rep of_value sales_rep_template_name apply_status
sends_back = refl

reject_lem_example :
    (s : AppraisalSubmission) × (find submission_id 30 waiting.submissions ≡ some s)
    × (s.status ≡ "submitted")
    × ((d : AppraisalSubmission) × (find submission_id 30 sent_back.submissions ≡ some d)
        × (d.status ≡ "rejected")
        × (d.rejection_notes ≡ some "no photos"))
    × ((r : EquipmentRecord) × (find_record s.equipment_record_id waiting.db ≡ some r)
        × (find_record r.id sent_back.db ≡ some (record r { status = new_request }))
        × ((j : ℕ) → j ≢ r.id → find_record j sent_back.db ≡ find_record j waiting.db)
        × (is_some r.assigned_sales_rep_id ≡ true
            → find_job (rep_key s.id) sent_back.db.jobs ≢ none))
    × Grows waiting.db.jobs sent_back.db.jobs
reject_lem_example = reject_lem texts 30 9 "no photos" true waiting sends_back

reject_once_example : reject texts 30 9 "again" false sent_back ≡ err value_error
reject_once_example = reject_once texts 30 9 9 "no photos" "again" true false waiting sends_back

abbrev approved : Tables
approved = tables_of asked (approve_price_change (λ p. "1500.00") 9000 50 9 asked)

approves : approve_price_change (λ p. "1500.00") 9000 50 9 asked ≡ ok approved
unfolding approve_price_change submit_change_request insert_change evaluate
approves = refl

approve_price_change_lem_example :
    (c : ChangeRequest) × (find change_id 50 asked.changes ≡ some c)
    × (c.status ≡ "pending")
    × (c.requires_manager_reapproval ≡ true)
    × ((d : ChangeRequest) × (find change_id 50 approved.changes ≡ some d)
        × (d.status ≡ "resolved")
        × (d.requires_manager_reapproval ≡ false))
    × (((select (is_live_approved c.equipment_record_id) asked.submissions ≡ [])
          × (approved.submissions ≡ asked.submissions))
        ⊎ ((s : AppraisalSubmission) × (select
                (is_live_approved c.equipment_record_id)
                asked.submissions
              ≡ s ∷ [])
            × (find submission_id s.id approved.submissions
                ≡ some (repriced c.proposed_consignment_price s))))
unfolding submit_change_request insert_change evaluate
approve_price_change_lem_example =
    approve_price_change_lem (λ p. "1500.00") 9000 50 9 asked (refl, tt) approves

abbrev offer : Offer
offer = record {
  purchase_offer = 90000;
  consignment_price = 120000;
  notes = some "good";
  title_review_confirmed = true;
}

abbrev bought_of : Result ApprovalError (Tables × Contracts) → Tables × Contracts
bought_of (ok p) = p
bought_of (err e) = (waiting, [])

abbrev bought : Tables × Contracts
bought = bought_of (approve texts (some "e1") 8000 30 9 offer waiting [])

buys : approve texts (some "e1") 8000 30 9 offer waiting [] ≡ ok (bought.0, bought.1)
unfolding approve record_transition is_forbidden_transition fan_out_raises notifies_customer
    notifies_sales_rep of_value sales_rep_template_name apply_status resolve_channel
buys = refl

approve_lem_example :
    (s : AppraisalSubmission) × (find submission_id 30 waiting.submissions ≡ some s)
    × (s.status ≡ "submitted")
    × (s.hold_for_title_review ≡ true → true ≡ true)
    × ((d : AppraisalSubmission) × (find submission_id 30 bought.0.submissions ≡ some d)
        × (d.status ≡ "approved")
        × (d.approved_purchase_offer ≡ some 90000)
        × (d.suggested_consignment_price ≡ some 120000))
    × ((r : EquipmentRecord) × (find_record s.equipment_record_id waiting.db ≡ some r)
        × (find_record r.id bought.0.db ≡ some (record r { status = approved_pending_esign })))
    × Grows waiting.db.jobs bought.0.db.jobs
approve_lem_example = approve_lem texts (some "e1") 8000 30 9 offer waiting [] buys

-- A contract that the customer has declined is sent again, and then no more.
abbrev declined_once : Contracts
declined_once =
    record {
      equipment_record_id = 7;
      envelope_id = some "e0";
      status = "declined";
      signed_at = none;
    }
    ∷ []

dispatch_once_example :
    (cs : Contracts) × ((db : Db) × (dispatch_contract truck
          (some "e1")
          fresh.submissions
          declined_once
          start
        ≡ ok (cs, db))
      × ((envelope : Option String) (submissions : List AppraisalSubmission) (later : Db)
          → dispatch_contract truck envelope submissions cs later ≡ ok (cs, later)))
dispatch_once_example = dispatch_once truck "e1" fresh.submissions declined_once start refl refl
