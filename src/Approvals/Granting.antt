-- ===== src/Approvals/Granting.antt =====
-- approve of api/services/approval_service.py.
use templehe_consign.Store.{EquipmentRecord, Db, HttpError, find_record, given, Texts}
use templehe_consign.Status.{approved_pending_esign}
use templehe_consign.Table.{update}
use templehe_consign.Base.Result.{Result, ok, err, ◌>>=◌, ◌>>◌, require, or_raise}
use templehe_consign.Base.{
  ℕ, String, Bool, not, ◌||◌, Option, none, some, ◌==◌, nat_eq, string_eq, pair_eq, ids_eq, strip,
  int_eq,
}
use Prim.Native.String.{◌++◌ as join}
use templehe_consign.Transition.{record_transition}
use templehe_consign.Requests.{AppraisalSubmission, Tables}
use templehe_consign.Approvals.{
  ApprovalError, lookup_error, value_error, lift, submission_id, find_submission, log,
  resolve_actor_role,
}
use templehe_consign.Approvals.Contracts.{Contracts, dispatch_contract}

-- The decision of a manager.
pub record Offer : Type 0 where
  pub purchase_offer : ℕ
  pub consignment_price : ℕ
  pub notes : Option String
  pub title_review_confirmed : Bool

abbrev pub reviewed : Option String → Option String → Option String
reviewed none prior = prior
reviewed (some notes) prior = elim (given prior) [
  | none ↦ some notes
  | some p ↦ some (strip (join p (join "\n" notes)))
]

abbrev pub granted : Offer → ℕ → ℕ → AppraisalSubmission → AppraisalSubmission
granted o clock user s = record s {
  approved_purchase_offer = some o.purchase_offer;
  suggested_consignment_price = some o.consignment_price;
  review_notes = reviewed (given o.notes) s.review_notes;
  approved_by_id = some user;
  approved_at = some clock;
  status = "approved";
}

-- An exception of the dispatch is logged and no more.
abbrev pub best_effort : Contracts → Db → Result HttpError (Contracts × Db) → Contracts × Db
best_effort cs db (ok (cs', db')) = (cs', db')
best_effort cs db (err e) = (cs, db)

abbrev pub dispatched : EquipmentRecord → Option String → Tables → Contracts → Tables × Contracts
dispatched r envelope t cs =
    let after = best_effort cs t.db (dispatch_contract r envelope t.submissions cs t.db) in
    (record t { db = after.1 }, after.0)

unfoldable pub approve :
    Texts
    → Option String
    → ℕ
    → ℕ
    → ℕ
    → Offer
    → Tables
    → Contracts
    → Result ApprovalError (Tables × Contracts)
approve x envelope clock i user o t cs = do
  s ← or_raise (find_submission i t) lookup_error
  require (s.status == "submitted") value_error
  require (not s.hold_for_title_review || o.title_review_confirmed) value_error
  r ← or_raise (find_record s.equipment_record_id t.db) lookup_error
  db ← lift (record_transition x r approved_pending_esign (some user) none none none t.db)
  ok (
      dispatched (record r { status = approved_pending_esign }) envelope
        (record t {
          db =
              log "appraisal_submission.approved" user (resolve_actor_role user t)
                "appraisal_submission" s.id db;
          submissions = update submission_id i (granted o clock user) t.submissions;
        })
        cs)
