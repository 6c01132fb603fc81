-- ===== src/Tests/RequestRuns.antt =====
-- Change requests at a concrete record: a submission, and its resolution.
use templehe_consign.Base.{
  ℕ, ◌+◌, ◌-◌, ◌*◌, ◌/◌, String, ◌≡◌, refl, ◌≢◌, true, false, Option, none, some, [], ◌∷◌, leb,
  nat_eq, string_eq, pair_eq, any_item, ids_eq, strip, int_eq,
}
use templehe_consign.Requests.Submitting.{
  is_pending_for, notify_sales, submit_change_request, insert_change,
}
use templehe_consign.Status.{
  withdrawn, notifies_customer, notifies_sales_rep, is_forbidden_transition, of_value,
}
use templehe_consign.Transition.{
  fan_out_raises, sales_rep_template_name, apply_status, record_transition,
}
use templehe_consign.Store.Growth.{Grows}
use templehe_consign.Requests.Withdrawal.{
  resolve_change_request_lem, resolve_change_request-IsSingle,
}
use templehe_consign.Requests.Resolving.{withdraws, resolution_key, resolve_change_request}
use templehe_consign.Store.{EquipmentRecord, HttpError, http, find_record, send}
use templehe_consign.Jobs.{find_job}
use templehe_consign.Table.{find}
use templehe_consign.Requests.{ChangeRequest, change_id, Tables}
use templehe_consign.Base.Result.{Result, ok, err}
use templehe_consign.Tests.RecordRuns.{texts, customer, appraiser, truck, start}
use templehe_consign.Requests.Prices.{Percent, evaluate}
use templehe_consign.Requests.Submissions.{submit_change_request_lem, submit_again}
use templehe_consign.Requests.Single.{IsSingle, submit_change_request-IsSingle}
use templehe_consign.Requests.Effects.{resolve_once}

abbrev pub percent : Percent
percent = record {
  Float = ℕ;
  of_price = λ c. c;
  sub = λ a b. (a - b) + (b - a);
  abs = λ a. a;
  div = λ a b. a * 100 / b;
  mul = λ a b. a;
  hundred = 100;
  le = leb;
  threshold = 10;
}

abbrev pub plain : String → String
plain s = s

abbrev pub fresh : Tables
fresh = record {
  db = start;
  changes = [];
  submissions =
      record {
        id = 30;
        equipment_record_id = 7;
        appraiser_id = some 2;
        status = "approved";
        suggested_consignment_price = some 100000;
        rejection_notes = none;
        hold_for_title_review = true;
        approved_purchase_offer = none;
        review_notes = none;
        approved_by_id = none;
        approved_at = none;
        deleted_at = none;
      }
      ∷ [];
  roles = [];
  user_roles = [];
}

abbrev pub tables_of : Tables → Result HttpError Tables → Tables
tables_of t (ok s) = s
tables_of t (err e) = t

abbrev pub submission : ℕ → String → Option ℕ → Tables → Result HttpError Tables
submission id request_type price t =
    submit_change_request texts plain "ops@t.e" percent id customer truck request_type
      (some " please ") price t

abbrev pub asked : Tables
asked = tables_of fresh (submission 50 "update_consignment_price" (some 150000) fresh)

asks : submission 50 "update_consignment_price" (some 150000) fresh ≡ ok asked
unfolding submit_change_request insert_change evaluate
asks = refl

submit_change_request_lem_example :
    (c : ChangeRequest) × (find change_id 50 asked.changes ≡ some c)
    × (c.status ≡ "pending")
    × (c.equipment_record_id ≡ 7)
    × (c.request_type ≡ "update_consignment_price")
    × (c.requires_manager_reapproval ≡ true)
submit_change_request_lem_example =
    submit_change_request_lem percent texts plain "ops@t.e" 50 customer truck
      "update_consignment_price" (some " please ") (some 150000) fresh asks

submit_again_example : submission 51 "withdraw" none asked ≡ err (http 409)
submit_again_example =
    submit_again percent texts plain "ops@t.e" 50 51 customer customer truck
      "update_consignment_price" "withdraw" (some " please ") (some " please ") (some 150000) none
      fresh asks refl

submit_change_request-IsSingle_example : IsSingle asked.changes
submit_change_request-IsSingle_example =
    submit_change_request-IsSingle texts plain "ops@t.e" percent 50 customer truck
      "update_consignment_price" (some " please ") (some 150000) fresh tt asks

-- A request to withdraw the record, which is granted.
abbrev leaving : Tables
leaving = tables_of fresh (submission 60 "withdraw" none fresh)

leaves : submission 60 "withdraw" none fresh ≡ ok leaving
unfolding submit_change_request insert_change evaluate
leaves = refl

abbrev granting : Tables → Result HttpError Tables
granting t = resolve_change_request texts plain 9000 60 appraiser "sales" "resolved" none t

abbrev granted : Tables
granted = tables_of leaving (granting leaving)

grants : granting leaving ≡ ok granted
unfolding resolve_change_request record_transition is_forbidden_transition fan_out_raises
    notifies_customer notifies_sales_rep of_value sales_rep_template_name apply_status
    submit_change_request insert_change evaluate notify_sales strip send
grants = refl

resolve_once_example :
    resolve_change_request texts plain 9500 60 appraiser "sales" "rejected" none granted
    ≡ err (http 409)
resolve_once_example =
    resolve_once texts plain 9000 9500 60 appraiser appraiser "sales" "sales" "resolved" "rejected"
      none none leaving grants refl

resolve_change_request-IsSingle_example :
    (c : ChangeRequest) × (find change_id 60 leaving.changes ≡ some c)
    × (any_item (is_pending_for c.equipment_record_id) leaving.changes ≡ true)
    × (any_item (is_pending_for c.equipment_record_id) granted.changes ≡ false)
    × IsSingle granted.changes
unfolding submit_change_request insert_change evaluate
resolve_change_request-IsSingle_example =
    resolve_change_request-IsSingle texts plain 9000 60 appraiser "sales" "resolved" none leaving
      (tt, tt) grants

resolve_change_request_lem_example :
    (c : ChangeRequest) × (find change_id 60 leaving.changes ≡ some c)
    × (c.status ≡ "pending")
    × ((d : ChangeRequest) × (find change_id 60 granted.changes ≡ some d) × (d.status ≡ "resolved"))
    × ((r : EquipmentRecord) × (find_record c.equipment_record_id leaving.db ≡ some r)
        × (withdraws "resolved" c ≡ true
            → find_record r.id granted.db ≡ some (record r { status = withdrawn }))
        × (withdraws "resolved" c ≡ false → granted.db.records ≡ leaving.db.records))
    × (find_job (resolution_key c.id "resolved") granted.db.jobs ≢ none)
    × Grows leaving.db.jobs granted.db.jobs
resolve_change_request_lem_example =
    resolve_change_request_lem texts plain 9000 60 appraiser "sales" "resolved" none leaving grants
