-- ===== src/Requests.antt =====
-- Change requests of customers, api/services/change_request_service.py and price_change_service.py,
-- over the table change_requests and the tables that they read. `clean` is bleach.clean without tags,
-- as sanitize_plain of api/services/sanitization.py calls it. Prices are cents. The column
-- submitted_at and the log lines are left out.
pub mod Prices
pub mod Submitting
pub mod Resolving
pub mod Single
pub mod Effects
pub mod Withdrawal
pub mod Submissions
use templehe_consign.Store.{
  User, EquipmentRecord, StatusEvent, Watcher, NotificationPreference, CalendarEvent, AuditLog, Db,
  HttpError, http, user_id, record_id, event_id, preference_user, find_user, find_record, or_text,
  given, Texts, Via, by_email, by_sms, via_name, send,
}
use templehe_consign.Jobs.{
  NotificationJob, Jobs, JobKey, Message, Payload, no_payload, find_job, job_key, job_id, enqueue,
  is_channel, JobStatus, pending,
}
use templehe_consign.Status.{
  Status, value, new_request, appraiser_assigned, appraisal_scheduled, appraisal_complete,
  offer_ready, approved_pending_esign, esigned_pending_publish, listed, sold, declined, withdrawn,
  display_name, notifies_customer, notifies_sales_rep, is_terminal, is_forbidden_transition,
}
use templehe_consign.Table.{
  find, remove, update, insert_row, IsUnique, IsKeyed, find_key, find-remove_self, find-remove_ne,
  remove_absent, find-update_self, find-update_ne, find-update-none, update_absent,
  find-remove-none, remove-IsUnique, update-IsUnique, found_by_id, find-remove_by_none,
  remove_by-IsUnique, find-remove_by_id, find-remove_by_id_ne, insert_row_inv, insert_row-IsKeyed,
  find-update_by_none, update_by-IsUnique, find-update_by_id, find-update_by_id_ne, insert_row_free,
  insert_row_taken, find-cons_self, find-cons_ne, find-map-none, find-map-some, map-IsUnique,
  All-find, All-update,
}
use templehe_consign.Base.Result.{
  Result, ok, err, ◌>>=◌, ◌>>◌, require, or_raise, Result-cases, >>=-eq-ok,
}
use templehe_consign.Base.{
  ℕ, zero, suc, ◌+◌, ◌-◌, ◌*◌, ◌/◌, ◌%◌, ◌≤◌, ◌<◌, min, String, ◌≡◌, refl, sym, ap, subst, ◌∙◌, ◌≢◌,
  ◌↔◌, ◌⊎◌, inl, inr, Bool, true, false, not, ◌&&◌, ◌||◌, Option, none, some, List, [], ◌∷◌, ◌++◌,
  map, arith, ltb, leb, if◌then◌else◌, Eq, ◌==◌, nat_eq, string_eq, pair_eq, eq_refl, eq→≡, ≡→eq,
  ne→neq, Bool-cases, Option-cases, is_some, length, length-append, select, All, All-append,
  All-map, any_item, ltb→lt, leb→le, eq-cases, ids_eq, get_or, sort_by, All-sort_by,
  All-sort_by_inv, sort_with, All-sort_with, All-sort_with_inv, strip, ℤ, pos, negsuc, leb_int,
  int_eq,
}
use Prim.Native.Char.{Char, code}
use Prim.Native.String.{◌++◌ as join}
use templehe_consign.Roles.{Role, UserRole}

pub record ChangeRequest : Type 0 where
  pub id : ℕ
  pub equipment_record_id : ℕ
  pub request_type : String
  pub customer_notes : Option String
  pub status : String
  pub resolution_notes : Option String
  pub requires_manager_reapproval : Bool
  pub proposed_consignment_price : Option ℕ
  pub resolved_at : Option ℕ
  pub resolved_by : Option ℕ

-- The columns of an appraisal that the price check and the approvals read or write.
pub record AppraisalSubmission : Type 0 where
  pub id : ℕ
  pub equipment_record_id : ℕ
  pub appraiser_id : Option ℕ
  pub status : String
  pub suggested_consignment_price : Option ℕ
  pub rejection_notes : Option String
  pub hold_for_title_review : Bool
  pub approved_purchase_offer : Option ℕ
  pub review_notes : Option String
  pub approved_by_id : Option ℕ
  pub approved_at : Option ℕ
  pub deleted_at : Option ℕ

pub record Tables : Type 0 where
  pub db : Db
  pub changes : List ChangeRequest
  pub submissions : List AppraisalSubmission
  pub roles : List Role
  pub user_roles : List UserRole

abbrev pub change_id : ChangeRequest → ℕ
change_id c = c.id

-- _ALLOWED_REQUEST_TYPES
abbrev pub is_request_type : String → Bool
is_request_type t =
    (t == "edit_details")
    || (t == "update_location")
    || (t == "update_photos")
    || (t == "update_consignment_price")
    || (t == "withdraw")
    || (t == "other")

abbrev pub concat : List String → String
concat [] = ""
concat (s ∷ ss) = join s (concat ss)

-- `text.replace("\n", by)`
pub replace_newlines : String → String → String
replace_newlines by String.[] = ""
replace_newlines by (String.◌∷◌ c s) =
    let rest = replace_newlines by s in if code c == 10 then join by rest else String.◌∷◌ c rest

-- `text[:n]`
pub clip : ℕ → String → String
clip zero s = ""
clip (suc n) String.[] = ""
clip (suc n) (String.◌∷◌ c s) = String.◌∷◌ c (clip n s)

-- sanitize_plain
abbrev pub sanitize_plain : (String → String) → Option String → Option String
sanitize_plain clean none = none
sanitize_plain clean (some s) = given (some (strip (clean s)))

abbrev pub mail : String → String → String → Payload
mail to subject html = record no_payload {
  to_email = some to;
  subject = some subject;
  html_body = some html;
}

-- `record.reference_number or str(record.id)`
abbrev pub ref_of : Texts → EquipmentRecord → String
ref_of x r = or_text r.reference_number (x.show_uuid r.id)
