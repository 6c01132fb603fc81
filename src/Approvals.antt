-- ===== src/Approvals.antt =====
-- api/services/approval_service.py over the tables of Requests: reject and approve_price_change here,
-- and approve in Granting.
-- `show_price` writes a Decimal. Of the payload of a mail the worker reads nothing that is given here.
pub mod Rejection
pub mod Price
pub mod Contracts
pub mod Granting
pub mod Grants
use templehe_consign.Store.{
  User, EquipmentRecord, StatusEvent, Watcher, NotificationPreference, CalendarEvent, AuditLog, Db,
  HttpError, http, user_id, record_id, event_id, preference_user, find_user, find_record, or_text,
  given, Texts, Via, by_email, by_sms, via_name, send,
}
use templehe_consign.Jobs.{
  NotificationJob, Jobs, JobKey, Message, Payload, no_payload, find_job, job_key, job_id, enqueue,
  is_channel, JobStatus, pending,
}
use templehe_consign.Status.{
  Status, value, new_request, appraiser_assigned, appraisal_scheduled, appraisal_complete,
  offer_ready, approved_pending_esign, esigned_pending_publish, listed, sold, declined, withdrawn,
  display_name, notifies_customer, notifies_sales_rep, is_terminal, is_forbidden_transition,
}
use templehe_consign.Table.{
  find, remove, update, insert_row, IsUnique, IsKeyed, find_key, find-remove_self, find-remove_ne,
  remove_absent, find-update_self, find-update_ne, find-update-none, update_absent,
  find-remove-none, remove-IsUnique, update-IsUnique, found_by_id, find-remove_by_none,
  remove_by-IsUnique, find-remove_by_id, find-remove_by_id_ne, insert_row_inv, insert_row-IsKeyed,
  find-update_by_none, update_by-IsUnique, find-update_by_id, find-update_by_id_ne, insert_row_free,
  insert_row_taken, find-cons_self, find-cons_ne, find-map-none, find-map-some, map-IsUnique,
  All-find, All-update,
}
use templehe_consign.Base.Result.{
  Result, ok, err, ◌>>=◌, ◌>>◌, require, or_raise, Result-cases, >>=-eq-ok,
}
use templehe_consign.Base.{
  ℕ, zero, suc, ◌+◌, ◌-◌, ◌*◌, ◌/◌, ◌%◌, ◌≤◌, ◌<◌, min, String, ◌≡◌, refl, sym, ap, subst, ◌∙◌, ◌≢◌,
  ◌↔◌, ◌⊎◌, inl, inr, Bool, true, false, not, ◌&&◌, ◌||◌, Option, none, some, List, [], ◌∷◌, ◌++◌,
  map, arith, ltb, leb, if◌then◌else◌, Eq, ◌==◌, nat_eq, string_eq, pair_eq, eq_refl, eq→≡, ≡→eq,
  ne→neq, Bool-cases, Option-cases, is_some, length, length-append, select, All, All-append,
  All-map, any_item, ltb→lt, leb→le, eq-cases, ids_eq, get_or, sort_by, All-sort_by,
  All-sort_by_inv, sort_with, All-sort_with, All-sort_with_inv, strip, ℤ, pos, negsuc, leb_int,
  int_eq,
}
use Prim.Native.String.{◌++◌ as join}
use templehe_consign.Roles.{slugs_of}
use templehe_consign.Transition.{record_transition}
use templehe_consign.Requests.{ChangeRequest, AppraisalSubmission, Tables, change_id}
use templehe_consign.Requests.Prices.{one_or_none}

pub data ApprovalError : Type 0 where
  lookup_error value_error : ApprovalError
  other : HttpError → ApprovalError

-- An HTTPException that passes through.
abbrev pub lift : {A : Type 0} → Result HttpError A → Result ApprovalError A
lift (ok a) = ok a
lift (err e) = err (other e)

abbrev pub submission_id : AppraisalSubmission → ℕ
submission_id s = s.id

-- The row of an id that is not deleted.
abbrev pub live : Option AppraisalSubmission → Option AppraisalSubmission
live none = none
live (some s) = if is_some s.deleted_at then none else some s

abbrev pub find_submission : ℕ → Tables → Option AppraisalSubmission
find_submission i t = live (find submission_id i t.submissions)

-- _resolve_actor_role
abbrev pub role_of : List String → String
role_of slugs =
    if any_item (λ s. s == "admin") slugs
    then "admin"
    else if any_item (λ s. s == "sales_manager") slugs
    then "sales_manager"
    else "unknown"

abbrev pub resolve_actor_role : ℕ → Tables → String
resolve_actor_role user t = role_of (slugs_of t.user_roles user t.roles)

-- An entry without its two states, which are of other forms.
abbrev pub log : String → ℕ → String → String → ℕ → Db → Db
log event_type actor role target_type target db = record db {
  audit =
      record {
        event_type = event_type;
        actor_id = actor;
        actor_role = role;
        target_type = target_type;
        target_id = target;
        before_state = none;
        after_state = none;
      }
      ∷ db.audit;
}

abbrev pub rejected : String → AppraisalSubmission → AppraisalSubmission
rejected notes s = record s { rejection_notes = some notes; status = "rejected" }

abbrev pub next_status : Bool → Status
next_status send_back = if send_back then new_request else declined

abbrev pub appraiser_key : ℕ → JobKey
appraiser_key i = ("rejection-appraiser", (i ∷ [], ""))

abbrev pub rep_key : ℕ → JobKey
rep_key i = ("rejection-sales-rep", (i ∷ [], ""))

unfoldable pub tell : JobKey → String → Option ℕ → Db → Db
tell key template none db = db
tell key template (some user) db = send by_email key (some user) template no_payload db

abbrev pub tell_appraiser : Bool → AppraisalSubmission → Db → Db
tell_appraiser send_back s db =
    if send_back
    then tell (appraiser_key s.id) "appraisal_rejected_appraiser_email" s.appraiser_id db
    else db

abbrev pub tell_rep : EquipmentRecord → AppraisalSubmission → Db → Db
tell_rep r s db =
    tell (rep_key s.id) "appraisal_rejected_sales_rep_email" r.assigned_sales_rep_id db

unfoldable pub reject : Texts → ℕ → ℕ → String → Bool → Tables → Result ApprovalError Tables
reject x i user notes send_back t = do
  s ← or_raise (find_submission i t) lookup_error
  require (s.status == "submitted") value_error
  r ← or_raise (find_record s.equipment_record_id t.db) lookup_error
  db ← lift (record_transition x r (next_status send_back) (some user) (some notes) none none t.db)
  ok (record t {
    db =
        log "appraisal_submission.rejected" user (resolve_actor_role user t) "appraisal_submission"
          s.id (tell_rep r s (tell_appraiser send_back s db));
    submissions = update submission_id i (rejected notes) t.submissions;
  })

-- The approved appraisals of a record.
abbrev pub is_live_approved : ℕ → AppraisalSubmission → Bool
is_live_approved rid s =
    (s.equipment_record_id == rid) && ((s.status == "approved") && not (is_some s.deleted_at))

abbrev pub repriced : Option ℕ → AppraisalSubmission → AppraisalSubmission
repriced none s = s
repriced (some price) s = record s { suggested_consignment_price = some price }

abbrev pub reapproved : (ℕ → String) → ℕ → ℕ → ChangeRequest → ChangeRequest
reapproved show_price clock user c = record c {
  status = "resolved";
  resolved_by = some user;
  resolved_at = some clock;
  requires_manager_reapproval = false;
  resolution_notes = elim c.proposed_consignment_price [
    | none ↦ c.resolution_notes
    | some price ↦ some (join "Manager re-approved price change to $" (show_price price))
  ];
}

-- The write of the price, if there is an approved appraisal.
abbrev pub write_price :
    Option AppraisalSubmission → Option ℕ → List AppraisalSubmission → List AppraisalSubmission
write_price none price submissions = submissions
write_price (some s) price submissions = update submission_id s.id (repriced price) submissions

unfoldable pub approve_price_change :
    (ℕ → String) → ℕ → ℕ → ℕ → Tables → Result ApprovalError Tables
approve_price_change show_price clock i user t = do
  c ← or_raise (find change_id i t.changes) lookup_error
  require (c.status == "pending") value_error
  require c.requires_manager_reapproval value_error
  s ← lift (one_or_none (select (is_live_approved c.equipment_record_id) t.submissions))
  ok (record t {
    db =
        log "change_request.price_reapproved" user (resolve_actor_role user t) "change_request" c.id
          t.db;
    changes = update change_id i (reapproved show_price clock user) t.changes;
    submissions = write_price s c.proposed_consignment_price t.submissions;
  })
