-- ===== src/Watchers.antt =====
-- Who watches a record: add_watcher and remove_watcher of api/services/watchers_service.py, over the
-- table equipment_record_watchers, whose primary key is the pair of a record and a user.
pub mod Additions
use templehe_consign.Store.{
  User, EquipmentRecord, StatusEvent, Watcher, NotificationPreference, CalendarEvent, AuditLog, Db,
  HttpError, http, user_id, record_id, event_id, preference_user, find_user, find_record, or_text,
  given, Texts, Via, by_email, by_sms, via_name, send,
}
use templehe_consign.Jobs.{
  NotificationJob, Jobs, JobKey, Message, Payload, no_payload, find_job, job_key, job_id, enqueue,
  is_channel, JobStatus, pending,
}
use templehe_consign.Status.{
  Status, value, new_request, appraiser_assigned, appraisal_scheduled, appraisal_complete,
  offer_ready, approved_pending_esign, esigned_pending_publish, listed, sold, declined, withdrawn,
  display_name, notifies_customer, notifies_sales_rep, is_terminal, is_forbidden_transition,
}
use templehe_consign.Table.{
  find, remove, update, insert_row, IsUnique, IsKeyed, find_key, find-remove_self, find-remove_ne,
  remove_absent, find-update_self, find-update_ne, find-update-none, update_absent,
  find-remove-none, remove-IsUnique, update-IsUnique, found_by_id, find-remove_by_none,
  remove_by-IsUnique, find-remove_by_id, find-remove_by_id_ne, insert_row_inv, insert_row-IsKeyed,
  find-update_by_none, update_by-IsUnique, find-update_by_id, find-update_by_id_ne, insert_row_free,
  insert_row_taken, find-cons_self, find-cons_ne,
}
use templehe_consign.Base.Result.{
  Result, ok, err, ◌>>=◌, ◌>>◌, require, or_raise, Result-cases, >>=-eq-ok,
}
use templehe_consign.Base.{
  ℕ, zero, suc, ◌+◌, ◌-◌, ◌*◌, ◌/◌, ◌%◌, ◌≤◌, ◌<◌, min, String, ◌≡◌, refl, sym, ap, subst, ◌∙◌, ◌≢◌,
  ◌↔◌, ◌⊎◌, inl, inr, Bool, true, false, not, ◌&&◌, ◌||◌, Option, none, some, List, [], ◌∷◌, ◌++◌,
  map, arith, ltb, leb, if◌then◌else◌, Eq, ◌==◌, nat_eq, string_eq, pair_eq, eq_refl, eq→≡, ≡→eq,
  ne→neq, Bool-cases, Option-cases, is_some, length, length-append, select, All, All-append, ltb→lt,
  leb→le, eq-cases, ids_eq, get_or, sort_by, All-sort_by, All-sort_by_inv, strip,
}

abbrev pub watcher_key : Watcher → ℕ × ℕ
watcher_key w = (w.record_id, w.user_id)

abbrev pub find_watcher : ℕ → ℕ → Db → Option Watcher
find_watcher rid uid db = find watcher_key (rid, uid) db.watchers

-- WHERE id = … AND deleted_at IS NULL
abbrev pub live_record : ℕ → Db → Option EquipmentRecord
live_record rid db = elim (find_record rid db) [
  | none ↦ none
  | some r ↦ if is_some r.deleted_at then none else some r
]

-- INSERT … ON CONFLICT DO NOTHING, and the row that the second query finds.
unfoldable pub add_row : ℕ → ℕ → Option ℕ → Db → Watcher × Db
add_row rid uid added_by db = elim (find_watcher rid uid db) [
  | some old ↦ (old, db)
  | none ↦
      let w : Watcher = record { record_id = rid; user_id = uid; added_by = added_by } in
      (w, record db { watchers = w ∷ db.watchers })
]

unfoldable pub add_watcher : ℕ → ℕ → Option ℕ → Db → Result HttpError (Watcher × Db)
add_watcher rid uid added_by db = do
  require (is_some (live_record rid db)) (http 404)
  u ← or_raise (find_user uid db) (http 422)
  require (u.status == "active") (http 422)
  ok (add_row rid uid added_by db)

unfoldable pub remove_watcher : ℕ → ℕ → Db → Bool × Db
remove_watcher rid uid db = elim (find_watcher rid uid db) [
  | none ↦ (false, db)
  | some row ↦ (true, record db { watchers = remove watcher_key (watcher_key row) db.watchers })
]
