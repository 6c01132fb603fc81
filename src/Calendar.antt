-- ===== src/Calendar.antt =====
-- Appraisal appointments, api/services/calendar_service.py: the search for conflicts, and the
-- operations in the child Actions. Instants are microseconds. The drive times that
-- google_maps_service.py finds, and the fallback minutes of the app configuration, are parameters.
-- A call is modelled with no other at work: FOR UPDATE locks the events that the search finds, but
-- not one that a concurrent call is about to insert, so nothing is said of two calls at once.
pub mod Actions
pub mod Conflicts
pub mod Clear
pub mod Bookings
pub mod Moves
pub mod Cancelling
use templehe_consign.Store.{
  User, EquipmentRecord, StatusEvent, Watcher, NotificationPreference, CalendarEvent, AuditLog, Db,
  HttpError, http, user_id, record_id, event_id, preference_user, find_user, find_record, or_text,
  given, Texts, Via, by_email, by_sms, via_name, send,
}
use templehe_consign.Jobs.{
  NotificationJob, Jobs, JobKey, Message, Payload, no_payload, find_job, job_key, job_id, enqueue,
  is_channel, JobStatus, pending,
}
use templehe_consign.Status.{
  Status, value, new_request, appraiser_assigned, appraisal_scheduled, appraisal_complete,
  offer_ready, approved_pending_esign, esigned_pending_publish, listed, sold, declined, withdrawn,
  display_name, notifies_customer, notifies_sales_rep, is_terminal, is_forbidden_transition,
}
use templehe_consign.Table.{
  find, remove, update, insert_row, IsUnique, IsKeyed, find_key, find-remove_self, find-remove_ne,
  remove_absent, find-update_self, find-update_ne, find-update-none, update_absent,
  find-remove-none, remove-IsUnique, update-IsUnique, found_by_id, find-remove_by_none,
  remove_by-IsUnique, find-remove_by_id, find-remove_by_id_ne, insert_row_inv, insert_row-IsKeyed,
  find-update_by_none, update_by-IsUnique, find-update_by_id, find-update_by_id_ne, insert_row_free,
  insert_row_taken, find-cons_self, find-cons_ne, find-map-none, find-map-some, map-IsUnique,
  All-find, All-update,
}
use templehe_consign.Base.Result.{
  Result, ok, err, ◌>>=◌, ◌>>◌, require, or_raise, Result-cases, >>=-eq-ok,
}
use templehe_consign.Base.{
  ℕ, zero, suc, ◌+◌, ◌-◌, ◌*◌, ◌/◌, ◌%◌, ◌≤◌, ◌<◌, min, String, ◌≡◌, refl, sym, ap, subst, ◌∙◌, ◌≢◌,
  ◌↔◌, ◌⊎◌, inl, inr, Bool, true, false, not, ◌&&◌, ◌||◌, Option, none, some, List, [], ◌∷◌, ◌++◌,
  map, arith, ltb, leb, if◌then◌else◌, Eq, ◌==◌, nat_eq, string_eq, pair_eq, eq_refl, eq→≡, ≡→eq,
  ne→neq, Bool-cases, Option-cases, is_some, length, length-append, select, All, All-append,
  All-map, any_item, ltb→lt, leb→le, eq-cases, ids_eq, get_or, sort_by, All-sort_by,
  All-sort_by_inv, sort_with, All-sort_with, All-sort_with_inv, strip, ℤ, pos, negsuc, leb_int,
  int_eq,
}

pub record Maps : Type 0 where
  pub drive_seconds : String → String → Option ℕ
  pub fallback_minutes : ℕ

abbrev pub seconds : ℕ → ℕ
seconds n = n * 1000000

abbrev pub minutes : ℕ → ℕ
minutes n = n * 60000000

abbrev pub day : ℕ
day = 86400000000

-- The three messages.
pub data Clash : Type 0 where
  overlap late_arrival late_departure : Clash

pub record CalendarConflict : Type 0 where
  pub message : Clash
  pub next_available_at : Option ℕ
  pub conflicting_event_id : ℕ

abbrev pub end_of : CalendarEvent → ℕ
end_of e = e.scheduled_at + minutes e.duration_minutes

-- _ranges_overlap
abbrev pub ranges_overlap : ℕ → ℕ → ℕ → ℕ → Bool
ranges_overlap a_start a_end b_start b_end = ltb a_start b_end && ltb b_start a_end

-- _resolve_buffer_seconds, in microseconds.
unfoldable pub resolve_buffer : Maps → Option String → Option String → ℕ
resolve_buffer m origin destination = elim (given origin) [
  | none ↦ seconds (m.fallback_minutes * 60)
  | some o ↦ elim (given destination) [
    | none ↦ seconds (m.fallback_minutes * 60)
    | some d ↦ seconds (get_or (m.drive_seconds o d) (m.fallback_minutes * 60))
  ]
]

abbrev clash_with : CalendarEvent → Clash → Option ℕ → Option CalendarConflict
clash_with e message next =
    some (record { message = message; next_available_at = next; conflicting_event_id = e.id })

-- One round of the loop of _check_conflict. Where the code takes the buffer off the next start, the
-- model adds it to the proposed end.
unfoldable pub check_one : Maps → ℕ → ℕ → Option String → CalendarEvent → Option CalendarConflict
check_one m start finish address e =
    let arrival = end_of e + resolve_buffer m e.site_address address in
    let leaving = finish + resolve_buffer m address e.site_address in
    if ranges_overlap start finish e.scheduled_at (end_of e)
    then clash_with e overlap (some (end_of e))
    else if leb (end_of e) start
    then if ltb start arrival then clash_with e late_arrival (some arrival) else none
    else if leb finish e.scheduled_at
    then if ltb e.scheduled_at leaving then clash_with e late_departure none else none
    else none

unfoldable pub first_conflict :
    Maps → ℕ → ℕ → Option String → List CalendarEvent → Option CalendarConflict
first_conflict m start finish address [] = none
first_conflict m start finish address (e ∷ es) = elim (check_one m start finish address e) [
  | some c ↦ some c
  | none ↦ first_conflict m start finish address es
]

abbrev pub is_ignored : Option ℕ → ℕ → Bool
is_ignored none i = false
is_ignored (some j) i = i == j

-- The WHERE of the search: the appraiser's events that stand, and start within a day of the
-- proposed start.
abbrev pub in_window : ℕ → ℕ → Option ℕ → CalendarEvent → Bool
in_window appraiser start ignore e =
    (e.appraiser_id == appraiser)
    && (not (is_some e.cancelled_at)
        && (leb (start - day) e.scheduled_at
            && (ltb e.scheduled_at (start + day) && not (is_ignored ignore e.id))))

-- _check_conflict
unfoldable pub check_conflict :
    Maps → ℕ → ℕ → ℕ → Option String → Option ℕ → List CalendarEvent → Option CalendarConflict
check_conflict m appraiser start finish address ignore events =
    first_conflict m start finish address
      (sort_by (λ e. e.scheduled_at) (select (in_window appraiser start ignore) events))
