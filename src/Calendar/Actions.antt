-- ===== src/Calendar/Actions.antt =====
-- create_event, update_event and cancel_event of api/services/calendar_service.py.
use templehe_consign.Store.{
  User, EquipmentRecord, CalendarEvent, Db, HttpError, http, record_id, event_id, find_user,
  find_record, or_text, given, Texts, by_email, send,
}
use templehe_consign.Status.{value, new_request, appraisal_scheduled}
use templehe_consign.Table.{find, update}
use templehe_consign.Base.Result.{Result, ok, ◌>>=◌, ◌>>◌, require, or_raise}
use templehe_consign.Base.{
  ℕ, suc, String, Bool, not, ◌||◌, Option, none, some, List, [], ◌∷◌, if◌then◌else◌, ◌==◌, nat_eq,
  string_eq, pair_eq, is_some, ids_eq, get_or, strip,
}
use templehe_consign.Calendar.{Maps, CalendarConflict, end_of, check_conflict}
use templehe_consign.Transition.{record_transition, email_payload}

-- The service's f-strings are texts of `x` under the name of the job that carries them.
pub data Scheduling : Type 0 where
  booked : CalendarEvent → Scheduling
  refused : CalendarConflict → Scheduling

-- `minutes or default` on a number that may be None.
abbrev pub or_number : Option ℕ → ℕ → ℕ
or_number none d = d
or_number (some n) d = if n == 0 then d else n

abbrev pub load_record : ℕ → Db → Result HttpError EquipmentRecord
load_record i db = or_raise (find_record i db) (http 404)

abbrev pub get_event : ℕ → Db → Result HttpError CalendarEvent
get_event i db = or_raise (find event_id i db.calendar) (http 404)

-- _require_appraiser
unfoldable pub require_appraiser : ℕ → Db → Result HttpError User
require_appraiser i db = do
  u ← or_raise (find_user i db) (http 422)
  require (u.role_slug == "appraiser") (http 422)
  ok u

abbrev pub audit : String → User → String → Option CalendarEvent → CalendarEvent → Db → Db
audit event_type actor actor_role before after db = record db {
  audit =
      record {
        event_type = event_type;
        actor_id = actor.id;
        actor_role = actor_role;
        target_type = "calendar_event";
        target_id = after.id;
        before_state = before;
        after_state = some after;
      }
      ∷ db.audit;
}

-- `(site_address or record.customer_location_text or "").strip() or None`
abbrev pub site_of : Option String → EquipmentRecord → Option String
site_of site r = given (some (strip (or_text site (or_text r.customer_location_text ""))))

-- The arguments of update_event: `some` where one is given.
pub record Change : Type 0 where
  pub to_appraiser : Option ℕ
  pub to_start : Option ℕ
  pub to_duration : Option ℕ
  pub to_address : Option String
  pub set_site_address : Bool

-- The event with the changes made.
abbrev pub changed : Change → CalendarEvent → CalendarEvent
changed c e = record e {
  appraiser_id = get_or c.to_appraiser e.appraiser_id;
  scheduled_at = get_or c.to_start e.scheduled_at;
  duration_minutes = or_number c.to_duration e.duration_minutes;
  site_address = if c.set_site_address then c.to_address else e.site_address;
}

-- Whether the appraiser, the start or the duration changes; the address alone does not count.
abbrev pub schedule_changed : CalendarEvent → CalendarEvent → Bool
schedule_changed new e =
    not (new.appraiser_id == e.appraiser_id)
    || (not (new.scheduled_at == e.scheduled_at)
        || not (new.duration_minutes == e.duration_minutes))

-- The write of update_event with its audit entry.
unfoldable pub save : User → String → CalendarEvent → CalendarEvent → Db → Db
save actor actor_role old new db =
    audit "calendar_event.updated" actor actor_role (some old) new
      (record db { calendar = update event_id old.id (λ _. new) db.calendar })

-- A new appraiser must be one.
abbrev pub check_appraiser : CalendarEvent → CalendarEvent → Db → Result HttpError (Unit {0})
check_appraiser new e db =
    if new.appraiser_id == e.appraiser_id
    then ok tt
    else (require_appraiser new.appraiser_id db >>= λ _. ok tt)

abbrev pub recheck : Maps → CalendarEvent → CalendarEvent → Db → Option CalendarConflict
recheck m new e db =
    if schedule_changed new e
    then check_conflict m new.appraiser_id new.scheduled_at (end_of new) new.site_address
        (some e.id) db.calendar
    else none

unfoldable pub update_event :
    Maps → User → String → ℕ → Change → Db → Result HttpError (Scheduling × Db)
update_event m actor actor_role i c db = do
  e ← get_event i db
  require (not (is_some e.cancelled_at)) (http 409)
  check_appraiser (changed c e) e db
  elim (recheck m (changed c e) e db) [
    | some conflict ↦ ok (refused conflict, db)
    | none ↦ ok (booked (changed c e), save actor actor_role e (changed c e) db)
  ]

abbrev pub new_event : ℕ → ℕ → ℕ → ℕ → ℕ → Option String → CalendarEvent
new_event id r appraiser start duration address = record {
  id = id;
  equipment_record_id = r;
  appraiser_id = appraiser;
  scheduled_at = start;
  duration_minutes = duration;
  site_address = address;
  cancelled_at = none;
}

-- The record goes back to new_request by a plain assignment, without record_transition.
unfoldable pub reopen : EquipmentRecord → Db → Db
reopen r db =
    if value r.status == value appraisal_scheduled
    then record db {
      records = update record_id r.id (λ row. record row { status = new_request }) db.records;
    }
    else db

abbrev pub cancelled : ℕ → CalendarEvent → CalendarEvent
cancelled clock e = record e { cancelled_at = some clock }

-- The event's own write with its audit entry.
unfoldable pub strike : User → String → ℕ → CalendarEvent → Db → Db
strike actor actor_role clock e db =
    audit "calendar_event.cancelled" actor actor_role (some e) (cancelled clock e)
      (record db { calendar = update event_id e.id (λ _. cancelled clock e) db.calendar })

module _ (x : Texts) where
  abbrev appraiser_variables : User → EquipmentRecord → CalendarEvent → List (Option String)
  appraiser_variables appraiser r e =
      some (or_text (some appraiser.first_name) "team")
      ∷ some (or_text r.reference_number (x.show_uuid r.id))
      ∷ some (x.isoformat e.scheduled_at)
      ∷ given e.site_address
      ∷ []

  -- _enqueue_appraiser_email for one of its two kinds, named by the job and the key's first words.
  unfoldable pub enqueue_appraiser_email :
      String → String → User → EquipmentRecord → CalendarEvent → Db → Db
  enqueue_appraiser_email template words appraiser r e db =
      let vars = appraiser_variables appraiser r e in
      let p = email_payload appraiser.email (x.subject template vars) (x.body template vars) in
      if (appraiser.email == "") || not (appraiser.status == "active")
      then db
      else send by_email (words, (e.id ∷ appraiser.id ∷ [], "")) (some appraiser.id) template p db

  unfoldable pub enqueue_customer_cancellation_email :
      User → EquipmentRecord → CalendarEvent → Db → Db
  enqueue_customer_cancellation_email customer r e db =
      let vars = appraiser_variables customer r e in
      let p =
        email_payload customer.email (x.subject "appraisal_cancelled_customer" vars)
          (x.body "appraisal_cancelled_customer" vars) in
      if customer.email == ""
      then db
      else send by_email ("appraisal_cancelled_customer", (e.id ∷ [], "")) (some customer.id)
          "appraisal_cancelled_customer" p db

  -- create_event after its checks.
  unfoldable pub book :
      User
      → String
      → EquipmentRecord
      → User
      → CalendarEvent
      → Db
      → Result HttpError (Scheduling × Db)
  book actor actor_role r appraiser e db = do
    db' ← record_transition x r appraisal_scheduled (some actor.id) none r.customer_user none (
        audit "calendar_event.created" actor actor_role none e
          (record db { calendar = e ∷ db.calendar; drawn = suc db.drawn }))
    ok (
      booked e,
      enqueue_appraiser_email "appraisal_scheduled_appraiser" "appraisal_scheduled" appraiser r e
          db',
    )

  unfoldable pub create_event :
      Maps
      → User
      → String
      → ℕ
      → ℕ
      → ℕ
      → Option ℕ
      → Option String
      → Db
      → Result HttpError (Scheduling × Db)
  create_event m actor actor_role rid appraiser_id start duration_minutes site db = do
    r ← load_record rid db
    require (value r.status == value new_request) (http 422)
    appraiser ← require_appraiser appraiser_id db
    let e =
        new_event (db.uuids db.drawn) r.id appraiser_id start (or_number duration_minutes 60)
          (site_of site r)
    elim (check_conflict m appraiser_id start (end_of e) e.site_address none db.calendar) [
      | some c ↦ ok (refused c, db)
      | none ↦ book actor actor_role r appraiser e db
    ]

  abbrev pub tell_appraiser : Option User → EquipmentRecord → CalendarEvent → Db → Db
  tell_appraiser none r e db = db
  tell_appraiser (some u) r e db =
      enqueue_appraiser_email "appraisal_cancelled_appraiser" "appraisal_cancelled" u r e db

  abbrev pub tell_customer : Option User → EquipmentRecord → CalendarEvent → Db → Db
  tell_customer none r e db = db
  tell_customer (some u) r e db = enqueue_customer_cancellation_email u r e db

  -- cancel_event for an event that stands; `clock` is datetime.now(UTC).
  abbrev pub cancel_standing :
      User → String → ℕ → CalendarEvent → Db → Result HttpError (CalendarEvent × Db)
  cancel_standing actor actor_role clock e db = do
    let struck = strike actor actor_role clock e db
    r ← load_record e.equipment_record_id struck
    let open_again = reopen r struck
    let told = tell_appraiser (find_user e.appraiser_id open_again) r (cancelled clock e) open_again
    ok (cancelled clock e, tell_customer r.customer_user r (cancelled clock e) told)

  unfoldable pub cancel_event : User → String → ℕ → ℕ → Db → Result HttpError (CalendarEvent × Db)
  cancel_event actor actor_role clock i db = do
    e ← get_event i db
    if is_some e.cancelled_at then ok (e, db) else cancel_standing actor actor_role clock e db
