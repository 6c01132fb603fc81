-- ===== src/Calendar/Bookings.antt =====
-- create_event of api/services/calendar_service.py against the invariant of the calendar.
use templehe_consign.Store.{User, EquipmentRecord, CalendarEvent, Db, HttpError, http, Texts}
use templehe_consign.Status.{Status, value, new_request, appraisal_scheduled}
use templehe_consign.Base.Result.{Result, ok, err, require, >>=-eq-ok}
use templehe_consign.Base.{
  ℕ, suc, ◌≤◌, String, ◌≡◌, refl, ap, ◌∙◌, ◌⊎◌, inl, inr, Bool, false, not, ◌||◌, Option, none,
  some, List, [], ◌∷◌, arith, ◌==◌, nat_eq, string_eq, pair_eq, Bool-cases, Option-cases, All,
  ids_eq,
}
use templehe_consign.Calendar.{Maps, CalendarConflict, end_of, check_conflict}
use templehe_consign.Calendar.Actions.{
  Scheduling, booked, refused, or_number, create_event, book, new_event, site_of, load_record,
  require_appraiser, audit, enqueue_appraiser_email,
}
use templehe_consign.Calendar.Clear.{IsClear, IsShort, clashes, silent_no_clash}
use templehe_consign.Store.Growth.{Sends, Sends-refl, send-Sends}
use templehe_consign.Transition.{apply_status, record_transition}
use templehe_consign.Transition.Outcome.{record_transition_result}
use templehe_consign.Transition.Notices.{fan_out-Sends}

-- A call has left the calendar alone, or has put one event for the slot in front, for which the
-- search was silent.
abbrev pub Extends : Maps → ℕ → ℕ → ℕ → Db → Scheduling → Db → Type 0
Extends m appraiser start duration db s db' =
    (db'.calendar ≡ db.calendar)
    ⊎ ((e : CalendarEvent) × (s ≡ booked e)
        × (e.appraiser_id ≡ appraiser)
        × (e.scheduled_at ≡ start)
        × (e.duration_minutes ≡ duration)
        × (check_conflict m e.appraiser_id e.scheduled_at (end_of e) e.site_address none db.calendar
            ≡ none)
        × (db'.calendar ≡ e ∷ db.calendar))

All-forget :
    (e : CalendarEvent) (es : List CalendarEvent)
    → All (λ f. ◌≡◌ {A = Bool} false false → clashes e f ≡ false) es
    → All (λ f. clashes e f ≡ false) es
All-forget e [] a = tt
All-forget e (f ∷ es) a = (a.0 refl, All-forget e es a.1)

module _ (x : Texts) where
  pub enqueue_appraiser_email-Sends :
      (template words : String) (u : User) (r : EquipmentRecord) (e : CalendarEvent) (db : Db)
      → Sends db (enqueue_appraiser_email x template words u r e db)
  unfolding enqueue_appraiser_email
  enqueue_appraiser_email-Sends template words u r e db =
      elim (Bool-cases ((u.email == "") || not (u.status == "active"))) [
        | inl h ↦ rw h (Sends-refl db)
        | inr h ↦ rw h (send-Sends _ _ _ _ _ db)
      ]

  -- A transition does not touch the calendar.
  transition_calendar :
      (r : EquipmentRecord) (to : Status) (by : Option ℕ) (remark : Option String)
      (customer : Option User) (notify_override : Option Bool) (db : Db) {db' : Db}
      → record_transition x r to by remark customer notify_override db ≡ ok db'
      → db'.calendar ≡ db.calendar
  unfolding apply_status
  transition_calendar r to by remark customer notify_override db h =
      rw (record_transition_result x r to by remark customer notify_override db h)
        (fan_out-Sends x r to remark customer notify_override
          (apply_status x r to by remark db)).same_calendar

  book_calendar :
      (actor : User) (role : String) (r : EquipmentRecord) (u : User) (e : CalendarEvent) (db : Db)
      {s : Scheduling} {db' : Db}
      → book x actor role r u e db ≡ ok (s, db')
      → (s ≡ booked e) × (db'.calendar ≡ e ∷ db.calendar)
  unfolding book
  book_calendar actor role r u e db {s} {db'} h =
      let (d, p, q) =
        >>=-eq-ok
          (record_transition x r appraisal_scheduled (some actor.id) none r.customer_user none
            start)
          rest h in
      let sent =
        enqueue_appraiser_email-Sends "appraisal_scheduled_appraiser" "appraisal_scheduled" u r e
          d in
      let same =
        sent.same_calendar
        ∙ transition_calendar r appraisal_scheduled (some actor.id) none r.customer_user none start
            p in
      (ground arith, cc (same, ap calendar_of q))
    where
      start : Db
      start =
          audit "calendar_event.created" actor role none e
            (record db { calendar = e ∷ db.calendar; drawn = suc db.drawn })

      rest : Db → Result HttpError (Scheduling × Db)
      rest d = ok (
        booked e,
        enqueue_appraiser_email x "appraisal_scheduled_appraiser" "appraisal_scheduled" u r e d,
      )

      calendar_of : Result HttpError (Scheduling × Db) → List CalendarEvent
      calendar_of (ok (_, d)) = d.calendar
      calendar_of (err _) = []

  -- What create_event makes of the calendar: nothing, if it reports a conflict, and otherwise one
  -- more event, for which the search was silent.
  pub create_event_calendar :
      (m : Maps) (actor : User) (role : String) (rid appraiser_id start : ℕ)
      (duration_minutes : Option ℕ) (site : Option String) (db : Db) {s : Scheduling} {db' : Db}
      → create_event x m actor role rid appraiser_id start duration_minutes site db ≡ ok (s, db')
      → Extends m appraiser_id start (or_number duration_minutes 60) db s db'
  unfolding create_event
  create_event_calendar m actor role rid appraiser_id start duration_minutes site db {s} {db'} h =
      let (r, _, h1) = >>=-eq-ok (load_record rid db) _ h in
      let (_, _, h2) = >>=-eq-ok (require (value r.status == value new_request) (http 422)) _ h1 in
      let (u, _, h3) = >>=-eq-ok (require_appraiser appraiser_id db) _ h2 in found r u h3
    where
      event : EquipmentRecord → CalendarEvent
      event r =
          new_event (db.uuids db.drawn) r.id appraiser_id start (or_number duration_minutes 60)
            (site_of site r)

      search : EquipmentRecord → Option CalendarConflict
      search r =
          check_conflict m appraiser_id start (end_of (event r)) (event r).site_address none
            db.calendar

      answer : EquipmentRecord → User → Option CalendarConflict → Result HttpError (Scheduling × Db)
      answer r u c = elim c [
        | some conflict ↦ ok (refused conflict, db)
        | none ↦ book x actor role r u (event r) db
      ]

      found :
          (r : EquipmentRecord) (u : User)
          → answer r u (search r) ≡ ok (s, db')
          → Extends m appraiser_id start (or_number duration_minutes 60) db s db'
      found r u q = elim (Option-cases (search r)) [
        | inr (c, e) ↦ inl (ground arith)
        | inl e ↦
            (let (p, l) =
                book_calendar actor role r u (event r) db {s = s} {db' = db'} (ground arith) in
              inr (event r, p, refl, refl, refl, e, l))
      ]

  -- A call of create_event that returns, with an appointment or with a conflict, keeps the
  -- calendar free of clashes and its appointments no longer than a day, if the new one is no
  -- longer.
  pub create_event-IsClear :
      (m : Maps) (actor : User) (role : String) (rid appraiser_id start : ℕ)
      (duration_minutes : Option ℕ) (site : Option String) (db : Db) {s : Scheduling} {db' : Db}
      → or_number duration_minutes 60 ≤ 1440
      → IsShort db.calendar
      → IsClear db.calendar
      → create_event x m actor role rid appraiser_id start duration_minutes site db ≡ ok (s, db')
      → IsClear db'.calendar × IsShort db'.calendar
  create_event-IsClear m actor role rid appraiser_id start duration_minutes site db {s} {db'} d
        short clear h =
      elim (create_event_calendar m actor role rid appraiser_id start duration_minutes site db h) [
        | inl same ↦ rw same (clear, short)
        | inr (e, _, _, _, dur, silent, added) ↦
            (let sh : e.duration_minutes ≤ 1440 = rw dur d in
              rw added (
                (
                  All-forget e db.calendar (silent_no_clash m e none db.calendar sh short silent),
                  clear,
                ),
                (sh, short),
              ))
      ]
