-- ===== src/Tests/CalendarRuns.antt =====
-- One appointment in the calendar, another that is booked beside it, and its move and cancellation.
use templehe_consign.Transition.{fan_out_raises, apply_status, record_transition}
use templehe_consign.Status.{
  appraisal_scheduled, notifies_customer, notifies_sales_rep, is_forbidden_transition, of_value,
}
use templehe_consign.Store.{CalendarEvent, Db, HttpError, find_record}
use templehe_consign.Base.{
  ℕ, ◌+◌, ◌≡◌, refl, true, false, none, some, [], ◌∷◌, arith, nat_eq, string_eq, pair_eq, All,
  ids_eq, strip, int_eq,
}
use templehe_consign.Base.Result.{Result, ok, err}
use templehe_consign.Calendar.{
  first_conflict, resolve_buffer, check_one, Maps, check_conflict, in_window,
}
use templehe_consign.Calendar.Conflicts.{LeavesRoom, check_conflict_silent}
use templehe_consign.Calendar.Clear.{IsClear, IsShort}
use templehe_consign.Calendar.Actions.{
  reopen, book, strike, require_appraiser, Scheduling, booked, create_event, update_event,
  cancel_event, Change, changed, cancelled, save, new_event,
}
use templehe_consign.Calendar.Bookings.{create_event-IsClear}
use templehe_consign.Calendar.Moves.{update_event-IsClear}
use templehe_consign.Calendar.Cancelling.{cancel_event_unrecorded}
use templehe_consign.Tests.RecordRuns.{texts, appraiser, truck, start}

abbrev maps : Maps
maps = record { drive_seconds = λ a b. some 1800; fallback_minutes = 60 }

abbrev noon : ℕ
noon = 1000000000000000

-- An hour at noon.
abbrev visit : CalendarEvent
visit = record {
  id = 20;
  equipment_record_id = 7;
  appraiser_id = 2;
  scheduled_at = noon;
  duration_minutes = 60;
  site_address = some "Tulsa";
  cancelled_at = none;
}

abbrev standing : Db
standing = record start {
  records = record truck { status = appraisal_scheduled } ∷ [];
  calendar = visit ∷ [];
}

-- Another record is to be seen six hours later.
abbrev busy : Db
busy = record start { calendar = record visit { equipment_record_id = 8 } ∷ [] }

abbrev evening : ℕ
evening = 1000021600000000

silent :
    check_conflict maps 2 evening (evening + 3600000000) (some "Tulsa") none busy.calendar ≡ none
unfolding check_conflict check_one resolve_buffer first_conflict
silent = refl

check_conflict_silent_example :
    All
      (λ e.
        in_window 2 evening none e ≡ true
        → LeavesRoom maps evening (evening + 3600000000) (some "Tulsa") e)
      busy.calendar
check_conflict_silent_example =
    check_conflict_silent maps 2 evening (evening + 3600000000) (some "Tulsa") none busy.calendar
      silent

abbrev after : {A : Type 0} → Db → Result HttpError (A × Db) → Db
after db (ok (a, db')) = db'
after db (err e) = db

abbrev answered : {A : Type 0} → A → Result HttpError (A × Db) → A
answered a (ok (b, db)) = b
answered a (err e) = a

abbrev booking : Result HttpError (Scheduling × Db)
booking = create_event texts maps appraiser "appraiser" 7 2 evening none (some "Tulsa") busy

abbrev evening_visit : CalendarEvent
evening_visit = new_event 100 7 2 evening 60 (some "Tulsa")

books : booking ≡ ok (booked evening_visit, after busy booking)
unfolding create_event require_appraiser book check_conflict check_one resolve_buffer first_conflict
    record_transition is_forbidden_transition fan_out_raises notifies_customer notifies_sales_rep
    of_value apply_status strip
books = refl

create_event-IsClear_example :
    IsClear (after busy booking).calendar × IsShort (after busy booking).calendar
create_event-IsClear_example =
    create_event-IsClear texts maps appraiser "appraiser" 7 2 evening none (some "Tulsa") busy
      (omega arith) (omega arith, tt) (tt, tt) books

abbrev later : Change
later = record {
  to_appraiser = none;
  to_start = some evening;
  to_duration = none;
  to_address = none;
  set_site_address = false;
}

abbrev moving : Result HttpError (Scheduling × Db)
moving = update_event maps appraiser "appraiser" 20 later standing

moves :
    moving
    ≡ ok (
      booked (changed later visit),
      save appraiser "appraiser" visit (changed later visit) standing,
    )
unfolding update_event check_conflict check_one resolve_buffer first_conflict
moves = refl

abbrev after_move : Db
after_move = save appraiser "appraiser" visit (changed later visit) standing

update_event-IsClear_example : IsClear after_move.calendar × IsShort after_move.calendar
update_event-IsClear_example =
    update_event-IsClear maps appraiser "appraiser" 20 later standing (omega arith) (refl, tt)
      (omega arith, tt) (tt, tt) moves

abbrev cancelling : Result HttpError (CalendarEvent × Db)
cancelling = cancel_event texts appraiser "appraiser" 6000 20 standing

cancels : cancelling ≡ ok (cancelled 6000 visit, after standing cancelling)
unfolding cancel_event strike reopen
cancels = refl

cancel_event_unrecorded_example :
    (find_record 7 (after standing cancelling) ≡ some truck)
    × ((after standing cancelling).status_events ≡ [])
cancel_event_unrecorded_example =
    cancel_event_unrecorded texts appraiser "appraiser" 6000 20 standing visit
      (record truck { status = appraisal_scheduled }) refl refl refl refl cancels
