-- ===== src/Calendar/Moves.antt =====
-- update_event of api/services/calendar_service.py against the invariant of the calendar.
use templehe_consign.Table.{find, IsUnique, find_key, All-find}
use templehe_consign.Store.{User, CalendarEvent, Db, HttpError, http, event_id}
use templehe_consign.Base.Result.{Result, ok, require, >>=-eq-ok}
use templehe_consign.Base.{
  ℕ, ◌≤◌, String, ◌≡◌, refl, sym, subst, ◌∙◌, ◌≢◌, ◌⊎◌, inl, inr, false, not, Option, none, some,
  List, [], ◌∷◌, arith, if◌then◌else◌, nat_eq, string_eq, pair_eq, ne→neq, Bool-cases, Option-cases,
  is_some, All, All-map, eq-cases, ids_eq, int_eq,
}
use templehe_consign.Calendar.{Maps, CalendarConflict, end_of, check_conflict}
use templehe_consign.Calendar.Actions.{
  Scheduling, booked, refused, or_number, update_event, Change, changed, save, recheck,
  check_appraiser, schedule_changed, get_event,
}
use templehe_consign.Calendar.Clear.{
  IsClear, IsShort, clashes, clashes_comm, silent_no_clash, update-IsClear, update-IsShort,
}

-- An event of a clear calendar clashes with none of the others.
others_apart :
    (i : ℕ) (es : List CalendarEvent) {e : CalendarEvent}
    → IsClear es
    → find event_id i es ≡ some e
    → All (λ f. f.id ≢ i → clashes e f ≡ false) es
others_apart i [] c h = tt
others_apart i (f ∷ es) {e} c h = elim (eq-cases i f.id) [
  | inl b ↦ (
    λ n. absurd (n (sym b)),
    self es (subst (λ g. All (λ k. clashes g k ≡ false) es) {x = f} {y = e} (ground arith) c.0),
  )
  | inr b ↦
      (let rest : find event_id i es ≡ some e = ground arith in
        (
          λ _. clashes_comm e f ∙ All-find event_id (λ g. clashes f g ≡ false) i es c.0 rest,
          others_apart i es c.1 rest,
        ))
]
  where
    self :
        (fs : List CalendarEvent)
        → All (λ k. clashes e k ≡ false) fs
        → All (λ k. k.id ≢ i → clashes e k ≡ false) fs
    self [] a = tt
    self (k ∷ fs) a = (λ _. a.0, self fs a.1)

unmoved :
    (new e f : CalendarEvent)
    → schedule_changed new e ≡ false
    → new.cancelled_at ≡ e.cancelled_at
    → clashes new f ≡ clashes e f
unmoved new e f h s = ground arith

changed_short :
    (c : Change) (e : CalendarEvent) (es : List CalendarEvent)
    → or_number c.to_duration 0 ≤ 1440
    → IsShort es
    → find event_id e.id es ≡ some e
    → (changed c e).duration_minutes ≤ 1440
changed_short c e es d short h =
    let old = All-find event_id (λ f. f.duration_minutes ≤ 1440) e.id es short h in ground arith

-- The changed event is apart from the others, if the recheck is silent.
changed_apart :
    (m : Maps) (c : Change) (e : CalendarEvent) (db : Db)
    → or_number c.to_duration 0 ≤ 1440
    → IsShort db.calendar
    → IsClear db.calendar
    → find event_id e.id db.calendar ≡ some e
    → recheck m (changed c e) e db ≡ none
    → All (λ f. f.id ≢ e.id → clashes (changed c e) f ≡ false) db.calendar
changed_apart m c e db d short clear h q = elim (Bool-cases (schedule_changed (changed c e) e)) [
  | inl b ↦
      All-map db.calendar (λ f g n. g (ne→neq f.id e.id n))
        (silent_no_clash m (changed c e) (some e.id) db.calendar
          (changed_short c e db.calendar d short h) short
          (subst
            (λ t.
              (if t
                then check_conflict m (changed c e).appraiser_id (changed c e).scheduled_at
                    (end_of (changed c e)) (changed c e).site_address (some e.id) db.calendar
                else none)
              ≡ none)
            b q))
  | inr b ↦
      All-map db.calendar (λ f g n. unmoved (changed c e) e f b refl ∙ g n)
        (others_apart e.id db.calendar clear h)
]

got_event :
    (i : ℕ) (db : Db) {e : CalendarEvent}
    → get_event i db ≡ ok e
    → find event_id e.id db.calendar ≡ some e
got_event i db {e} h = elim (Option-cases (find event_id i db.calendar)) [
  | inl n ↦ absurd (ground arith)
  | inr (f, p) ↦ (let k = find_key event_id i db.calendar p in ground arith)
]

saved-IsClear :
    (m : Maps) (c : Change) (actor : User) (role : String) (e : CalendarEvent) (db : Db)
    → or_number c.to_duration 0 ≤ 1440
    → IsUnique event_id db.calendar
    → IsShort db.calendar
    → IsClear db.calendar
    → find event_id e.id db.calendar ≡ some e
    → recheck m (changed c e) e db ≡ none
    → IsClear (save actor role e (changed c e) db).calendar
      × IsShort (save actor role e (changed c e) db).calendar
unfolding save
saved-IsClear m c actor role e db d u short clear h q = (
  update-IsClear e.id (changed c e) refl db.calendar u (changed_apart m c e db d short clear h q)
      clear,
  update-IsShort e.id (changed c e) refl db.calendar (changed_short c e db.calendar d short h)
      short,
)

-- What update_event makes of the database: nothing, if it reports a conflict, and otherwise the
-- write of the changed event, for which the recheck was silent.
update_event_result :
    (m : Maps) (actor : User) (role : String) (i : ℕ) (c : Change) (db : Db) {s : Scheduling}
    {db' : Db}
    → update_event m actor role i c db ≡ ok (s, db')
    → (db' ≡ db)
      ⊎ ((e : CalendarEvent) × (get_event i db ≡ ok e)
          × (recheck m (changed c e) e db ≡ none)
          × (db' ≡ save actor role e (changed c e) db))
unfolding update_event
update_event_result m actor role i c db {s} {db'} h =
    let (e, f, h1) = >>=-eq-ok (get_event i db) _ h in
    let (_, _, h2) = >>=-eq-ok (require (not (is_some e.cancelled_at)) (http 409)) _ h1 in
    let (_, _, h3) = >>=-eq-ok (check_appraiser (changed c e) e db) _ h2 in found e f h3
  where
    answer : CalendarEvent → Option CalendarConflict → Result HttpError (Scheduling × Db)
    answer e k = elim k [
      | some conflict ↦ ok (refused conflict, db)
      | none ↦ ok (booked (changed c e), save actor role e (changed c e) db)
    ]

    found :
        (e : CalendarEvent)
        → get_event i db ≡ ok e
        → answer e (recheck m (changed c e) e db) ≡ ok (s, db')
        → (db' ≡ db)
          ⊎ ((e : CalendarEvent) × (get_event i db ≡ ok e)
              × (recheck m (changed c e) e db ≡ none)
              × (db' ≡ save actor role e (changed c e) db))
    found e f q = elim (Option-cases (recheck m (changed c e) e db)) [
      | inr (k, p) ↦ inl (ground arith)
      | inl p ↦ inr (e, f, p, ground arith)
    ]

-- A call of update_event that returns, with the moved appointment or with a conflict, keeps the
-- calendar free of clashes and its appointments no longer than a day, if their ids are unique and
-- the new length, where one is given, is no longer than a day.
pub update_event-IsClear :
    (m : Maps) (actor : User) (role : String) (i : ℕ) (c : Change) (db : Db) {s : Scheduling}
    {db' : Db}
    → or_number c.to_duration 0 ≤ 1440
    → IsUnique event_id db.calendar
    → IsShort db.calendar
    → IsClear db.calendar
    → update_event m actor role i c db ≡ ok (s, db')
    → IsClear db'.calendar × IsShort db'.calendar
update_event-IsClear m actor role i c db d u short clear h =
    elim (update_event_result m actor role i c db h) [
      | inl same ↦ rw same (clear, short)
      | inr (e, f, q, w) ↦
          rw w (saved-IsClear m c actor role e db d u short clear (got_event i db f) q)
    ]
