-- ===== src/Calendar/Cancelling.antt =====
-- cancel_event of api/services/calendar_service.py: the calendar, a second call, and the history
-- of the record.
use templehe_consign.Calendar.Clear.{IsClear, clashes, update-IsClear}
use templehe_consign.Store.{
  User, EquipmentRecord, CalendarEvent, Db, HttpError, record_id, event_id, find_user, find_record,
  Texts,
}
use templehe_consign.Status.{value, new_request, appraisal_scheduled}
use templehe_consign.Table.{find, update, IsUnique, find_key, find-update_self}
use templehe_consign.Base.Result.{Result, ok, err, >>=-eq-ok}
use templehe_consign.Base.{
  ℕ, String, ◌≡◌, refl, sym, ap, subst, ◌∙◌, ◌≢◌, ◌⊎◌, inl, inr, true, false, Option, none, some,
  List, [], ◌∷◌, arith, ◌==◌, nat_eq, string_eq, pair_eq, ≡→eq, ne→neq, Bool-cases, Option-cases,
  is_some, All, eq-cases, ids_eq,
}
use templehe_consign.Calendar.Actions.{
  load_record, cancelled, strike, reopen, cancel_standing, cancel_event, tell_appraiser,
  tell_customer, enqueue_customer_cancellation_email,
}
use templehe_consign.Calendar.Bookings.{enqueue_appraiser_email-Sends}
use templehe_consign.Store.Growth.{Sends, Sends-refl, Sends-trans, send-Sends}

strike-Sends :
    (actor : User) (role : String) (clock : ℕ) (e : CalendarEvent) (db : Db)
    → ((strike actor role clock e db).records ≡ db.records)
      × ((strike actor role clock e db).status_events ≡ db.status_events)
      × ((strike actor role clock e db).calendar
          ≡ update event_id e.id (λ _. cancelled clock e) db.calendar)
unfolding strike
strike-Sends actor role clock e db = (refl, refl, refl)

-- Opening a record again writes no history and leaves the calendar.
reopen_rest :
    (r : EquipmentRecord) (db : Db)
    → ((reopen r db).status_events ≡ db.status_events) × ((reopen r db).calendar ≡ db.calendar)
unfolding reopen
reopen_rest r db = elim (Bool-cases (value r.status == value appraisal_scheduled)) [
  | inl h ↦ rw h (refl, refl)
  | inr h ↦ rw h (refl, refl)
]

cancelled_calendar :
    (actor : User) (role : String) (clock : ℕ) (e : CalendarEvent) (r : EquipmentRecord) (db : Db)
    → (reopen r (strike actor role clock e db)).calendar
      ≡ update event_id e.id (λ _. cancelled clock e) db.calendar
cancelled_calendar actor role clock e r db =
    (reopen_rest r (strike actor role clock e db)).1 ∙ (strike-Sends actor role clock e db).2

struck_apart :
    (clock : ℕ) (e : CalendarEvent) (es : List CalendarEvent)
    → All (λ f. f.id ≢ e.id → clashes (cancelled clock e) f ≡ false) es
struck_apart clock e [] = tt
struck_apart clock e (f ∷ es) = (λ _. ground arith, struck_apart clock e es)

find-replaced :
    (i : ℕ) (new : CalendarEvent) (es : List CalendarEvent) {e : CalendarEvent}
    → new.id ≡ i
    → find event_id i es ≡ some e
    → find event_id i (update event_id i (λ _. new) es) ≡ some new
find-replaced i new [] n h = absurd (ground arith)
find-replaced i new (f ∷ es) {e} n h = elim (eq-cases i f.id) [
  | inl b ↦ rw (≡→eq i f.id b, ≡→eq i new.id (sym n)) refl
  | inr b ↦ rw (ne→neq i f.id b, ne→neq i f.id b) (find-replaced i new es {e = e} n (ground arith))
]

reopened :
    (r : EquipmentRecord) (db : Db)
    → r.status ≡ appraisal_scheduled
    → (reopen r db).records
      ≡ update record_id r.id (λ row. record row { status = new_request }) db.records
unfolding reopen
reopened r db s = rw (≡→eq (value r.status) (value appraisal_scheduled) (ap value s)) refl

module _ (x : Texts) where
  told_customer :
      (u : User) (r : EquipmentRecord) (e : CalendarEvent) (db : Db)
      → Sends db (enqueue_customer_cancellation_email x u r e db)
  unfolding enqueue_customer_cancellation_email
  told_customer u r e db = elim (Bool-cases (u.email == "")) [
    | inl h ↦ rw h (Sends-refl db)
    | inr h ↦ rw h (send-Sends _ _ _ _ _ db)
  ]

  tell_appraiser-Sends :
      (u : Option User) (r : EquipmentRecord) (e : CalendarEvent) (db : Db)
      → Sends db (tell_appraiser x u r e db)
  tell_appraiser-Sends none r e db = Sends-refl db
  tell_appraiser-Sends (some u) r e db = enqueue_appraiser_email-Sends x _ _ u r e db

  tell_customer-Sends :
      (u : Option User) (r : EquipmentRecord) (e : CalendarEvent) (db : Db)
      → Sends db (tell_customer x u r e db)
  tell_customer-Sends none r e db = Sends-refl db
  tell_customer-Sends (some u) r e db = told_customer u r e db

  -- How a call ends: the event had been cancelled before, or it is struck, its record opened again
  -- and the mails sent.
  abbrev Ends : User → String → ℕ → CalendarEvent → CalendarEvent → Db → Db → Type 0
  Ends actor role clock e e' db db' =
      ((is_some e.cancelled_at ≡ true) × (e' ≡ e) × (db' ≡ db))
      ⊎ ((r : EquipmentRecord) × (find_record e.equipment_record_id db ≡ some r)
          × (e' ≡ cancelled clock e)
          × Sends (reopen r (strike actor role clock e db)) db')

  cancel_standing_result :
      (actor : User) (role : String) (clock : ℕ) (e : CalendarEvent) (db : Db) {e' : CalendarEvent}
      {db' : Db}
      → cancel_standing x actor role clock e db ≡ ok (e', db')
      → (r : EquipmentRecord) × (find_record e.equipment_record_id db ≡ some r)
        × (e' ≡ cancelled clock e)
        × Sends (reopen r (strike actor role clock e db)) db'
  cancel_standing_result actor role clock e db {e'} {db'} h =
      let (r, f, q) = >>=-eq-ok (load_record e.equipment_record_id struck) rest h in
      let rows = (strike-Sends actor role clock e db).0 in
      let sent =
        Sends-trans
          (tell_appraiser-Sends (find_user e.appraiser_id (reopen r struck)) r (cancelled clock e)
            (reopen r struck))
          (tell_customer-Sends r.customer_user r (cancelled clock e) (told r)) in
      (r, found r f, sym (ap event_of q), subst (Sends (reopen r struck)) (ap db_of q) sent)
    where
      struck : Db
      struck = strike actor role clock e db

      told : EquipmentRecord → Db
      told r =
          tell_appraiser x (find_user e.appraiser_id (reopen r struck)) r (cancelled clock e)
            (reopen r struck)

      rest : EquipmentRecord → Result HttpError (CalendarEvent × Db)
      rest r =
          ok (cancelled clock e, tell_customer x r.customer_user r (cancelled clock e) (told r))

      event_of : Result HttpError (CalendarEvent × Db) → CalendarEvent
      event_of (ok (k, _)) = k
      event_of (err _) = e

      db_of : Result HttpError (CalendarEvent × Db) → Db
      db_of (ok (_, d)) = d
      db_of (err _) = db

      found :
          (r : EquipmentRecord)
          → load_record e.equipment_record_id struck ≡ ok r
          → find_record e.equipment_record_id db ≡ some r
      found r f = elim (Option-cases (find_record e.equipment_record_id db)) [
        | inl n ↦ absurd (let rows = (strike-Sends actor role clock e db).0 in ground arith)
        | inr (k, p) ↦ (let rows = (strike-Sends actor role clock e db).0 in ground arith)
      ]

  cancel_event_result :
      (actor : User) (role : String) (clock i : ℕ) (db : Db) {e' : CalendarEvent} {db' : Db}
      → cancel_event x actor role clock i db ≡ ok (e', db')
      → (e : CalendarEvent) × (find event_id i db.calendar ≡ some e)
        × Ends actor role clock e e' db db'
  unfolding cancel_event
  cancel_event_result actor role clock i db {e'} {db'} h =
      elim (Option-cases (find event_id i db.calendar)) [
        | inl n ↦ absurd (ground arith)
        | inr (e, f) ↦ elim (Bool-cases (is_some e.cancelled_at)) [
          | inl c ↦ (e, f, inl (c, ground arith, ground arith))
          | inr c ↦ (e, f, inr (cancel_standing_result actor role clock e db (ground arith)))
        ]
      ]

  -- A call of cancel_event that returns keeps the calendar free of clashes, if the ids of its
  -- events are unique.
  pub cancel_event-IsClear :
      (actor : User) (role : String) (clock i : ℕ) (db : Db) {e' : CalendarEvent} {db' : Db}
      → IsUnique event_id db.calendar
      → IsClear db.calendar
      → cancel_event x actor role clock i db ≡ ok (e', db')
      → IsClear db'.calendar
  cancel_event-IsClear actor role clock i db u clear h =
      let (e, f, end) = cancel_event_result actor role clock i db h in
      elim end [
        | inl (_, _, same) ↦ rw same clear
        | inr (r, _, _, sent) ↦
            rw (sent.same_calendar ∙ cancelled_calendar actor role clock e r db) (
              update-IsClear e.id (cancelled clock e) refl db.calendar u
                (struck_apart clock e db.calendar) clear)
      ]

  already :
      (again : User) (role : String) (later i : ℕ) (db : Db) (e : CalendarEvent)
      → find event_id i db.calendar ≡ some e
      → is_some e.cancelled_at ≡ true
      → cancel_event x again role later i db ≡ ok (e, db)
  unfolding cancel_event
  already again role later i db e f c = rw (f, c) refl

  struck_found :
      (actor : User) (role : String) (clock i : ℕ) (e : CalendarEvent) (r : EquipmentRecord)
      (db db' : Db)
      → find event_id i db.calendar ≡ some e
      → Sends (reopen r (strike actor role clock e db)) db'
      → find event_id i db'.calendar ≡ some (cancelled clock e)
  struck_found actor role clock i e r db db' f sent =
      let own = find_key event_id i db.calendar f in
      let rows = sent.same_calendar ∙ cancelled_calendar actor role clock e r db in
      let new = find-replaced i (cancelled clock e) db.calendar own f in
      ap (find event_id i) rows
      ∙ subst
          (λ j.
            find event_id i (update event_id j (λ _. cancelled clock e) db.calendar)
            ≡ some (cancelled clock e))
          (sym own) new

  -- After a call of cancel_event that returns, a second one for the same event, whoever makes it
  -- and whenever, returns the event as the first one left it and changes nothing.
  pub cancel_event_twice :
      (actor again : User) (role role_again : String) (clock later i : ℕ) (db : Db)
      {e' : CalendarEvent} {db' : Db}
      → cancel_event x actor role clock i db ≡ ok (e', db')
      → cancel_event x again role_again later i db' ≡ ok (e', db')
  cancel_event_twice actor again role role_again clock later i db {e'} {db'} h =
      let (e, f, end) = cancel_event_result actor role clock i db h in
      elim end [
        | inl (c, p, same) ↦ rw (same, p) (already again role_again later i db e f c)
        | inr (r, _, p, sent) ↦ rw p (
            already again role_again later i db' (cancelled clock e)
              (struck_found actor role clock i e r db db' f sent) refl)
      ]

  -- A call of cancel_event that returns, for an appointment that stands, of a record that is
  -- scheduled, sets the record back to new_request and writes no status event.
  pub cancel_event_unrecorded :
      (actor : User) (role : String) (clock i : ℕ) (db : Db) (e : CalendarEvent)
      (r : EquipmentRecord) {e' : CalendarEvent} {db' : Db}
      → find event_id i db.calendar ≡ some e
      → is_some e.cancelled_at ≡ false
      → find_record e.equipment_record_id db ≡ some r
      → r.status ≡ appraisal_scheduled
      → cancel_event x actor role clock i db ≡ ok (e', db')
      → (find_record e.equipment_record_id db' ≡ some (record r { status = new_request }))
        × (db'.status_events ≡ db.status_events)
  cancel_event_unrecorded actor role clock i db e r {db' = db'} f c g s h =
      let (k, fk, end) = cancel_event_result actor role clock i db h in
      let same : k ≡ e = ground arith in
      elim end [
        | inl (ck, _, _) ↦ absurd (ground arith)
        | inr (q, gk, _, sent) ↦
            (let end_rows = (strike-Sends actor role clock k db) in
              let one : q ≡ r = ground arith in
              let own : r.id ≡ e.equipment_record_id =
                find_key record_id e.equipment_record_id db.records g in
              let rows : db'.records
                  ≡ update record_id r.id (λ row. record row { status = new_request }) db.records =
                rw (sent.same_records, one, reopened r (strike actor role clock k db) s, end_rows.0)
                  refl in
              (
                ap (find record_id e.equipment_record_id) rows
                    ∙ subst
                        (λ j.
                          find record_id e.equipment_record_id (
                            update record_id j (λ row. record row { status = new_request })
                              db.records)
                          ≡ some (record r { status = new_request }))
                        (sym own)
                        (find-update_self record_id e.equipment_record_id
                          (λ row. record row { status = new_request }) db.records (λ _. refl) g),
                sent.same_events ∙ (reopen_rest q (strike actor role clock k db)).0 ∙ end_rows.1,
              ))
      ]
