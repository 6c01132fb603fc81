-- ===== src/Transition/Outcome.antt =====
-- record_transition of api/services/equipment_status_service.py: when it raises, and what it
-- changes when it does not.
use templehe_consign.Store.{User, EquipmentRecord, Db, HttpError, record_id, find_record, Texts}
use templehe_consign.Status.{Status, value, is_forbidden_transition}
use templehe_consign.Table.{find, find-update_self, find-update_ne}
use templehe_consign.Base.Result.{Result, ok}
use templehe_consign.Base.{
  ℕ, String, ◌≡◌, refl, ap, ◌∙◌, ◌≢◌, Bool, false, Option, some, ◌∷◌, arith, nat_eq, string_eq,
  pair_eq, ids_eq, int_eq,
}
use templehe_consign.Store.Growth.{Grows}
use templehe_consign.Transition.{fan_out_raises, record_transition, apply_status, fan_out}
use templehe_consign.Transition.Notices.{fan_out-Sends}

-- The move that the registry allows: to another status, and not on the denylist.
abbrev pub Allowed : Status → Status → Type 0
Allowed a b = (a ≢ b) × (is_forbidden_transition (value a) (value b) ≡ false)

module _ (x : Texts) (r : EquipmentRecord) (to : Status) (by : Option ℕ) (remark : Option String)
    (customer : Option User) (notify_override : Option Bool) (db : Db) where
  abbrev attempted : Result HttpError Db
  attempted = record_transition x r to by remark customer notify_override db

  -- One of the texts that the notifications need does not render.
  abbrev unrendered : Bool
  unrendered =
      fan_out_raises x r to remark customer notify_override (apply_status x r to by remark db)

  pub record_transition_result :
      {db' : Db}
      → attempted ≡ ok db'
      → db' ≡ fan_out x r to remark customer notify_override (apply_status x r to by remark db)
  unfolding record_transition
  record_transition_result h = ground arith

  -- A transition that returns, of a record that is in the table as it was loaded, has set the
  -- status of that record and of no other, has added one event with the old and the new status,
  -- has left the calendar and the audit log alone, and has only added to the queue.
  pub record_transition_effect :
      {db' : Db}
      → find_record r.id db ≡ some r
      → attempted ≡ ok db'
      → (find_record r.id db' ≡ some (record r { status = to }))
        × ((i : ℕ) → i ≢ r.id → find_record i db' ≡ find_record i db)
        × (db'.status_events
            ≡ record {
              equipment_record_id = r.id;
              from_status = r.status;
              to_status = to;
              changed_by = by;
              note = remark;
            }
              ∷ db.status_events)
        × (db'.calendar ≡ db.calendar)
        × (db'.audit ≡ db.audit)
        × Grows db.jobs db'.jobs
  unfolding apply_status
  record_transition_effect {db'} f h =
      let e = record_transition_result h in
      let s =
        fan_out-Sends x r to remark customer notify_override (apply_status x r to by remark db) in
      let set : EquipmentRecord → EquipmentRecord = λ row. record row { status = to } in
      rw e (
        ap (find record_id r.id) s.same_records
            ∙ find-update_self record_id r.id set db.records (λ y. refl) f,
        λ i n.
            ap (find record_id i) s.same_records
            ∙ find-update_ne record_id i r.id set db.records (λ y. refl) n,
        s.same_events,
        s.same_calendar,
        s.same_audit,
        s.grown,
      )
