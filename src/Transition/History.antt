-- ===== src/Transition/History.antt =====
-- Who hears of a transition of api/services/equipment_status_service.py.
use templehe_consign.Store.{User, EquipmentRecord, Db, Texts}
use templehe_consign.Jobs.{find_job}
use templehe_consign.Status.{Status, value, notifies_customer}
use templehe_consign.Base.Result.{ok}
use templehe_consign.Base.{
  ℕ, String, ◌≡◌, ap, ◌≢◌, inl, inr, true, false, Option, none, some, nat_eq, string_eq, pair_eq,
  Option-cases, ids_eq, int_eq,
}
use templehe_consign.Store.Growth.{send_present}
use templehe_consign.Transition.{
  record_transition, apply_status, fan_out, email_key, notify_customer,
}
use templehe_consign.Transition.Outcome.{record_transition_result}
use templehe_consign.Transition.Notices.{fan_out_customer}

module _ (x : Texts) (r : EquipmentRecord) (to : Status) (by : Option ℕ) (remark : Option String)
    (db : Db) where
  -- A transition that returns with `notify_override` false leaves the queue as it was.
  pub silent_transition :
      (customer : Option User) {db' : Db}
      → record_transition x r to by remark customer (some false) db ≡ ok db'
      → db'.jobs ≡ db.jobs
  unfolding fan_out apply_status
  silent_transition customer h =
      ap (λ d. d.jobs) (record_transition_result x r to by remark customer (some false) db h)

  -- After a move, without an override, to a status that the registry announces to customers there
  -- is a job under the key of the customer's status mail, if a customer is passed in and the call
  -- returns.
  pub customer_hears :
      (c : User) {db' : Db}
      → notifies_customer (value to) ≡ true
      → record_transition x r to by remark (some c) none db ≡ ok db'
      → find_job (email_key r.id to) db'.jobs ≢ none
  unfolding notify_customer
  customer_hears c {db'} n h e =
      let set = apply_status x r to by remark db in
      let grown = (fan_out_customer x r to remark c none set n).grown in
      elim (Option-cases
        (find_job (email_key r.id to) (notify_customer x c r to remark set).jobs)) [
          | inl missing ↦ send_present _ _ _ _ _ set missing
          | inr (j, f) ↦
              let there = grown (email_key r.id to) j f in
              cc (
                there,
                ap (λ d. find_job (email_key r.id to) d.jobs)
                    (record_transition_result x r to by remark (some c) none db h),
              )
        ]
