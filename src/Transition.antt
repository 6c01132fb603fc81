-- ===== src/Transition.antt =====
-- `record_transition` of api/services/equipment_status_service.py, a change of a
-- record's status with the notifications that it fans out. The parameter `x` renders the
-- templates; a variable such as `note_html`, which wraps a text in markup, is handed to it as the
-- text. If a rendering raises, then so does the call and its writes are rolled back: `fan_out` is
-- what the notifications write, and `fan_out_raises` whether one of the texts on their way does not
-- render. The log lines are left out.
pub mod Outcome
pub mod Notices
pub mod History
use Prim.Native.String.{◌++◌ as join}
use templehe_consign.Store.Recipients.{ResolvedChannel, resolve_channel}
use templehe_consign.Store.{
  User, EquipmentRecord, StatusEvent, Watcher, NotificationPreference, CalendarEvent, AuditLog, Db,
  HttpError, http, user_id, record_id, event_id, preference_user, find_user, find_record, or_text,
  given, Texts, Via, by_email, by_sms, via_name, send,
}
use templehe_consign.Jobs.{
  NotificationJob, Jobs, JobKey, Message, Payload, no_payload, find_job, job_key, job_id, enqueue,
  is_channel, JobStatus, pending,
}
use templehe_consign.Status.{
  Status, value, new_request, appraiser_assigned, appraisal_scheduled, appraisal_complete,
  offer_ready, approved_pending_esign, esigned_pending_publish, listed, sold, declined, withdrawn,
  display_name, notifies_customer, notifies_sales_rep, is_terminal, is_forbidden_transition,
}
use templehe_consign.Table.{
  find, remove, update, insert_row, IsUnique, IsKeyed, find_key, find-remove_self, find-remove_ne,
  remove_absent, find-update_self, find-update_ne, find-update-none, update_absent,
  find-remove-none, remove-IsUnique, update-IsUnique, found_by_id, find-remove_by_none,
  remove_by-IsUnique, find-remove_by_id, find-remove_by_id_ne, insert_row_inv, insert_row-IsKeyed,
  find-update_by_none, update_by-IsUnique, find-update_by_id, find-update_by_id_ne, insert_row_free,
  insert_row_taken, find-cons_self, find-cons_ne, find-map-none, find-map-some, map-IsUnique,
  All-find, All-update,
}
use templehe_consign.Base.Result.{
  Result, ok, err, ◌>>=◌, ◌>>◌, require, or_raise, Result-cases, >>=-eq-ok,
}
use templehe_consign.Base.{
  ℕ, zero, suc, ◌+◌, ◌-◌, ◌*◌, ◌/◌, ◌%◌, ◌≤◌, ◌<◌, min, String, ◌≡◌, refl, sym, ap, subst, ◌∙◌, ◌≢◌,
  ◌↔◌, ◌⊎◌, inl, inr, Bool, true, false, not, ◌&&◌, ◌||◌, Option, none, some, List, [], ◌∷◌, ◌++◌,
  map, arith, ltb, leb, if◌then◌else◌, Eq, ◌==◌, nat_eq, string_eq, pair_eq, eq_refl, eq→≡, ≡→eq,
  ne→neq, Bool-cases, Option-cases, is_some, length, length-append, select, All, All-append,
  All-map, any_item, ltb→lt, leb→le, eq-cases, ids_eq, get_or, sort_by, All-sort_by,
  All-sort_by_inv, sort_with, All-sort_with, All-sort_with_inv, strip, ℤ, pos, negsuc, leb_int,
  int_eq,
}

abbrev pub email_payload : String → Option String → String → Payload
email_payload to subject html = record no_payload {
  to_email = some to;
  subject = subject;
  html_body = some html;
}

abbrev pub sms_payload : String → String → Payload
sms_payload to text = record no_payload { to_number = some to; body = some text }

-- _email_idempotency_key, _sales_rep_idempotency_key and the key of a watcher's mail
abbrev pub email_key : ℕ → Status → JobKey
email_key rid to = ("status_update", (rid ∷ [], value to))

abbrev pub sales_rep_key : ℕ → Status → JobKey
sales_rep_key rid to = ("sales_rep_status", (rid ∷ [], value to))

abbrev pub watcher_key : ℕ → Status → ℕ → JobKey
watcher_key rid to watcher = ("status_watcher", (rid ∷ watcher ∷ [], value to))

-- _sales_rep_template_name
unfoldable pub sales_rep_template_name : Status → Via → String
sales_rep_template_name approved_pending_esign by_email = "sales_rep_approved_pending_esign"
sales_rep_template_name approved_pending_esign by_sms = "sales_rep_approved_pending_esign_sms"
sales_rep_template_name esigned_pending_publish by_email = "sales_rep_esigned_pending_publish"
sales_rep_template_name esigned_pending_publish by_sms = "sales_rep_esigned_pending_publish_sms"
sales_rep_template_name _ by_email = "sales_rep_generic_status"
sales_rep_template_name _ by_sms = "sales_rep_generic_status_sms"

-- The job names f"status_{to_status}" and f"sales_rep_{to_status}".
abbrev status_job : Status → String
status_job to = join "status_" (value to)

abbrev sales_rep_job : Status → String
sales_rep_job to = join "sales_rep_" (value to)

module _ (x : Texts) where
  -- The values of the `status_update` template's variables.
  abbrev status_variables : String → EquipmentRecord → Status → Option String → List (Option String)
  status_variables first_name r to remark =
      some first_name
      ∷ some (or_text r.reference_number "(no reference yet)")
      ∷ some (display_name (value to))
      ∷ some (value to)
      ∷ given remark
      ∷ []

  -- The mail to the customer, `_compose_email` and the `enqueue` under it.
  unfoldable pub notify_customer : User → EquipmentRecord → Status → Option String → Db → Db
  notify_customer customer r to remark db =
      let vars = status_variables customer.first_name r to remark in
      send by_email (email_key r.id to) (some customer.id) (status_job to)
        (email_payload customer.email (some (or_text (x.subject "status_update" vars) ""))
          (x.body "status_update" vars))
        db

  -- `customer_make` and `customer_model` as far as they are given.
  abbrev sales_rep_variables : User → EquipmentRecord → Status → List (Option String)
  sales_rep_variables rep r to =
      some (or_text (some rep.first_name) "team")
      ∷ some (or_text r.reference_number (x.show_uuid r.id))
      ∷ given r.customer_make
      ∷ given r.customer_model
      ∷ some (value to)
      ∷ []

  abbrev sales_rep_sms_variables : EquipmentRecord → Status → List (Option String)
  sales_rep_sms_variables r to =
      some (or_text r.reference_number (x.show_uuid r.id)) ∷ some (value to) ∷ []

  abbrev send_sales_rep : Via → String → User → EquipmentRecord → Status → Db → Db
  send_sales_rep by_sms to_number rep r to db =
      send by_sms (sales_rep_key r.id to) (some rep.id) (sales_rep_job to)
        (sms_payload to_number
          (x.body (sales_rep_template_name to by_sms) (sales_rep_sms_variables r to)))
        db
  send_sales_rep by_email to_email rep r to db =
      let name = sales_rep_template_name to by_email in
      let vars = sales_rep_variables rep r to in
      if to_email == ""
      then db
      else send by_email (sales_rep_key r.id to) (some rep.id) (sales_rep_job to)
          (email_payload to_email (some (or_text (x.subject name vars) "")) (x.body name vars)) db

  abbrev dispatch_sales_rep : ResolvedChannel → User → EquipmentRecord → Status → Db → Db
  dispatch_sales_rep c = send_sales_rep c.channel c.destination

  -- _notify_sales_rep: nothing happens for a rep who is missing or inactive.
  unfoldable pub notify_sales_rep : ℕ → EquipmentRecord → Status → Db → Db
  notify_sales_rep rep_id r to db = elim (find_user rep_id db) [
    | none ↦ db
    | some rep ↦
        if rep.status == "active"
        then dispatch_sales_rep (resolve_channel rep db) rep r to db
        else db
  ]

  abbrev watcher_payload : Via → String → Option String → String → Payload
  watcher_payload by_sms to subject text = record no_payload {
    to_number = some to;
    subject = subject;
    html_body = some text;
    body = some text;
  }
  watcher_payload by_email to subject text = record no_payload {
    to_email = some to;
    subject = subject;
    html_body = some text;
    body = some text;
  }

  abbrev dispatch_watcher :
      ResolvedChannel → User → EquipmentRecord → Status → Option String → Db → Db
  dispatch_watcher c watcher r to remark db =
      let vars = status_variables "team" r to remark in
      let p =
        watcher_payload c.channel c.destination (x.subject "status_update" vars)
          (x.body "status_update" vars) in
      if c.destination == ""
      then db
      else send c.channel (watcher_key r.id to watcher.id) (some watcher.id) "status_update_watcher"
          p db

  -- One round of the loop of _notify_watchers.
  unfoldable pub notify_watcher : ℕ → EquipmentRecord → Status → Option String → Db → Db
  notify_watcher watcher_id r to remark db = elim (find_user watcher_id db) [
    | none ↦ db
    | some watcher ↦
        if watcher.status == "active"
        then dispatch_watcher (resolve_channel watcher db) watcher r to remark db
        else db
  ]

  pub notify_each : List Watcher → EquipmentRecord → Status → Option String → Db → Db
  notify_each [] r to remark db = db
  notify_each (w ∷ ws) r to remark db =
      notify_each ws r to remark (notify_watcher w.user_id r to remark db)

  -- _notify_watchers
  unfoldable pub notify_watchers : EquipmentRecord → Status → Option String → Db → Db
  notify_watchers r to remark db =
      notify_each (select (λ w. w.record_id == r.id) db.watchers) r to remark db

  -- The writes of record_transition: the event, and the record's status.
  unfoldable pub apply_status : EquipmentRecord → Status → Option ℕ → Option String → Db → Db
  apply_status r to changed_by remark db =
      let event : StatusEvent = record {
        equipment_record_id = r.id;
        from_status = r.status;
        to_status = to;
        changed_by = changed_by;
        note = remark;
      } in
      record db {
        status_events = event ∷ db.status_events;
        records = update record_id r.id (λ row. record row { status = to }) db.records;
      }

  abbrev when_some : {A : Type 0} → Option A → (A → Db → Db) → Db → Db
  when_some none f db = db
  when_some (some a) f db = f a db

  -- The three fan-outs, in the order of the source.
  unfoldable pub fan_out :
      EquipmentRecord → Status → Option String → Option User → Option Bool → Db → Db
  fan_out r to remark customer notify_override db =
      let for_customer = get_or notify_override (notifies_customer (value to)) in
      let for_sales_rep = get_or notify_override (notifies_sales_rep (value to)) in
      let after_customer =
        if for_customer then when_some customer (λ c. notify_customer c r to remark) db else db in
      let after_rep =
        if for_sales_rep
        then when_some r.assigned_sales_rep_id (λ rep. notify_sales_rep rep r to) after_customer
        else after_customer in
      if for_customer then notify_watchers r to remark after_rep else after_rep

  -- A rendering on the way of the notification of a sales rep raises. Its channel is resolved from
  -- the users and preferences, which no notification writes.
  abbrev via_fails : Via → String → User → EquipmentRecord → Status → Bool
  via_fails by_sms destination rep r to =
      x.fails (sales_rep_template_name to by_sms) (sales_rep_sms_variables r to)
  via_fails by_email destination rep r to =
      not (destination == "")
      && x.fails (sales_rep_template_name to by_email) (sales_rep_variables rep r to)

  abbrev sales_rep_text_fails : ResolvedChannel → User → EquipmentRecord → Status → Bool
  sales_rep_text_fails c = via_fails c.channel c.destination

  abbrev sales_rep_raises : ℕ → EquipmentRecord → Status → Db → Bool
  sales_rep_raises rep_id r to db = elim (find_user rep_id db) [
    | none ↦ false
    | some rep ↦ (rep.status == "active") && sales_rep_text_fails (resolve_channel rep db) rep r to
  ]

  abbrev any_watchers : List Watcher → Bool
  any_watchers [] = false
  any_watchers (w ∷ ws) = true

  -- The template of the watchers is rendered once, before their loop, if there are any.
  abbrev watchers_raise : EquipmentRecord → Status → Option String → Db → Bool
  watchers_raise r to remark db =
      any_watchers (select (λ w. w.record_id == r.id) db.watchers)
      && x.fails "status_update" (status_variables "team" r to remark)

  abbrev some_raises : {A : Type 0} → Option A → (A → Bool) → Bool
  some_raises none f = false
  some_raises (some a) f = f a

  unfoldable pub fan_out_raises :
      EquipmentRecord → Status → Option String → Option User → Option Bool → Db → Bool
  fan_out_raises r to remark customer notify_override db =
      let for_customer = get_or notify_override (notifies_customer (value to)) in
      let for_sales_rep = get_or notify_override (notifies_sales_rep (value to)) in
      (for_customer
        && some_raises customer
            (λ c. x.fails "status_update" (status_variables c.first_name r to remark)))
      || (for_sales_rep
          && some_raises r.assigned_sales_rep_id (λ rep. sales_rep_raises rep r to db))
      || (for_customer && watchers_raise r to remark db)

  -- `r` is the row that the caller has loaded; the result is the database after the call.
  unfoldable pub record_transition :
      EquipmentRecord
      → Status
      → Option ℕ
      → Option String
      → Option User
      → Option Bool
      → Db
      → Result HttpError Db
  record_transition r to changed_by remark customer notify_override db = do
    require (not (value r.status == value to)) (http 409)
    require (not (is_forbidden_transition (value r.status) (value to))) (http 409)
    let set = apply_status r to changed_by remark db
    require (not (fan_out_raises r to remark customer notify_override set)) (http 500)
    ok (fan_out r to remark customer notify_override set)
