-- ===== src/Store.antt =====
-- The tables that the services of equipment records share, api/database/models.py, and the reads
-- and writes that they have in common. The columns are those that the modelled services use. A
-- UUID is a number; the UUIDs that an INSERT draws are `uuids 0`, `uuids 1`, …, a stream about
-- which nothing is assumed unless a theorem says so. `now` is the database's NOW().
pub mod Recipients
pub mod Growth
use templehe_consign.Jobs.Enqueue.{queue}
use templehe_consign.Jobs.{
  NotificationJob, Jobs, JobKey, Message, Payload, no_payload, find_job, job_key, job_id, enqueue,
  is_channel, JobStatus, pending,
}
use templehe_consign.Status.{
  Status, value, new_request, appraiser_assigned, appraisal_scheduled, appraisal_complete,
  offer_ready, approved_pending_esign, esigned_pending_publish, listed, sold, declined, withdrawn,
  display_name, notifies_customer, notifies_sales_rep, is_terminal, is_forbidden_transition,
}
use templehe_consign.Table.{
  find, remove, update, insert_row, IsUnique, IsKeyed, find_key, find-remove_self, find-remove_ne,
  remove_absent, find-update_self, find-update_ne, find-update-none, update_absent,
  find-remove-none, remove-IsUnique, update-IsUnique, found_by_id, find-remove_by_none,
  remove_by-IsUnique, find-remove_by_id, find-remove_by_id_ne, insert_row_inv, insert_row-IsKeyed,
  find-update_by_none, update_by-IsUnique, find-update_by_id, find-update_by_id_ne, insert_row_free,
  insert_row_taken, find-cons_self, find-cons_ne, find-map-none, find-map-some, map-IsUnique,
  All-find, All-update,
}
use templehe_consign.Base.Result.{
  Result, ok, err, ◌>>=◌, ◌>>◌, require, or_raise, Result-cases, >>=-eq-ok,
}
use templehe_consign.Base.{
  ℕ, zero, suc, ◌+◌, ◌-◌, ◌*◌, ◌/◌, ◌%◌, ◌≤◌, ◌<◌, min, String, ◌≡◌, refl, sym, ap, subst, ◌∙◌, ◌≢◌,
  ◌↔◌, ◌⊎◌, inl, inr, Bool, true, false, not, ◌&&◌, ◌||◌, Option, none, some, List, [], ◌∷◌, ◌++◌,
  map, arith, ltb, leb, if◌then◌else◌, Eq, ◌==◌, nat_eq, string_eq, pair_eq, eq_refl, eq→≡, ≡→eq,
  ne→neq, Bool-cases, Option-cases, is_some, length, length-append, select, All, All-append,
  All-map, any_item, ltb→lt, leb→le, eq-cases, ids_eq, get_or, sort_by, All-sort_by,
  All-sort_by_inv, sort_with, All-sort_with, All-sort_with_inv, strip, ℤ, pos, negsuc, leb_int,
  int_eq,
}

pub record User : Type 0 where
  pub id : ℕ
  pub email : String
  pub first_name : String
  pub role_slug : String  -- the slug of the primary role
  pub status : String

pub record EquipmentRecord : Type 0 where
  pub id : ℕ
  pub customer_user : Option User  -- record.customer.user
  pub status : Status
  pub reference_number : Option String
  pub customer_make : Option String
  pub customer_model : Option String
  pub customer_location_text : Option String
  pub assigned_sales_rep_id : Option ℕ
  pub deleted_at : Option ℕ

pub record StatusEvent : Type 0 where
  pub equipment_record_id : ℕ
  pub from_status : Status
  pub to_status : Status
  pub changed_by : Option ℕ
  pub note : Option String

pub record Watcher : Type 0 where
  pub record_id : ℕ
  pub user_id : ℕ
  pub added_by : Option ℕ

pub record NotificationPreference : Type 0 where
  pub user_id : ℕ
  pub channel : String
  pub phone_number : Option String

pub record CalendarEvent : Type 0 where
  pub id : ℕ
  pub equipment_record_id : ℕ
  pub appraiser_id : ℕ
  pub scheduled_at : ℕ
  pub duration_minutes : ℕ
  pub site_address : Option String
  pub cancelled_at : Option ℕ

-- `before_state` and `after_state` of the calendar's entries; other targets leave them empty.
pub record AuditLog : Type 0 where
  pub event_type : String
  pub actor_id : ℕ
  pub actor_role : String
  pub target_type : String
  pub target_id : ℕ
  pub before_state : Option CalendarEvent
  pub after_state : Option CalendarEvent

pub record Db : Type 0 where
  pub users : List User
  pub records : List EquipmentRecord
  pub status_events : List StatusEvent
  pub watchers : List Watcher
  pub preferences : List NotificationPreference
  pub calendar : List CalendarEvent
  pub jobs : Jobs
  pub audit : List AuditLog
  pub uuids : ℕ → ℕ
  pub drawn : ℕ
  pub now : ℕ

-- HTTPException by its status code.
pub data HttpError : Type 0 where
  http : ℕ → HttpError

abbrev pub user_id : User → ℕ
user_id u = u.id

abbrev pub record_id : EquipmentRecord → ℕ
record_id r = r.id

abbrev pub event_id : CalendarEvent → ℕ
event_id e = e.id

abbrev pub preference_user : NotificationPreference → ℕ
preference_user p = p.user_id

abbrev pub find_user : ℕ → Db → Option User
find_user i db = find user_id i db.users

abbrev pub find_record : ℕ → Db → Option EquipmentRecord
find_record i db = find record_id i db.records

-- `x or fallback` on a text that may be None.
abbrev pub or_text : Option String → String → String
or_text none d = d
or_text (some s) d = if s == "" then d else s

-- A text that counts as false is no text.
abbrev pub given : Option String → Option String
given none = none
given (some s) = if s == "" then none else some s

-- What notification_templates.render_with_overrides gives for a template and the values of its
-- variables, and how a UUID and an instant are written. It may raise, as on an override that uses
-- an undefined variable; `fails` tells when, and `subject` and `body` count only where it does not.
pub record Texts : Type 0 where
  pub fails : String → List (Option String) → Bool
  pub subject : String → List (Option String) → Option String
  pub body : String → List (Option String) → String
  pub show_uuid : ℕ → String
  pub isoformat : ℕ → String

-- The two channels that the record services send on.
pub data Via : Type 0 where
  by_email by_sms : Via

abbrev pub via_name : Via → String
via_name by_email = "email"
via_name by_sms = "sms"

abbrev pub message : Via → JobKey → Option ℕ → String → Payload → Message
message via key user template p = record {
  key = key;
  to_user = user;
  via = via_name via;
  kind = template;
  content = p;
}

-- notification_service.enqueue at a literal channel, so that its ValueError cannot come up; the
-- row that it returns is not used.
unfoldable pub send : Via → JobKey → Option ℕ → String → Payload → Db → Db
send via key user template p db = record db {
  jobs =
      queue db.jobs
        (enqueue (db.uuids db.drawn) db.now none (message via key user template p) db.jobs);
  drawn = suc db.drawn;
}
