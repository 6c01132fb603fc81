-- ===== src/Routing.antt =====
-- Lead routing, api/services/lead_routing_service.py over the table lead_routing_rules. The
-- conditions of a rule are the JSON object of its column. Python's text methods, the uuid module,
-- floating-point numbers, which stand for themselves as the numbers of their bits, and the geocoder
-- are the parameter `Outside`. `int` is taken on decimal digits only: on the few other characters
-- that `str.isdigit` admits, such as superscripts, it would raise.
pub mod Conditions
pub mod Waterfall
pub mod DryRun
pub mod Rotation
pub mod Searches
pub mod Decisions
pub mod Passes
pub mod Precedence
pub mod Admin
use templehe_consign.Store.{
  User, EquipmentRecord, StatusEvent, Watcher, NotificationPreference, CalendarEvent, AuditLog, Db,
  HttpError, http, user_id, record_id, event_id, preference_user, find_user, find_record, or_text,
  given, Texts, Via, by_email, by_sms, via_name, send,
}
use templehe_consign.Jobs.{
  NotificationJob, Jobs, JobKey, Message, Payload, no_payload, find_job, job_key, job_id, enqueue,
  is_channel, JobStatus, pending,
}
use templehe_consign.Status.{
  Status, new_request, appraiser_assigned, appraisal_scheduled, appraisal_complete, offer_ready,
  approved_pending_esign, esigned_pending_publish, listed, sold, declined, withdrawn, display_name,
  notifies_customer, notifies_sales_rep, is_terminal, is_forbidden_transition,
}
use templehe_consign.Table.{
  find, remove, update, insert_row, IsUnique, IsKeyed, find_key, find-remove_self, find-remove_ne,
  remove_absent, find-update_self, find-update_ne, find-update-none, update_absent,
  find-remove-none, remove-IsUnique, update-IsUnique, found_by_id, find-remove_by_none,
  remove_by-IsUnique, find-remove_by_id, find-remove_by_id_ne, insert_row_inv, insert_row-IsKeyed,
  find-update_by_none, update_by-IsUnique, find-update_by_id, find-update_by_id_ne, insert_row_free,
  insert_row_taken, find-cons_self, find-cons_ne, find-map-none, find-map-some, map-IsUnique,
  All-find, All-update,
}
use templehe_consign.Base.Result.{
  Result, ok, err, ◌>>=◌, ◌>>◌, require, or_raise, Result-cases, >>=-eq-ok,
}
use templehe_consign.Base.{
  ℕ, zero, suc, ◌+◌, ◌-◌, ◌*◌, ◌/◌, ◌%◌, ◌≤◌, ◌<◌, min, String, ◌≡◌, refl, sym, ap, subst, ◌∙◌, ◌≢◌,
  ◌↔◌, ◌⊎◌, inl, inr, Bool, true, false, not, ◌&&◌, ◌||◌, Option, none, some, List, [], ◌∷◌, ◌++◌,
  map, arith, ltb, leb, if◌then◌else◌, Eq, ◌==◌, nat_eq, string_eq, pair_eq, eq_refl, eq→≡, ≡→eq,
  ne→neq, Bool-cases, Option-cases, is_some, length, length-append, select, All, All-append,
  All-map, ltb→lt, leb→le, eq-cases, ids_eq, get_or, sort_by, All-sort_by, All-sort_by_inv,
  sort_with, All-sort_with, All-sort_with_inv, strip, ℤ, pos, negsuc, leb_int, int_eq,
}
pub use templehe_consign.Json.{Scalar, text, other, Json, null, value, array, object, get}

abbrev pub Conditions : Type 0
Conditions = List (String × Json)

pub record LeadRoutingRule : Type 0 where
  pub id : ℕ
  pub rule_type : String
  pub priority : ℤ
  pub conditions : Option Conditions
  pub assigned_user_id : Option ℕ
  pub round_robin_index : ℕ
  pub is_active : Bool
  pub created_by : Option ℕ
  pub deleted_at : Option ℕ

abbrev pub Rules : Type 0
Rules = List LeadRoutingRule

abbrev pub rule_id : LeadRoutingRule → ℕ
rule_id r = r.id

-- The columns of a customer that routing reads; `user_email` is that of `customer.user`.
pub record Customer : Type 0 where
  pub id : ℕ
  pub user_email : Option String
  pub address_street : Option String
  pub address_city : Option String
  pub address_state : Option String
  pub address_zip : Option String

pub record Outside : Type 0 where
  pub lower : String → String
  pub upper : String → String
  pub is_digit : ℕ → Bool
  pub digit_value : ℕ → ℕ
  pub parse_uuid : String → Option ℕ
  pub to_float : Scalar → Option ℕ
  pub float_le : ℕ → ℕ → Bool
  pub float_zero : ℕ
  pub haversine_miles : ℕ → ℕ → ℕ → ℕ → ℕ
  pub geocode : String → Option (ℕ × ℕ)

-- The outcome of a pass: who gets the record, by which rule, and the tag of the audit entry.
pub record RoutingDecision : Type 0 where
  pub assigned_user_id : Option ℕ
  pub rule_id : Option ℕ
  pub rule_type : Option String
  pub trigger : String

abbrev pub get_json : String → Option Conditions → Json
get_json k none = null
get_json k (some fields) = get_or (get k fields) null

-- The first item for which a loop returns.
abbrev pub first_some {ℓ κ} : {A : Type ℓ} {B : Type κ} → (A → Option B) → List A → Option B
first_some f [] = none
first_some f (x ∷ xs) = let rest = first_some f xs in elim (f x) [ none ↦ rest | some b ↦ some b ]
