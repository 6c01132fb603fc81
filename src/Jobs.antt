-- ===== src/Jobs.antt =====
-- The durable notification queue, api/services/notification_service.py, over the table
-- `notification_jobs`. Instants are microseconds.
pub mod Dispatch
pub mod Process
pub mod Enqueue
pub mod Claim
pub mod Batches
pub mod Attempts
pub mod Delivery
-- An idempotency key such as f"status_update:{record_id}:{to_status}": the words in front, the
-- UUIDs, and the text behind. UUIDs have one length, so two keys are equal as texts exactly if
-- they are in these parts.
use templehe_consign.Status.{
  Status, value, new_request, appraiser_assigned, appraisal_scheduled, appraisal_complete,
  offer_ready, approved_pending_esign, esigned_pending_publish, listed, sold, declined, withdrawn,
  display_name, notifies_customer, notifies_sales_rep, is_terminal, is_forbidden_transition,
}
use templehe_consign.Table.{
  find, remove, update, insert_row, IsUnique, IsKeyed, find_key, find-remove_self, find-remove_ne,
  remove_absent, find-update_self, find-update_ne, find-update-none, update_absent,
  find-remove-none, remove-IsUnique, update-IsUnique, found_by_id, find-remove_by_none,
  remove_by-IsUnique, find-remove_by_id, find-remove_by_id_ne, insert_row_inv, insert_row-IsKeyed,
  find-update_by_none, update_by-IsUnique, find-update_by_id, find-update_by_id_ne, insert_row_free,
  insert_row_taken, find-cons_self, find-cons_ne, find-map-none, find-map-some, map-IsUnique,
  All-find, All-update,
}
use templehe_consign.Base.Result.{
  Result, ok, err, ◌>>=◌, ◌>>◌, require, or_raise, Result-cases, >>=-eq-ok,
}
use templehe_consign.Base.{
  ℕ, zero, suc, ◌+◌, ◌-◌, ◌*◌, ◌/◌, ◌%◌, ◌≤◌, ◌<◌, min, String, ◌≡◌, refl, sym, ap, subst, ◌∙◌, ◌≢◌,
  ◌↔◌, ◌⊎◌, inl, inr, Bool, true, false, not, ◌&&◌, ◌||◌, Option, none, some, List, [], ◌∷◌, ◌++◌,
  map, arith, ltb, leb, if◌then◌else◌, Eq, ◌==◌, nat_eq, string_eq, pair_eq, eq_refl, eq→≡, ≡→eq,
  ne→neq, Bool-cases, Option-cases, is_some, length, length-append, select, All, All-append,
  All-map, any_item, ltb→lt, leb→le, eq-cases, ids_eq, get_or, sort_by, All-sort_by,
  All-sort_by_inv, sort_with, All-sort_with, All-sort_with_inv, strip, ℤ, pos, negsuc, leb_int,
  int_eq,
}

abbrev pub JobKey : Type 0
JobKey = String × (List ℕ × String)

-- The columns of the JSON payload that the worker reads.
pub record Payload : Type 0 where
  pub to_email : Option String
  pub subject : Option String
  pub html_body : Option String
  pub to_number : Option String
  pub body : Option String
  pub text : Option String
  pub token : Option String

abbrev pub no_payload : Payload
no_payload = record {
  to_email = none;
  subject = none;
  html_body = none;
  to_number = none;
  body = none;
  text = none;
  token = none;
}

pub data JobStatus : Type 0 where
  pending processing delivered skipped failed : JobStatus

-- The forms of `last_error`; the texts of exceptions are kept whole, where the code clips them.
pub data JobError : Type 0 where
  missing_fields not_configured unknown_channel permanent raised : String → JobError

pub record NotificationJob : Type 0 where
  pub id : ℕ
  pub idempotency_key : JobKey
  pub user_id : Option ℕ
  pub channel : String
  pub template : String
  pub payload : Payload
  pub status : JobStatus
  pub attempts : ℕ
  pub max_attempts : ℕ
  pub scheduled_for : ℕ
  pub processed_at : Option ℕ
  pub last_error : Option JobError

abbrev pub Jobs : Type 0
Jobs = List NotificationJob

abbrev pub job_key : NotificationJob → JobKey
job_key j = j.idempotency_key

abbrev pub job_id : NotificationJob → ℕ
job_id j = j.id

abbrev pub find_job : JobKey → Jobs → Option NotificationJob
find_job = find job_key

abbrev pub IsValid : Jobs → Type 0
IsValid = IsKeyed job_key job_id

-- A message on its way into the queue.
pub record Message : Type 0 where
  pub key : JobKey
  pub to_user : Option ℕ
  pub via : String
  pub kind : String
  pub content : Payload

-- The ValueError for an unknown channel.
pub data QueueError : Type 0 where
  unknown_channel : String → QueueError

unfoldable pub is_channel : String → Bool
is_channel c = (c == "email") || (c == "sms") || (c == "slack") || (c == "apns")

-- The row that the INSERT would add, with the column defaults of api/database/models.py.
abbrev pub new_job : ℕ → ℕ → Message → NotificationJob
new_job id scheduled_for m = record {
  id = id;
  idempotency_key = m.key;
  user_id = m.to_user;
  channel = m.via;
  template = m.kind;
  payload = m.content;
  status = pending;
  attempts = 0;
  max_attempts = 5;
  scheduled_for = scheduled_for;
  processed_at = none;
  last_error = none;
}

-- INSERT … ON CONFLICT (idempotency_key) DO NOTHING RETURNING. `id` and `now` are the database's
-- defaults for the primary key and for `scheduled_for`.
unfoldable pub enqueue :
    ℕ → ℕ → Option ℕ → Message → Jobs → Result QueueError (Option NotificationJob × Jobs)
enqueue id now scheduled_for m t =
    if is_channel m.via
    then elim (find_job m.key t) [
      | some old ↦ ok (none, t)
      | none ↦ let job = new_job id (get_or scheduled_for now) m in ok (some job, job ∷ t)
    ]
    else err (unknown_channel m.via)

-- Jobs that a worker may claim: pending, due, and not locked by another worker's transaction.
abbrev pub is_pending : JobStatus → Bool
is_pending pending = true
is_pending _ = false

abbrev pub is_due : ℕ → (ℕ → Bool) → NotificationJob → Bool
is_due clock locked j = is_pending j.status && leb j.scheduled_for clock && not (locked j.id)

-- ORDER BY scheduled_for
abbrev pub by_schedule : Jobs → Jobs
by_schedule = sort_by (λ j. j.scheduled_for)

abbrev pub take {ℓ} : {A : Type ℓ} → ℕ → List A → List A
take zero xs = []
take (suc n) [] = []
take (suc n) (x ∷ xs) = x ∷ take n xs

abbrev pub any_of : List ℕ → ℕ → Bool
any_of [] i = false
any_of (x ∷ xs) i = if i == x then true else any_of xs i

abbrev pub mark : List ℕ → NotificationJob → NotificationJob
mark ids j = if any_of ids j.id then record j { status = processing } else j

-- The SELECT … FOR UPDATE SKIP LOCKED, the UPDATE of its ids, and the rows fetched by them.
unfoldable pub claim_next_batch : ℕ → ℕ → (ℕ → Bool) → Jobs → Jobs × Jobs
claim_next_batch limit clock locked t =
    let ids = map job_id (take limit (by_schedule (select (is_due clock locked) t))) in
    let t' = map (mark ids) t in (select (λ j. any_of ids j.id) t', t')
