-- ===== src/Store/Growth.antt =====
-- What sending a message leaves alone in the tables that the record services share.
use templehe_consign.Table.{find-cons_ne}
use templehe_consign.Base.{
  ℕ, String, ◌≡◌, refl, ◌∙◌, ◌≢◌, inl, inr, true, Option, none, some, arith, nat_eq, string_eq,
  pair_eq, Option-cases, eq-cases, ids_eq, get_or,
}
use templehe_consign.Store.{by_email, by_sms, message, Db, Via, via_name, send}
use templehe_consign.Jobs.{
  NotificationJob, Jobs, JobKey, Message, Payload, find_job, job_key, enqueue, is_channel, new_job,
}
use templehe_consign.Jobs.Enqueue.{queue, enqueue_frame, enqueue_present}

-- The jobs of one queue stand in another.
abbrev pub Grows : Jobs → Jobs → Type 0
Grows t t' = (k : JobKey) (j : NotificationJob) → find_job k t ≡ some j → find_job k t' ≡ some j

pub Grows-refl : (t : Jobs) → Grows t t
Grows-refl t k j h = h

pub Grows-trans : (t u v : Jobs) → Grows t u → Grows u v → Grows t v
Grows-trans t u v p q k j h = q k j (p k j h)

email_is_channel : is_channel "email" ≡ true
unfolding is_channel
email_is_channel = refl

sms_is_channel : is_channel "sms" ≡ true
unfolding is_channel
sms_is_channel = refl

-- The literal channels of the services are known to the queue.
pub via_name-is_channel : (via : Via) → is_channel (via_name via) ≡ true
via_name-is_channel by_email = email_is_channel
via_name-is_channel by_sms = sms_is_channel

enqueue-Grows :
    (id now : ℕ) (at : Option ℕ) (m : Message) (t : Jobs)
    → Grows t (queue t (enqueue id now at m t))
unfolding enqueue
enqueue-Grows id now at m t k j h = elim (Option-cases (find_job m.key t)) [
  | inr (old, f) ↦ ground arith
  | inl f ↦ elim (eq-cases k m.key) [
    | inl e ↦ absurd (ground arith)
    | inr n ↦ ground (arith, find-cons_ne job_key k (new_job id (get_or at now) m) t n)
  ]
]

module _ (via : Via) (key : JobKey) (user : Option ℕ) (template : String) (p : Payload)
    (db : Db) where
  pub send-Grows : Grows db.jobs (send via key user template p db).jobs
  unfolding send
  send-Grows =
      enqueue-Grows (db.uuids db.drawn) db.now none (message via key user template p) db.jobs

  -- After sending there is a job under the key.
  pub send_present : find_job key (send via key user template p db).jobs ≢ none
  unfolding send
  send_present =
      enqueue_present (db.uuids db.drawn) db.now none (message via key user template p) db.jobs
        (via_name-is_channel via)

  -- No job is added under any other key.
  pub send_frame :
      (k : JobKey)
      → k ≢ key
      → find_job k (send via key user template p db).jobs ≡ find_job k db.jobs
  unfolding send
  send_frame k n =
      enqueue_frame k (db.uuids db.drawn) db.now none (message via key user template p) db.jobs n

-- Everything but the queue is as it was, and the queue has at most grown.
pub record Sends (db db' : Db) : Type 0 where
  pub same_users : db'.users ≡ db.users
  pub same_records : db'.records ≡ db.records
  pub same_events : db'.status_events ≡ db.status_events
  pub same_watchers : db'.watchers ≡ db.watchers
  pub same_preferences : db'.preferences ≡ db.preferences
  pub same_calendar : db'.calendar ≡ db.calendar
  pub same_audit : db'.audit ≡ db.audit
  pub grown : Grows db.jobs db'.jobs

pub Sends-refl : (db : Db) → Sends db db
Sends-refl db = record {
  same_users = refl;
  same_records = refl;
  same_events = refl;
  same_watchers = refl;
  same_preferences = refl;
  same_calendar = refl;
  same_audit = refl;
  grown = Grows-refl db.jobs;
}

pub Sends-trans : {a b c : Db} → Sends a b → Sends b c → Sends a c
Sends-trans {a} {b} {c} p q = record {
  same_users = q.same_users ∙ p.same_users;
  same_records = q.same_records ∙ p.same_records;
  same_events = q.same_events ∙ p.same_events;
  same_watchers = q.same_watchers ∙ p.same_watchers;
  same_preferences = q.same_preferences ∙ p.same_preferences;
  same_calendar = q.same_calendar ∙ p.same_calendar;
  same_audit = q.same_audit ∙ p.same_audit;
  grown = Grows-trans a.jobs b.jobs c.jobs p.grown q.grown;
}

pub send-Sends :
    (via : Via) (key : JobKey) (user : Option ℕ) (template : String) (p : Payload) (db : Db)
    → Sends db (send via key user template p db)
unfolding send
send-Sends via key user template p db = record {
  same_users = refl;
  same_records = refl;
  same_events = refl;
  same_watchers = refl;
  same_preferences = refl;
  same_calendar = refl;
  same_audit = refl;
  grown = send-Grows via key user template p db;
}
