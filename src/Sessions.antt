-- ===== src/Sessions.antt =====
-- Refresh tokens, api/services/session_service.py over the table user_sessions. SHA-256 is the
-- parameter `sha256_hex`; a token that `secrets` draws and the row's UUID are arguments, and so is
-- the clock at each place that reads it. `none` in place of a result is an IntegrityError, after
-- which the session is rolled back. The column created_at is left out.
pub mod Rows
pub mod Calls
pub mod Spending
pub mod Rotation
pub mod Closing
use templehe_consign.Store.{
  User, EquipmentRecord, StatusEvent, Watcher, NotificationPreference, CalendarEvent, AuditLog, Db,
  HttpError, http, user_id, record_id, event_id, preference_user, find_user, find_record, or_text,
  given, Texts, Via, by_email, by_sms, via_name, send,
}
use templehe_consign.Jobs.{
  NotificationJob, Jobs, JobKey, Message, Payload, no_payload, find_job, job_key, job_id, enqueue,
  is_channel, JobStatus, pending,
}
use templehe_consign.Status.{
  Status, new_request, appraiser_assigned, appraisal_scheduled, appraisal_complete, offer_ready,
  approved_pending_esign, esigned_pending_publish, listed, sold, declined, withdrawn, display_name,
  notifies_customer, notifies_sales_rep, is_terminal, is_forbidden_transition,
}
use templehe_consign.Table.{
  find, remove, update, insert_row, IsUnique, IsKeyed, find_key, find-remove_self, find-remove_ne,
  remove_absent, find-update_self, find-update_ne, find-update-none, update_absent,
  find-remove-none, remove-IsUnique, update-IsUnique, found_by_id, find-remove_by_none,
  remove_by-IsUnique, find-remove_by_id, find-remove_by_id_ne, insert_row_inv, insert_row-IsKeyed,
  find-update_by_none, update_by-IsUnique, find-update_by_id, find-update_by_id_ne, insert_row_free,
  insert_row_taken, find-cons_self, find-cons_ne, find-map-none, find-map-some, map-IsUnique,
}
use templehe_consign.Base.Result.{
  Result, ok, err, ◌>>=◌, ◌>>◌, require, or_raise, Result-cases, >>=-eq-ok,
}
use templehe_consign.Base.{
  ℕ, zero, suc, ◌+◌, ◌-◌, ◌*◌, ◌/◌, ◌%◌, ◌≤◌, ◌<◌, min, String, ◌≡◌, refl, sym, ap, subst, ◌∙◌, ◌≢◌,
  ◌↔◌, ◌⊎◌, inl, inr, Bool, true, false, not, ◌&&◌, ◌||◌, Option, none, some, List, [], ◌∷◌, ◌++◌,
  map, arith, ltb, leb, if◌then◌else◌, Eq, ◌==◌, nat_eq, string_eq, pair_eq, eq_refl, eq→≡, ≡→eq,
  ne→neq, Bool-cases, Option-cases, is_some, length, length-append, select, All, All-append,
  All-map, ltb→lt, leb→le, eq-cases, ids_eq, get_or, sort_by, All-sort_by, All-sort_by_inv,
  sort_with, All-sort_with, All-sort_with_inv, strip, ℤ, pos, negsuc, leb_int, int_eq,
}

pub record UserSession : Type 0 where
  pub id : ℕ
  pub user_id : ℕ
  pub token_hash : String
  pub expires_at : ℕ
  pub revoked_at : Option ℕ
  pub ip_address : Option String
  pub user_agent : Option String

abbrev pub Sessions : Type 0
Sessions = List UserSession

abbrev pub session_id : UserSession → ℕ
session_id s = s.id

abbrev pub session_hash : UserSession → String
session_hash s = s.token_hash

-- What is drawn for a new session, and where the request comes from.
pub record Draw : Type 0 where
  pub id : ℕ
  pub raw_token : String
  pub ip_address : Option String
  pub user_agent : Option String

-- The conditions of the query besides the hash.
abbrev pub is_usable : ℕ → UserSession → Bool
is_usable now s = not (is_some s.revoked_at) && ltb now s.expires_at

abbrev pub revoked : ℕ → UserSession → UserSession
revoked now s = record s { revoked_at = some now }

-- Revokes a row that is not revoked yet.
abbrev pub revoke_open : ℕ → UserSession → UserSession
revoke_open now s = if is_some s.revoked_at then s else revoked now s

-- timedelta(days=…) in microseconds
abbrev pub days_long : ℕ → ℕ
days_long days = days * 86400000000

unfoldable pub revoke_all_for_user : ℕ → ℕ → Sessions → Sessions
revoke_all_for_user user now t = map (λ s. if s.user_id == user then revoke_open now s else s) t

-- The answer of a rotation once the new token is there.
abbrev pub rotated : ℕ → Option (String × Sessions) → Option (Option (ℕ × String) × Sessions)
rotated user none = none
rotated user (some (token, t)) = some (some (user, token), t)

-- The calls of the services on sessions: a login, a refresh, a logout, and a password reset or a
-- change of the account.
pub data Call : Type 0 where
  login : (user now : ℕ) (draw : Draw) → Call
  refresh : (raw : String) (now later : ℕ) (draw : Draw) → Call
  logout : (raw : String) (now : ℕ) → Call
  revoke_all : (user now : ℕ) → Call

abbrev pub after_issue : Sessions → Option (String × Sessions) → Sessions
after_issue t none = t
after_issue t (some (token, t')) = t'

abbrev pub after_rotation : Sessions → Option (Option (ℕ × String) × Sessions) → Sessions
after_rotation t none = t
after_rotation t (some (answer, t')) = t'

unfoldable pub revoke_token : (String → String) → String → ℕ → Sessions → Sessions
revoke_token sha256_hex raw now t = elim (find session_hash (sha256_hex raw) t) [
  | none ↦ t
  | some s ↦ if is_some s.revoked_at then t else update session_id s.id (revoked now) t
]

module _ (sha256_hex : String → String) (refresh_token_expire_days : ℕ) where
  abbrev pub new_session : ℕ → ℕ → Draw → UserSession
  new_session user now draw = record {
    id = draw.id;
    user_id = user;
    token_hash = sha256_hex draw.raw_token;
    expires_at = now + days_long refresh_token_expire_days;
    revoked_at = none;
    ip_address = draw.ip_address;
    user_agent = draw.user_agent;
  }

  unfoldable pub issue_refresh_token : ℕ → ℕ → Draw → Sessions → Option (String × Sessions)
  issue_refresh_token user now draw t =
      elim (insert_row session_hash session_id (new_session user now draw) t) [
        | none ↦ none
        | some t' ↦ some (draw.raw_token, t')
      ]

  -- `now` is read before the query, `later` by issue_refresh_token.
  unfoldable pub validate_and_rotate :
      String → ℕ → ℕ → Draw → Sessions → Option (Option (ℕ × String) × Sessions)
  validate_and_rotate raw now later draw t = elim (find session_hash (sha256_hex raw) t) [
    | none ↦ some (none, t)
    | some s ↦
        if is_usable now s
        then rotated s.user_id
            (issue_refresh_token s.user_id later draw (update session_id s.id (revoked now) t))
        else some (none, t)
  ]

  abbrev pub perform : Call → Sessions → Sessions
  perform (login user now draw) t = after_issue t (issue_refresh_token user now draw t)
  perform (refresh raw now later draw) t =
      after_rotation t (validate_and_rotate raw now later draw t)
  perform (logout raw now) t = revoke_token sha256_hex raw now t
  perform (revoke_all user now) t = revoke_all_for_user user now t

  abbrev pub perform_all : List Call → Sessions → Sessions
  perform_all [] t = t
  perform_all (c ∷ cs) t = perform_all cs (perform c t)
