-- ===== src/Roles.antt =====
-- The roles of users, api/services/user_roles_service.py: the primary role in `users.role_id`, and
-- the join table `user_roles`, which is to mirror it. A `User` object of the session is its row of
-- the table, so the calls take the row; a call that raises leaves the tables alone.
pub mod Mirror
pub mod Grants
use templehe_consign.Store.{
  User, EquipmentRecord, StatusEvent, Watcher, NotificationPreference, CalendarEvent, AuditLog, Db,
  HttpError, http, record_id, event_id, preference_user, find_user, find_record, or_text, given,
  Texts, Via, by_email, by_sms, via_name, send,
}
use templehe_consign.Jobs.{
  NotificationJob, Jobs, JobKey, Message, Payload, no_payload, find_job, job_key, job_id, enqueue,
  is_channel, JobStatus, pending,
}
use templehe_consign.Status.{
  Status, value, new_request, appraiser_assigned, appraisal_scheduled, appraisal_complete,
  offer_ready, approved_pending_esign, esigned_pending_publish, listed, sold, declined, withdrawn,
  display_name, notifies_customer, notifies_sales_rep, is_terminal, is_forbidden_transition,
}
use templehe_consign.Table.{
  find, remove, update, insert_row, IsUnique, IsKeyed, find_key, find-remove_self, find-remove_ne,
  remove_absent, find-update_self, find-update_ne, find-update-none, update_absent,
  find-remove-none, remove-IsUnique, update-IsUnique, found_by_id, find-remove_by_none,
  remove_by-IsUnique, find-remove_by_id, find-remove_by_id_ne, insert_row_inv, insert_row-IsKeyed,
  find-update_by_none, update_by-IsUnique, find-update_by_id, find-update_by_id_ne, insert_row_free,
  insert_row_taken, find-cons_self, find-cons_ne,
}
use templehe_consign.Base.Result.{
  Result, ok, err, ◌>>=◌, ◌>>◌, require, or_raise, Result-cases, >>=-eq-ok,
}
use templehe_consign.Base.{
  ℕ, zero, suc, ◌+◌, ◌-◌, ◌*◌, ◌/◌, ◌%◌, ◌≤◌, ◌<◌, min, String, ◌≡◌, refl, sym, ap, subst, ◌∙◌, ◌≢◌,
  ◌↔◌, ◌⊎◌, inl, inr, Bool, true, false, not, ◌&&◌, ◌||◌, Option, none, some, List, [], ◌∷◌, ◌++◌,
  map, arith, ltb, leb, if◌then◌else◌, Eq, ◌==◌, nat_eq, string_eq, pair_eq, eq_refl, eq→≡, ≡→eq,
  ne→neq, Bool-cases, Option-cases, is_some, length, length-append, select, All, All-append, ltb→lt,
  leb→le, eq-cases, ids_eq, get_or, sort_by, All-sort_by, All-sort_by_inv, strip,
}

pub record Role : Type 0 where
  pub id : ℕ
  pub slug : String

-- The columns of `users` that the service uses.
pub record Account : Type 0 where
  pub id : ℕ
  pub role_id : ℕ

pub record UserRole : Type 0 where
  pub user_id : ℕ
  pub role_id : ℕ
  pub granted_by : Option ℕ

pub record RoleTables : Type 0 where
  pub roles : List Role
  pub accounts : List Account
  pub user_roles : List UserRole

abbrev pub slug : Role → String
slug r = r.slug

abbrev pub role_key : Role → ℕ
role_key r = r.id

abbrev pub account_id : Account → ℕ
account_id u = u.id

-- The unique pair (user_id, role_id).
abbrev pub grant_key : UserRole → ℕ × ℕ
grant_key g = (g.user_id, g.role_id)

abbrev pub find_grant : ℕ → ℕ → RoleTables → Option UserRole
find_grant user role db = find grant_key (user, role) db.user_roles

abbrev pub find_account : ℕ → RoleTables → Option Account
find_account i db = find account_id i db.accounts

-- _resolve_role_id
abbrev pub resolve_role : String → RoleTables → Result HttpError Role
resolve_role s db = or_raise (find slug s db.roles) (http 404)

-- role_slugs_for_user: the slugs of the roles that the join finds.
unfoldable pub slugs_of : List UserRole → ℕ → List Role → List String
slugs_of gs user [] = []
slugs_of gs user (r ∷ rs) =
    let rest = slugs_of gs user rs in
    if is_some (find grant_key (user, r.id) gs) then r.slug ∷ rest else rest

unfoldable pub role_slugs_for_user : ℕ → RoleTables → List String
role_slugs_for_user user db = slugs_of db.user_roles user db.roles

-- INSERT … ON CONFLICT (user_id, role_id) DO NOTHING
unfoldable pub add_grant : ℕ → ℕ → Option ℕ → RoleTables → RoleTables
add_grant user role granted_by db = elim (find_grant user role db) [
  | some old ↦ db
  | none ↦ record db {
    user_roles = record { user_id = user; role_id = role; granted_by = granted_by } ∷ db.user_roles;
  }
]

unfoldable pub grant : Account → String → Option ℕ → RoleTables → Result HttpError RoleTables
grant user role_slug granted_by db = do
  role ← resolve_role role_slug db
  ok (add_grant user.id role.id granted_by db)

unfoldable pub revoke : Account → String → RoleTables → Result HttpError RoleTables
revoke user role_slug db = do
  role ← resolve_role role_slug db
  require (not (role.id == user.role_id)) (http 409)
  elim (find_grant user.id role.id db) [
    | none ↦ ok db
    | some row ↦ ok (record db { user_roles = remove grant_key (grant_key row) db.user_roles })
  ]

abbrev pub set_role : ℕ → ℕ → RoleTables → RoleTables
set_role user role db = record db {
  accounts = update account_id user (λ u. record u { role_id = role }) db.accounts;
}

unfoldable pub set_primary_role :
    Account → String → Option ℕ → RoleTables → Result HttpError RoleTables
set_primary_role user role_slug granted_by db = do
  role ← resolve_role role_slug db
  grant (record user { role_id = role.id }) role_slug granted_by (set_role user.id role.id db)
