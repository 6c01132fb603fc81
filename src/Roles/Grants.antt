-- ===== src/Roles/Grants.antt =====
-- What each call of api/services/user_roles_service.py does for the user that it names.
use templehe_consign.Store.{http}
use templehe_consign.Table.{
  find, remove, find_key, find-remove_self, find-remove_ne, find-update_self,
}
use templehe_consign.Base.Result.{ok, err}
use templehe_consign.Base.{
  ℕ, String, ◌≡◌, refl, ap, subst, ◌∙◌, ◌≢◌, inl, inr, true, Option, none, some, List, [], ◌∷◌,
  arith, nat_eq, string_eq, pair_eq, ≡→eq, ne→neq, Option-cases, eq-cases, ids_eq,
}
use templehe_consign.Roles.{
  UserRole, slugs_of, role_slugs_for_user, Role, Account, RoleTables, account_id, grant_key,
  find_grant, find_account, slug, add_grant, grant, revoke, set_role, set_primary_role,
}
use templehe_consign.Status.{contains}
use templehe_consign.Roles.Mirror.{add_grant_found, add_grant_accounts}

-- The primary role is refused.
revoke_primary :
    (u : Account) (r : Role) (db : RoleTables)
    → find slug r.slug db.roles ≡ some r
    → r.id ≡ u.role_id
    → revoke u r.slug db ≡ err (http 409)
unfolding revoke
revoke_primary u r db f p = rw (f, ≡→eq r.id u.role_id p) refl

-- Any other role is taken away.
revoke_other :
    (u : Account) (r : Role) (db : RoleTables)
    → find slug r.slug db.roles ≡ some r
    → r.id ≢ u.role_id
    → (db' : RoleTables) × (revoke u r.slug db ≡ ok db')
      × (find_grant u.id r.id db' ≡ none)
      × ((v s : ℕ) → ◌≢◌ {A = ℕ × ℕ} (v, s) (u.id, r.id) → find_grant v s db' ≡ find_grant v s db)
unfolding revoke
revoke_other u r db f n = elim (Option-cases (find_grant u.id r.id db)) [
  | inl g ↦ (db, rw (f, ne→neq r.id u.role_id n, g) refl, g, λ v s m. refl)
  | inr (row, g) ↦ (
    record db { user_roles = remove grant_key (grant_key row) db.user_roles },
    rw (f, ne→neq r.id u.role_id n, g) refl,
    subst (λ k. find grant_key k (remove grant_key (grant_key row) db.user_roles) ≡ none)
        (find_key grant_key (u.id, r.id) db.user_roles g)
        (find-remove_self grant_key (grant_key row) db.user_roles),
    λ v s m.
        find-remove_ne grant_key (v, s) (grant_key row) db.user_roles
          (λ e. m (e ∙ find_key grant_key (u.id, r.id) db.user_roles g)),
  )
]

-- Revoking a role that exists raises 409 if it is the user's primary role. Otherwise it returns, the
-- user does not hold the role, and every other grant is as it was.
pub revoke_lem :
    (u : Account) (r : Role) (db : RoleTables)
    → find slug r.slug db.roles ≡ some r
    → (r.id ≡ u.role_id → revoke u r.slug db ≡ err (http 409))
      × (r.id ≢ u.role_id
          → (db' : RoleTables) × (revoke u r.slug db ≡ ok db')
            × (find_grant u.id r.id db' ≡ none)
            × ((v s : ℕ)
                → ◌≢◌ {A = ℕ × ℕ} (v, s) (u.id, r.id)
                → find_grant v s db' ≡ find_grant v s db))
revoke_lem u r db f = (revoke_primary u r db f, revoke_other u r db f)

-- Making a role that exists primary, for a user that is in the table as loaded, returns;
-- afterwards it is the user's primary role and the user holds it.
pub set_primary_role_lem :
    (u : Account) (r : Role) (by : Option ℕ) (db : RoleTables)
    → find slug r.slug db.roles ≡ some r
    → find_account u.id db ≡ some u
    → (db' : RoleTables) × (set_primary_role u r.slug by db ≡ ok db')
      × (find_account u.id db' ≡ some (record u { role_id = r.id }))
      × (find_grant u.id r.id db' ≢ none)
unfolding set_primary_role grant
set_primary_role_lem u r by db f a = (
  add_grant u.id r.id by (set_role u.id r.id db),
  rw f refl,
  ap (find account_id u.id) (add_grant_accounts u.id r.id by (set_role u.id r.id db))
      ∙ find-update_self account_id u.id (λ y. record y { role_id = r.id }) db.accounts (λ y. refl)
          a,
  add_grant_found u.id r.id by (set_role u.id r.id db),
)

-- The slugs of a user's roles have that of every role that is granted.
slugs_of-held :
    (gs : List UserRole) (user : ℕ) (s : String) (rs : List Role) {r : Role}
    → find slug s rs ≡ some r
    → find grant_key (user, r.id) gs ≢ none
    → contains s (slugs_of gs user rs) ≡ true
unfolding slugs_of
slugs_of-held gs user s [] f n = absurd (ground arith)
slugs_of-held gs user s (q ∷ rs) {r} f n = elim (eq-cases s q.slug) [
  | inl e ↦ elim (Option-cases (find grant_key (user, q.id) gs)) [
    | inl g ↦ absurd (
        n (
          subst (λ y. find grant_key (user, y.id) gs ≡ none) {x = q} {y = r}
            (let t = ≡→eq s q.slug e in ground (arith, t)) g))
    | inr (h, g) ↦ rw (g, ≡→eq s q.slug e) refl
  ]
  | inr m ↦
      (let rest : contains s (slugs_of gs user rs) ≡ true =
          slugs_of-held gs user s rs {r = r} (let t = ne→neq s q.slug m in ground (arith, t)) n in
        elim (Option-cases (find grant_key (user, q.id) gs)) [
          | inl g ↦ rw g rest
          | inr (h, g) ↦ rw (g, ne→neq s q.slug m) rest
        ])
]

add_grant_again :
    (user role : ℕ) (by again : Option ℕ) (db : RoleTables)
    → find_grant user role db ≢ none
    → add_grant user role again db ≡ db
unfolding add_grant
add_grant_again user role by again db n = elim (Option-cases (find_grant user role db)) [
  | inl g ↦ absurd (n g)
  | inr (h, g) ↦ ground arith
]

add_grant_roles :
    (user role : ℕ) (by : Option ℕ) (db : RoleTables) → (add_grant user role by db).roles ≡ db.roles
unfolding add_grant
add_grant_roles user role by db = elim (Option-cases (find_grant user role db)) [
  | inl g ↦ ground arith
  | inr (h, g) ↦ ground arith
]

no_role :
    (u : Account) (s : String) (by : Option ℕ) (db : RoleTables)
    → find slug s db.roles ≡ none
    → grant u s by db ≡ err (http 404)
unfolding grant
no_role u s by db f = rw f refl

grant_found :
    (u : Account) (s : String) (by : Option ℕ) (db : RoleTables) {r : Role}
    → find slug s db.roles ≡ some r
    → grant u s by db ≡ ok (add_grant u.id r.id by db)
unfolding grant
grant_found u s by db f = rw f refl

-- A grant that returns has given the user the role: its slug is among those of the user's roles, and
-- granting it again changes nothing.
pub grant_lem :
    (u : Account) (s : String) (by again : Option ℕ) (db : RoleTables) {db' : RoleTables}
    → grant u s by db ≡ ok db'
    → (contains s (role_slugs_for_user u.id db') ≡ true) × (grant u s again db' ≡ ok db')
unfolding role_slugs_for_user
grant_lem u s by again db {db'} h = elim (Option-cases (find slug s db.roles)) [
  | inl e ↦ absurd (let gone = no_role u s by db e in ground arith)
  | inr (r, e) ↦
      (let same : add_grant u.id r.id by db ≡ db' =
          (let both = grant_found u s by db e in ground arith) in
        let roles = add_grant_roles u.id r.id by db in
        let held = add_grant_found u.id r.id by db in
        subst (λ d. (contains s (role_slugs_for_user u.id d) ≡ true) × (grant u s again d ≡ ok d))
          same
          (
            slugs_of-held (add_grant u.id r.id by db).user_roles u.id s
                (add_grant u.id r.id by db).roles (ap (find slug s) roles ∙ e) held,
            grant_found u s again (add_grant u.id r.id by db) (ap (find slug s) roles ∙ e)
                ∙ ap ok (add_grant_again u.id r.id by again (add_grant u.id r.id by db) held),
          ))
]
