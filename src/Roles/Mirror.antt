-- ===== src/Roles/Mirror.antt =====
-- The mirror invariant that the docstring of api/services/user_roles_service.py states, and the
-- calls that it runs through.
use templehe_consign.Store.{HttpError}
use templehe_consign.Table.{
  find, remove, update, IsUnique, find_key, find-remove_ne, update-IsUnique, find-cons_self,
  find-cons_ne,
}
use templehe_consign.Base.Result.{Result, ok, err}
use templehe_consign.Base.{
  ℕ, String, ◌≡◌, refl, sym, ap, subst, ◌∙◌, ◌≢◌, inl, inr, Option, none, some, List, [], ◌∷◌,
  arith, nat_eq, string_eq, pair_eq, ≡→eq, ne→neq, Option-cases, All, All-map, eq-cases, ids_eq,
  int_eq,
}
use templehe_consign.Roles.{
  set_role, slug, set_primary_role, revoke, grant_key, account_id, grant, add_grant, Account,
  find_account, RoleTables, find_grant,
}

-- Every user's primary role has its row in the join table.
abbrev pub Mirrors : RoleTables → Type 0
Mirrors db = All (λ u. find_grant u.id u.role_id db ≢ none) db.accounts

-- What a call that raises leaves: the session is rolled back.
abbrev pub settled : RoleTables → Result HttpError RoleTables → RoleTables
settled db (ok db') = db'
settled db (err e) = db

pub data RoleCall : Type 0 where
  grants : String → Option ℕ → RoleCall
  revokes : String → RoleCall
  promotes : String → Option ℕ → RoleCall

abbrev pub call_on : Account → RoleCall → RoleTables → Result HttpError RoleTables
call_on u (grants s by) db = grant u s by db
call_on u (revokes s) db = revoke u s db
call_on u (promotes s by) db = set_primary_role u s by db

-- A call for the user of an id, whose row the caller has loaded.
unfoldable pub perform : ℕ → RoleCall → RoleTables → RoleTables
perform i c db = elim (find_account i db) [ none ↦ db | some u ↦ settled db (call_on u c db) ]

unfoldable pub perform_all : List (ℕ × RoleCall) → RoleTables → RoleTables
perform_all [] db = db
perform_all ((i, c) ∷ cs) db = perform_all cs (perform i c db)

module _ (user role : ℕ) (by : Option ℕ) (db : RoleTables) where
  pub add_grant_found : find_grant user role (add_grant user role by db) ≢ none
  unfolding add_grant
  add_grant_found h = elim (Option-cases (find_grant user role db)) [
    | inr (g, f) ↦ ground arith
    | inl f ↦ ground (
      arith,
      find-cons_self grant_key (record { user_id = user; role_id = role; granted_by = by })
          db.user_roles,
    )
  ]

  pub add_grant_keeps :
      (v s : ℕ) → find_grant v s db ≢ none → find_grant v s (add_grant user role by db) ≢ none
  unfolding add_grant
  add_grant_keeps v s n h = elim (Option-cases (find_grant user role db)) [
    | inr (g, f) ↦ ground arith
    | inl f ↦ elim (eq-cases {A = ℕ × ℕ} (v, s) (user, role)) [
      | inl e ↦ ground (
        arith,
        find-cons_self grant_key (record { user_id = user; role_id = role; granted_by = by })
            db.user_roles,
      )
      | inr ne ↦ ground (
        arith,
        find-cons_ne grant_key (v, s) (record { user_id = user; role_id = role; granted_by = by })
            db.user_roles ne,
      )
    ]
  ]

  pub add_grant_accounts : (add_grant user role by db).accounts ≡ db.accounts
  unfolding add_grant
  add_grant_accounts = elim (Option-cases (find_grant user role db)) [
    | inr (g, f) ↦ ground arith
    | inl f ↦ ground arith
  ]

add_grant-Mirrors :
    (user role : ℕ) (by : Option ℕ) (db : RoleTables)
    → Mirrors db
    → Mirrors (add_grant user role by db)
add_grant-Mirrors user role by db m =
    subst (All (λ u. find_grant u.id u.role_id (add_grant user role by db) ≢ none))
      (sym (add_grant_accounts user role by db))
      (All-map db.accounts (λ u. add_grant_keeps user role by db u.id u.role_id) m)

absent :
    (i : ℕ) (user : Account) (us : List Account)
    → find account_id i us ≡ none
    → All (λ u. u.id ≡ i → u ≡ user) us
absent i user [] h = tt
absent i user (u ∷ us) h = elim (eq-cases i u.id) [
  | inl e ↦ absurd (ground arith)
  | inr n ↦ (λ p. absurd (n (sym p)), absent i user us (ground arith))
]

-- The row of an id is the only one.
pub only_row :
    (us : List Account) (i : ℕ) {user : Account}
    → IsUnique account_id us
    → find account_id i us ≡ some user
    → All (λ u. u.id ≡ i → u ≡ user) us
only_row [] i v f = tt
only_row (u ∷ us) i {user} v f = elim (eq-cases i u.id) [
  | inl e ↦ (λ p. ground arith, absent i user us (ap (λ k. find account_id k us) e ∙ v.0))
  | inr n ↦ (λ p. absurd (n (sym p)), only_row us i v.1 (ground arith))
]

revoked-Mirrors :
    (db : RoleTables) (us : List Account) (i role : ℕ) (user : Account)
    → role ≢ user.role_id
    → All (λ u. u.id ≡ i → u ≡ user) us
    → All (λ u. find_grant u.id u.role_id db ≢ none) us
    → All
        (λ u. find grant_key (u.id, u.role_id) (remove grant_key (i, role) db.user_roles) ≢ none)
        us
revoked-Mirrors db [] i role user n o m = tt
revoked-Mirrors db (u ∷ us) i role user n o m = (
  λ h. m.0 (
      sym (
        find-remove_ne grant_key (u.id, u.role_id) (i, role) db.user_roles
          (λ e. n (
            let id : u.id ≡ i = ap (λ k. k.0) e in
            let r : u.role_id ≡ role = ap (λ k. k.1) e in sym r ∙ ap (λ y. y.role_id) (o.0 id))))
      ∙ h),
  revoked-Mirrors db us i role user n o.1 m.1,
)

-- The rows after a change of one primary role.
promoted-Mirrors :
    (db : RoleTables) (us : List Account) (user role : ℕ) (by : Option ℕ)
    → All (λ u. find_grant u.id u.role_id db ≢ none) us
    → All
        (λ u. find_grant u.id u.role_id (add_grant user role by db) ≢ none)
        (update account_id user (λ u. record u { role_id = role }) us)
promoted-Mirrors db [] user role by m = tt
promoted-Mirrors db (u ∷ us) user role by m = elim (eq-cases user u.id) [
  | inl e ↦ rw (≡→eq user u.id e) (
    subst (λ k. find_grant k role (add_grant user role by db) ≢ none) e
        (add_grant_found user role by db),
    promoted-Mirrors db us user role by m.1,
  )
  | inr n ↦
      rw (ne→neq user u.id n) (
        add_grant_keeps user role by db u.id u.role_id m.0,
        promoted-Mirrors db us user role by m.1,
      )
]

-- The ids of the users are unique, and the primary roles are mirrored.
abbrev pub IsMirrored : RoleTables → Type 0
IsMirrored db = IsUnique account_id db.accounts × Mirrors db

grant-IsMirrored :
    (u : Account) (s : String) (by : Option ℕ) (db : RoleTables)
    → IsMirrored db
    → IsMirrored (settled db (grant u s by db))
unfolding grant
grant-IsMirrored u s by db (v, m) = elim (Option-cases (find slug s db.roles)) [
  | inl e ↦ rw e (v, m)
  | inr (r, e) ↦ rw e (
    subst (IsUnique account_id) (sym (add_grant_accounts u.id r.id by db)) v,
    add_grant-Mirrors u.id r.id by db m,
  )
]

revoke-IsMirrored :
    (i : ℕ) (u : Account) (s : String) (db : RoleTables)
    → find_account i db ≡ some u
    → IsMirrored db
    → IsMirrored (settled db (revoke u s db))
unfolding revoke
revoke-IsMirrored i u s db f (v, m) = elim (Option-cases (find slug s db.roles)) [
  | inl e ↦ rw e (v, m)
  | inr (r, e) ↦ elim (eq-cases r.id u.role_id) [
    | inl p ↦ rw (e, ≡→eq r.id u.role_id p) (v, m)
    | inr n ↦ elim (Option-cases (find_grant u.id r.id db)) [
      | inl g ↦ rw (e, ne→neq r.id u.role_id n, g) (v, m)
      | inr (row, g) ↦
          rw (e, ne→neq r.id u.role_id n, g)
            (
              v,
              (subst
                  (λ k.
                    All
                      (λ w.
                        find grant_key (w.id, w.role_id) (remove grant_key k db.user_roles) ≢ none)
                      db.accounts)
                  (sym (find_key grant_key (u.id, r.id) db.user_roles g))
                  (revoked-Mirrors db db.accounts u.id r.id u n
                    (only_row db.accounts u.id v (
                      subst (λ k. find account_id k db.accounts ≡ some u)
                        (sym (find_key account_id i db.accounts f)) f))
                    m)),
            )
    ]
  ]
]

promote-IsMirrored :
    (u : Account) (s : String) (by : Option ℕ) (db : RoleTables)
    → IsMirrored db
    → IsMirrored (settled db (set_primary_role u s by db))
unfolding set_primary_role grant
promote-IsMirrored u s by db (v, m) = elim (Option-cases (find slug s db.roles)) [
  | inl e ↦ rw e (v, m)
  | inr (r, e) ↦ rw e (
    subst (IsUnique account_id) (sym (add_grant_accounts u.id r.id by (set_role u.id r.id db))) (
        update-IsUnique account_id u.id (λ y. record y { role_id = r.id }) db.accounts (λ y. refl)
          v),
    subst
        (All
          (λ w. find_grant w.id w.role_id (add_grant u.id r.id by (set_role u.id r.id db)) ≢ none))
        (sym (add_grant_accounts u.id r.id by (set_role u.id r.id db)))
        (promoted-Mirrors (set_role u.id r.id db) db.accounts u.id r.id by m),
  )
]

perform-IsMirrored :
    (i : ℕ) (c : RoleCall) (db : RoleTables) → IsMirrored db → IsMirrored (perform i c db)
unfolding perform
perform-IsMirrored i c db h = elim (Option-cases (find_account i db)) [
  | inl e ↦ rw (e, perform) h
  | inr (u, e) ↦ rw (e, perform) (go c u e)
]
  where
    go :
        (k : RoleCall) (u : Account)
        → find_account i db ≡ some u
        → IsMirrored (settled db (call_on u k db))
    go (grants s by) u e = grant-IsMirrored u s by db h
    go (revokes s) u e = revoke-IsMirrored i u s db e h
    go (promotes s by) u e = promote-IsMirrored u s by db h

-- If the users' ids are unique and every user's primary role has its row in the join table, then
-- this is so after any sequence of grants, revocations and changes of the primary role, whichever
-- of the calls raise.
pub perform_all-IsMirrored :
    (cs : List (ℕ × RoleCall)) (db : RoleTables) → IsMirrored db → IsMirrored (perform_all cs db)
unfolding perform_all
perform_all-IsMirrored [] db h = h
perform_all-IsMirrored ((i, c) ∷ cs) db h =
    perform_all-IsMirrored cs (perform i c db) (perform-IsMirrored i c db h)
