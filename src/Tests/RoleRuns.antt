-- ===== src/Tests/RoleRuns.antt =====
-- A sales rep who becomes an appraiser.
use templehe_consign.Roles.{revoke, find_grant, Role, Account, RoleTables, grant, add_grant}
use templehe_consign.Roles.Grants.{revoke_lem}
use templehe_consign.Base.{
  ℕ, ◌≡◌, refl, ◌≢◌, none, some, List, [], ◌∷◌, arith, nat_eq, string_eq, pair_eq, ids_eq, int_eq,
}
use templehe_consign.Base.Result.{ok}
use templehe_consign.Roles.Mirror.{
  IsMirrored, RoleCall, grants, revokes, promotes, perform_all, perform_all-IsMirrored,
}

abbrev sales : Role
sales = record { id = 1; slug = "sales" }

abbrev appraiser_role : Role
appraiser_role = record { id = 2; slug = "appraiser" }

abbrev ann : Account
ann = record { id = 5; role_id = 1 }

abbrev tables : RoleTables
tables = record {
  roles = sales ∷ appraiser_role ∷ [];
  accounts = ann ∷ [];
  user_roles = record { user_id = 5; role_id = 1; granted_by = none } ∷ [];
}

abbrev calls : List (ℕ × RoleCall)
calls =
    (5, grants "appraiser" (some 9))
    ∷ (5, revokes "sales")
    ∷ (5, promotes "appraiser" none)
    ∷ (5, revokes "sales")
    ∷ []

perform_all-IsMirrored_example : IsMirrored (perform_all calls tables)
perform_all-IsMirrored_example =
    perform_all-IsMirrored calls tables ((refl, tt), ((λ h. ground arith), tt))

abbrev granted : RoleTables
granted = record tables {
  user_roles = record { user_id = 5; role_id = 2; granted_by = some 9 } ∷ tables.user_roles;
}

given_role : grant ann "appraiser" (some 9) tables ≡ ok granted
unfolding grant add_grant
given_role = refl

revoke_lem_example :
    (db' : RoleTables) × (revoke ann "appraiser" granted ≡ ok db')
    × (find_grant 5 2 db' ≡ none)
    × ((v s : ℕ) → ◌≢◌ {A = ℕ × ℕ} (v, s) (5, 2) → find_grant v s db' ≡ find_grant v s granted)
revoke_lem_example = (revoke_lem ann appraiser_role granted refl).1 (λ e. omega (arith, e))
