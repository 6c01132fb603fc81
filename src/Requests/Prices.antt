-- ===== src/Requests/Prices.antt =====
-- evaluate of api/services/price_change_service.py: whether a proposed price needs a manager.
use templehe_consign.Store.{User, Db, HttpError, http, by_email, send}
use templehe_consign.Jobs.{no_payload}
use templehe_consign.Table.{update}
use templehe_consign.Base.Result.{Result, ok, err, ◌>>=◌}
use templehe_consign.Base.{
  ℕ, Bool, true, not, ◌&&◌, Option, none, some, List, [], ◌∷◌, if◌then◌else◌, ◌==◌, nat_eq,
  string_eq, pair_eq, select, any_item, ids_eq, int_eq,
}
use templehe_consign.Roles.{UserRole}
use templehe_consign.Requests.{ChangeRequest, AppraisalSubmission, Tables, change_id}

-- Floating-point arithmetic, with the threshold as app_config_registry returns it.
pub record Percent : Type 1 where
  pub Float : Type 0
  pub of_price : ℕ → Float
  pub sub : Float → Float → Float
  pub abs : Float → Float
  pub div : Float → Float → Float
  pub mul : Float → Float → Float
  pub hundred : Float
  pub le : Float → Float → Bool
  pub threshold : Float

abbrev pub change_pct : (p : Percent) → ℕ → ℕ → p.Float
change_pct p approved proposed =
    let a = p.of_price approved in p.mul (p.div (p.abs (p.sub (p.of_price proposed) a)) a) p.hundred

abbrev pub is_approved_for : ℕ → AppraisalSubmission → Bool
is_approved_for rid s = (s.equipment_record_id == rid) && (s.status == "approved")

-- `scalar_one_or_none`; several rows raise MultipleResultsFound, which the API answers with a 500.
abbrev pub one_or_none : {A : Type 0} → List A → Result HttpError (Option A)
one_or_none [] = ok none
one_or_none (a ∷ []) = ok (some a)
one_or_none (a ∷ b ∷ rest) = err (http 500)

-- The active users with the role of sales managers.
abbrev pub has_role : ℕ → ℕ → List UserRole → Bool
has_role user role grants = any_item (λ g. (g.user_id == user) && (g.role_id == role)) grants

unfoldable pub managers : Tables → List User
managers t = elim (select (λ r. r.slug == "sales_manager") t.roles) [
  | [] ↦ []
  | role ∷ roles ↦
      select (λ u. has_role u.id role.id t.user_roles && (u.status == "active")) t.db.users
]

-- The loop of _notify_managers. The mail has an address only, neither subject nor body.
unfoldable pub notify_each : ℕ → List User → Db → Db
notify_each change [] db = db
notify_each change (u ∷ us) db = notify_each change us (
    send by_email ("price_change_reapproval", (change ∷ u.id ∷ [], "")) (some u.id)
      "manager_price_change_reapproval" (record no_payload { to_email = some u.email }) db)

abbrev pub flagged : ChangeRequest → ChangeRequest
flagged c = record c { requires_manager_reapproval = true }

-- The price that was approved, if there is one to compare with.
abbrev pub comparable : Option AppraisalSubmission → Option ℕ
comparable none = none
comparable (some s) = elim s.suggested_consignment_price [
  | none ↦ none
  | some price ↦ if price == 0 then none else some price
]

module _ (p : Percent) where
  abbrev pub exceeds : ℕ → ℕ → Bool
  exceeds approved proposed = not (p.le (change_pct p approved proposed) p.threshold)

  abbrev pub require_manager : ChangeRequest → Tables → Tables
  require_manager c t = record t {
    db = notify_each c.id (managers t) t.db;
    changes = update change_id c.id flagged t.changes;
  }

  abbrev pub compare_price : ChangeRequest → ℕ → Option ℕ → Tables → Tables
  compare_price c proposed none t = t
  compare_price c proposed (some approved) t =
      if exceeds approved proposed then require_manager c t else t

  unfoldable pub evaluate : ChangeRequest → Tables → Result HttpError Tables
  evaluate c t = elim c.proposed_consignment_price [
    | none ↦ ok t
    | some proposed ↦ do
      submission ← one_or_none (select (is_approved_for c.equipment_record_id) t.submissions)
      ok (compare_price c proposed (comparable submission) t)
  ]
