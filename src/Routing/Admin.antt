-- ===== src/Routing/Admin.antt =====
-- The administration of rules in api/services/lead_routing_service.py. A call that raises leaves the
-- table as it was, since the session is rolled back. `accepts` is Pydantic's validation of the
-- conditions, by the model that parse_conditions of api/schemas/routing.py chooses.
pub mod Free
pub mod Slots
pub mod Renumbering
pub mod Flushing
pub mod Reordering
use templehe_consign.Store.{
  User, EquipmentRecord, StatusEvent, Watcher, NotificationPreference, CalendarEvent, AuditLog, Db,
  HttpError, http, user_id, record_id, event_id, preference_user, find_user, find_record, or_text,
  given, Texts, Via, by_email, by_sms, via_name, send,
}
use templehe_consign.Jobs.{
  NotificationJob, Jobs, JobKey, Message, Payload, no_payload, find_job, job_key, job_id, enqueue,
  is_channel, JobStatus, pending,
}
use templehe_consign.Status.{
  Status, new_request, appraiser_assigned, appraisal_scheduled, appraisal_complete, offer_ready,
  approved_pending_esign, esigned_pending_publish, listed, sold, declined, withdrawn, display_name,
  notifies_customer, notifies_sales_rep, is_terminal, is_forbidden_transition,
}
use templehe_consign.Table.{
  find, remove, update, insert_row, IsUnique, IsKeyed, find_key, find-remove_self, find-remove_ne,
  remove_absent, find-update_self, find-update_ne, find-update-none, update_absent,
  find-remove-none, remove-IsUnique, update-IsUnique, found_by_id, find-remove_by_none,
  remove_by-IsUnique, find-remove_by_id, find-remove_by_id_ne, insert_row_inv, insert_row-IsKeyed,
  find-update_by_none, update_by-IsUnique, find-update_by_id, find-update_by_id_ne, insert_row_free,
  insert_row_taken, find-cons_self, find-cons_ne, find-map-none, find-map-some, map-IsUnique,
  All-find, All-update,
}
use templehe_consign.Base.Result.{
  Result, ok, err, ◌>>=◌, ◌>>◌, require, or_raise, Result-cases, >>=-eq-ok,
}
use templehe_consign.Base.{
  ℕ, zero, suc, ◌+◌, ◌-◌, ◌*◌, ◌/◌, ◌%◌, ◌≤◌, ◌<◌, min, String, ◌≡◌, refl, sym, ap, subst, ◌∙◌, ◌≢◌,
  ◌↔◌, ◌⊎◌, inl, inr, Bool, true, false, not, ◌&&◌, ◌||◌, Option, none, some, List, [], ◌∷◌, ◌++◌,
  map, arith, ltb, leb, if◌then◌else◌, Eq, ◌==◌, nat_eq, string_eq, pair_eq, eq_refl, eq→≡, ≡→eq,
  ne→neq, Bool-cases, Option-cases, is_some, length, length-append, select, All, All-append,
  All-map, any_item, ltb→lt, leb→le, eq-cases, ids_eq, get_or, sort_by, All-sort_by,
  All-sort_by_inv, sort_with, All-sort_with, All-sort_with_inv, strip, ℤ, pos, negsuc, leb_int,
  int_eq,
}
use templehe_consign.Routing.{LeadRoutingRule, Rules, Conditions, rule_id}
use templehe_consign.Routing.DryRun.{get_rule}

-- _ALLOWED_RULE_TYPES
abbrev pub is_rule_type : String → Bool
is_rule_type t = (t == "ad_hoc") || (t == "geographic") || (t == "round_robin")

abbrev pub stands : LeadRoutingRule → Bool
stands r = not (is_some r.deleted_at)

-- A row that stands in the slot of a type and a priority.
abbrev pub takes : String → ℤ → LeadRoutingRule → Bool
takes rule_type priority r = (r.rule_type == rule_type) && ((r.priority == priority) && stands r)

abbrev pub is_other : Option ℕ → LeadRoutingRule → Bool
is_other none r = true
is_other (some i) r = not (r.id == i)

-- _check_priority_slot_free
unfoldable pub check_priority_slot_free :
    String → ℤ → Option ℕ → Rules → Result HttpError (Unit {0})
check_priority_slot_free rule_type priority excluding rules =
    elim (select (λ r. takes rule_type priority r && is_other excluding r) rules) [
      | [] ↦ ok tt
      | r ∷ rs ↦ err (http 409)
    ]

-- _require_sales_role
abbrev pub is_sales : String → Bool
is_sales s = (s == "sales") || (s == "sales_manager") || (s == "admin")

unfoldable pub require_sales_role : Option ℕ → List User → Result HttpError (Unit {0})
require_sales_role none users = ok tt
require_sales_role (some i) users = elim (find user_id i users) [
  | none ↦ err (http 422)
  | some u ↦ require (is_sales u.role_slug) (http 422)
]

-- The arguments of update_rule, where a flag says that the next one is given.
pub record RulePatch : Type 0 where
  pub set_priority : Bool
  pub new_priority : Option ℤ
  pub set_conditions : Bool
  pub new_conditions : Option Conditions
  pub set_assigned_user : Bool
  pub new_assigned_user : Option ℕ
  pub set_is_active : Bool
  pub new_is_active : Option Bool

-- The row after all the changes of a patch.
abbrev pub patched : RulePatch → LeadRoutingRule → LeadRoutingRule
patched p r = record r {
  priority = if p.set_priority then get_or p.new_priority r.priority else r.priority;
  conditions = if p.set_conditions then p.new_conditions else r.conditions;
  assigned_user_id = if p.set_assigned_user then p.new_assigned_user else r.assigned_user_id;
  is_active = if p.set_is_active then get_or p.new_is_active r.is_active else r.is_active;
}

-- The new priority has to be free, if it is another one.
abbrev pub check_move : LeadRoutingRule → LeadRoutingRule → Rules → Result HttpError (Unit {0})
check_move new r rules =
    if new.priority == r.priority
    then ok tt
    else check_priority_slot_free r.rule_type new.priority (some r.id) rules

abbrev pub deleted : ℕ → LeadRoutingRule → LeadRoutingRule
deleted clock r = record r { deleted_at = some clock; is_active = false }

unfoldable pub soft_delete_rule : ℕ → ℕ → Rules → Result HttpError (LeadRoutingRule × Rules)
soft_delete_rule clock i rules = do
  r ← get_rule i rules
  ok (deleted clock r, update rule_id i (deleted clock) rules)

module _ (accepts : String → Option Conditions → Bool) (users : List User) where
  abbrev pub new_rule : ℕ → ℕ → String → ℤ → Option Conditions → Option ℕ → Bool → LeadRoutingRule
  new_rule id creator rule_type priority conditions assigned_user_id is_active = record {
    id = id;
    rule_type = rule_type;
    priority = priority;
    conditions = conditions;
    assigned_user_id = assigned_user_id;
    round_robin_index = 0;
    is_active = is_active;
    created_by = some creator;
    deleted_at = none;
  }

  -- `id` is the UUID that the INSERT draws.
  unfoldable pub create_rule :
      ℕ
      → ℕ
      → String
      → ℤ
      → Option Conditions
      → Option ℕ
      → Bool
      → Rules
      → Result HttpError (LeadRoutingRule × Rules)
  create_rule id creator rule_type priority conditions assigned_user_id is_active rules = do
    require (is_rule_type rule_type) (http 422)
    require (accepts rule_type conditions) (http 422)
    require_sales_role assigned_user_id users
    check_priority_slot_free rule_type priority none rules
    let r = new_rule id creator rule_type priority conditions assigned_user_id is_active
    ok (r, r ∷ rules)

  abbrev pub check_patch : RulePatch → LeadRoutingRule → Rules → Result HttpError (Unit {0})
  check_patch p r rules = do
    check_move (patched p r) r rules
    require (not p.set_conditions || accepts r.rule_type p.new_conditions) (http 422)
    if p.set_assigned_user then require_sales_role p.new_assigned_user users else ok tt

  unfoldable pub update_rule : ℕ → RulePatch → Rules → Result HttpError (LeadRoutingRule × Rules)
  update_rule i p rules = do
    r ← get_rule i rules
    check_patch p r rules
    ok (patched p r, update rule_id i (patched p) rules)

-- Membership of an id, and the test that a list has no id twice.
abbrev pub has_id : ℕ → List ℕ → Bool
has_id i [] = false
has_id i (j ∷ js) = if i == j then true else has_id i js

abbrev pub no_duplicates : List ℕ → Bool
no_duplicates [] = true
no_duplicates (i ∷ is) = let rest = no_duplicates is in not (has_id i is) && rest

abbrev pub includes : List ℕ → List ℕ → Bool
includes is [] = true
includes is (j ∷ js) = has_id j is && includes is js

-- The rows that reorder_priorities locks.
abbrev pub in_bucket : String → LeadRoutingRule → Bool
in_bucket t r = (r.rule_type == t) && stands r

abbrev pub set_priority : ℤ → LeadRoutingRule → LeadRoutingRule
set_priority p r = record r { priority = p }

-- One phase: the ids get the priorities `f n`, `f (n + 1)`, … one by one.
unfoldable pub phase : (ℕ → ℤ) → ℕ → List ℕ → Rules → Rules
phase f n [] rules = rules
phase f n (i ∷ is) rules = phase f (suc n) is (update rule_id i (set_priority (f n)) rules)

-- The rows of a phase on their way to the database, one UPDATE each: a flush sends them by primary
-- key, not in the order of the list, so on the way the rows of any of the ids may be written.
abbrev pub partly : (ℕ → Bool) → (ℕ → ℤ) → ℕ → List ℕ → Rules → Rules
partly written f n [] rules = rules
partly written f n (i ∷ is) rules =
    partly written f (suc n) is
      (if written i then update rule_id i (set_priority (f n)) rules else rules)

-- The tables after each write of a phase, if they are sent in the order of the list.
abbrev pub writes : (ℕ → ℤ) → ℕ → List ℕ → Rules → List Rules
writes f n [] rules = []
writes f n (i ∷ is) rules =
    let next = update rule_id i (set_priority (f n)) rules in next ∷ writes f (suc n) is next

-- reorder_priorities: scratch priorities -1, -2, … first, and then the final ones.
unfoldable pub reorder_priorities : String → List ℕ → Rules → Result HttpError Rules
reorder_priorities t ids rules =
    let locked = map rule_id (select (in_bucket t) rules) in
    do
      require (is_rule_type t) (http 422)
      elim ids [
        | [] ↦ ok rules
        | i ∷ is ↦ do
          require (no_duplicates (i ∷ is)) (http 422)
          require (includes locked (i ∷ is) && includes (i ∷ is) locked) (http 422)
          ok (phase pos 0 (i ∷ is) (phase negsuc 0 (i ∷ is) rules))
      ]
