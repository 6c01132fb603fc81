-- ===== src/Valuation/RedFlags.antt =====
-- The evaluator of red flags, api/services/red_flag_service.py. A rating and the notes are JSON
-- values, since an action may put any value there.
pub mod Outcome
pub mod Rating
use templehe_consign.Store.{
  User, EquipmentRecord, StatusEvent, Watcher, NotificationPreference, CalendarEvent, AuditLog, Db,
  HttpError, http, user_id, record_id, event_id, preference_user, find_user, find_record, or_text,
  given, Texts, Via, by_email, by_sms, via_name, send,
}
use templehe_consign.Jobs.{
  NotificationJob, Jobs, JobKey, Message, Payload, no_payload, find_job, job_key, job_id, enqueue,
  is_channel, JobStatus, pending,
}
use templehe_consign.Status.{
  Status, new_request, appraiser_assigned, appraisal_scheduled, appraisal_complete, offer_ready,
  approved_pending_esign, esigned_pending_publish, listed, sold, declined, withdrawn, display_name,
  notifies_customer, notifies_sales_rep, is_terminal, is_forbidden_transition,
}
use templehe_consign.Table.{
  find, remove, update, insert_row, IsUnique, IsKeyed, find_key, find-remove_self, find-remove_ne,
  remove_absent, find-update_self, find-update_ne, find-update-none, update_absent,
  find-remove-none, remove-IsUnique, update-IsUnique, found_by_id, find-remove_by_none,
  remove_by-IsUnique, find-remove_by_id, find-remove_by_id_ne, insert_row_inv, insert_row-IsKeyed,
  find-update_by_none, update_by-IsUnique, find-update_by_id, find-update_by_id_ne, insert_row_free,
  insert_row_taken, find-cons_self, find-cons_ne, find-map-none, find-map-some, map-IsUnique,
  All-find, All-update,
}
use templehe_consign.Base.Result.{
  Result, ok, err, ◌>>=◌, ◌>>◌, require, or_raise, Result-cases, >>=-eq-ok,
}
use templehe_consign.Base.{
  ℕ, zero, suc, ◌+◌, ◌-◌, ◌*◌, ◌/◌, ◌%◌, ◌≤◌, ◌<◌, min, String, ◌≡◌, refl, sym, ap, subst, ◌∙◌, ◌≢◌,
  ◌↔◌, ◌⊎◌, inl, inr, Bool, true, false, not, ◌&&◌, ◌||◌, Option, none, some, List, [], ◌∷◌, ◌++◌,
  map, arith, ltb, leb, if◌then◌else◌, Eq, ◌==◌, nat_eq, string_eq, pair_eq, eq_refl, eq→≡, ≡→eq,
  ne→neq, Bool-cases, Option-cases, is_some, length, length-append, select, All, All-append,
  All-map, ltb→lt, leb→le, eq-cases, ids_eq, get_or, sort_by, All-sort_by, All-sort_by_inv,
  sort_with, All-sort_with, All-sort_with_inv, strip, ℤ, pos, negsuc, leb_int, int_eq,
}
use templehe_consign.Json.{
  Scalar, text, other, Json, null, value, array, object, get, is_truthy, shown_scalar, shown,
  is_text,
}
use Prim.Native.String.{◌++◌ as join}

pub record RuleSpec : Type 0 where
  pub id : String
  pub condition_field : String
  pub condition_operator : String
  pub condition_value : Option String
  pub actions : List (String × Json)

pub record RedFlagResult : Type 0 where
  pub management_review_required : Bool
  pub hold_for_title_review : Bool
  pub marketability_rating : Json
  pub review_notes : Json
  pub triggered_rules : List String

abbrev pub Fields : Type 0
Fields = List (String × Json)

-- `actions.get`
abbrev pub action : String → RuleSpec → Json
action k r = get_or (get k r.actions) null

-- `str(rule.condition_value)`
abbrev pub shown_value : Option String → String
shown_value none = "None"
shown_value (some s) = s

abbrev pub holds : RuleSpec → Json → Bool
holds r v =
    if r.condition_operator == "is_true"
    then is_truthy v
    else if r.condition_operator == "is_false"
    then not (is_truthy v)
    else if r.condition_operator == "equals"
    then shown v == shown_value r.condition_value
    else false

unfoldable pub condition_matches : RuleSpec → Fields → Bool
condition_matches r fields = elim (get r.condition_field fields) [
  | none ↦ false
  | some v ↦ holds r v
]

-- _downgrade: the next one of _MARKETABILITY_BANDS, and of anything else the last one.
unfoldable pub downgrade : Json → Json
downgrade v =
    if is_text v "Fast Sell"
    then value (text "Average")
    else if is_text v "Average"
    then value (text "Slow Sell")
    else value (text "Salvage Risk")

abbrev pub asks_review : RuleSpec → Bool
asks_review r =
    is_truthy (action "set_management_review_required" r)
    || is_text (action "flag" r) "management_review"

abbrev pub asks_hold : RuleSpec → Bool
asks_hold r = is_truthy (action "hold_for_title_review" r)

abbrev pub downgrades : RuleSpec → Bool
downgrades r = is_truthy (action "downgrade_marketability" r)

abbrev pub forces : RuleSpec → Bool
forces r = is_truthy (action "set_marketability" r)

abbrev pub rate : RuleSpec → Json → Json
rate r rating =
    if forces r
    then action "set_marketability" r
    else if downgrades r
    then downgrade rating
    else rating

abbrev pub annotate : RuleSpec → Json → Json
annotate r notes =
    let added = action "append_review_note" r in
    if is_truthy added
    then if is_truthy notes
      then value (text (join (shown notes) (join "\n" (shown added))))
      else added
    else notes

-- _apply_actions
unfoldable pub apply_actions : RuleSpec → RedFlagResult → RedFlagResult
apply_actions r result = record {
  management_review_required = if asks_review r then true else result.management_review_required;
  hold_for_title_review = if asks_hold r then true else result.hold_for_title_review;
  marketability_rating = rate r result.marketability_rating;
  review_notes = annotate r result.review_notes;
  triggered_rules = result.triggered_rules ++ r.id ∷ [];
}

-- The loop over the rules.
unfoldable pub apply_rules : List RuleSpec → Fields → RedFlagResult → RedFlagResult
apply_rules [] fields result = result
apply_rules (r ∷ rs) fields result =
    apply_rules rs fields (if condition_matches r fields then apply_actions r result else result)

abbrev pub untouched : Json → Json → RedFlagResult
untouched rating notes = record {
  management_review_required = false;
  hold_for_title_review = false;
  marketability_rating = rating;
  review_notes = notes;
  triggered_rules = [];
}

unfoldable pub evaluate_rules : List RuleSpec → Fields → Json → Json → RedFlagResult
evaluate_rules rules fields rating notes = apply_rules rules fields (untouched rating notes)

-- evaluate: the rules of the category of a submission that are in force, and the columns of the
-- submission that conditions may name.
pub record CategoryRedFlagRule : Type 0 where
  pub category_id : ℕ
  pub rule : RuleSpec
  pub active : Bool
  pub replaced_at : Option ℕ

pub record Submission : Type 0 where
  pub category_id : Option ℕ
  pub running_status : Option String
  pub title_status : Option String
  pub hours_condition : Option String
  pub marketability_rating : Option String
  pub serial_number : Option String
  pub review_notes : Option String

abbrev pub column : Option String → Json
column none = null
column (some s) = value (text s)

-- _extract_fields
abbrev pub extract_fields : Submission → Fields
extract_fields s =
    ("running_status", column s.running_status)
    ∷ ("title_status", column s.title_status)
    ∷ ("hours_condition", column s.hours_condition)
    ∷ ("marketability_rating", column s.marketability_rating)
    ∷ ("serial_number", column s.serial_number)
    ∷ []

abbrev in_force : ℕ → CategoryRedFlagRule → Bool
in_force c r = (r.category_id == c) && (not (is_some r.replaced_at) && r.active)

abbrev pub rules_of : Submission → List CategoryRedFlagRule → List RuleSpec
rules_of s rules = elim s.category_id [
  | none ↦ []
  | some c ↦ map (λ r. r.rule) (select (in_force c) rules)
]

unfoldable pub evaluate : List CategoryRedFlagRule → Submission → RedFlagResult
evaluate rules s =
    evaluate_rules (rules_of s rules) (extract_fields s) (column s.marketability_rating)
      (column s.review_notes)
