-- ===== src/Tests/RecordRuns.antt =====
-- A record with a customer, and the moves of its status.
use templehe_consign.Status.{
  value, new_request, appraisal_scheduled, notifies_customer, notifies_sales_rep, is_terminal,
  is_forbidden_transition, of_value, all_status_values, is_known,
}
use templehe_consign.Transition.{
  sales_rep_template_name, fan_out_raises, record_transition, fan_out, apply_status, email_key,
}
use templehe_consign.Base.{
  ℕ, ◌+◌, ◌≡◌, refl, ◌≢◌, Bool, true, false, Option, none, some, [], ◌∷◌, nat_eq, string_eq,
  pair_eq, ids_eq, int_eq,
}
use templehe_consign.Store.{User, EquipmentRecord, Db, find_record, Texts}
use templehe_consign.Base.Result.{ok}
use templehe_consign.Status.Policy.{is_forbidden_transition-is_terminal}
use templehe_consign.Store.Growth.{Grows}
use templehe_consign.Transition.Outcome.{record_transition_effect}
use templehe_consign.Watchers.{add_watcher, add_row, remove_watcher}
use templehe_consign.Watchers.Additions.{add_watcher_lem}
use templehe_consign.Transition.History.{customer_hears}
use templehe_consign.Jobs.{find_job}

abbrev pub texts : Texts
texts = record {
  fails = λ template values. false;
  subject = λ template values. some template;
  body = λ template values. template;
  show_uuid = λ i. "00000000";
  isoformat = λ t. "2026-01-01T00:00:00+00:00";
}

abbrev pub customer : User
customer = record {
  id = 1;
  email = "c@d.e";
  first_name = "Ann";
  role_slug = "customer";
  status = "active";
}

abbrev pub appraiser : User
appraiser = record {
  id = 2;
  email = "f@g.h";
  first_name = "Bob";
  role_slug = "appraiser";
  status = "active";
}

abbrev pub truck : EquipmentRecord
truck = record {
  id = 7;
  customer_user = some customer;
  status = new_request;
  reference_number = some "THE-1";
  customer_make = some "CAT";
  customer_model = none;
  customer_location_text = some "Tulsa";
  assigned_sales_rep_id = none;
  deleted_at = none;
}

abbrev pub start : Db
start = record {
  users = customer ∷ appraiser ∷ [];
  records = truck ∷ [];
  status_events = [];
  watchers = [];
  preferences = [];
  calendar = [];
  jobs = [];
  audit = [];
  uuids = λ n. n + 100;
  drawn = 0;
  now = 5000;
}

abbrev moved : Option Bool → Db → Db
moved notify_override db =
    fan_out texts truck appraisal_scheduled none (some customer) notify_override
      (apply_status texts truck appraisal_scheduled (some 1) none db)

abbrev unrendered_move : Bool
unrendered_move =
    fan_out_raises texts truck appraisal_scheduled none (some customer) none
      (apply_status texts truck appraisal_scheduled (some 1) none start)

returns :
    record_transition texts truck appraisal_scheduled (some 1) none (some customer) none start
    ≡ ok (moved none start)
unfolding record_transition is_forbidden_transition fan_out_raises notifies_customer
    notifies_sales_rep of_value sales_rep_template_name apply_status
returns = refl

record_transition_effect_example :
    (find_record 7 (moved none start) ≡ some (record truck { status = appraisal_scheduled }))
    × ((i : ℕ) → i ≢ 7 → find_record i (moved none start) ≡ find_record i start)
    × ((moved none start).status_events
        ≡ record {
          equipment_record_id = 7;
          from_status = new_request;
          to_status = appraisal_scheduled;
          changed_by = some 1;
          note = none;
        }
          ∷ [])
    × ((moved none start).calendar ≡ [])
    × ((moved none start).audit ≡ [])
    × Grows [] (moved none start).jobs
record_transition_effect_example =
    record_transition_effect texts truck appraisal_scheduled (some 1) none (some customer) none
      start refl returns

heard : notifies_customer (value appraisal_scheduled) ≡ true
unfolding notifies_customer of_value
heard = refl

customer_hears_example : find_job (email_key 7 appraisal_scheduled) (moved none start).jobs ≢ none
customer_hears_example =
    customer_hears texts truck appraisal_scheduled (some 1) none start customer heard returns

unknown : is_known "archived" ≡ false
unfolding is_known all_status_values
unknown = refl

forbids : is_forbidden_transition "sold" "listed" ≡ true
unfolding is_forbidden_transition
forbids = refl

is_forbidden_transition-is_terminal_example :
    (is_terminal "sold" ≡ true) × (is_terminal "listed" ≡ false)
is_forbidden_transition-is_terminal_example =
    is_forbidden_transition-is_terminal "sold" "listed" forbids

abbrev watched : Db
watched = record start { watchers = record { record_id = 7; user_id = 2; added_by = some 1 } ∷ [] }

adds :
    add_watcher 7 2 (some 1) start
    ≡ ok (record { record_id = 7; user_id = 2; added_by = some 1 }, watched)
unfolding add_watcher add_row
adds = refl

add_watcher_lem_example :
    (add_watcher 7 2 none watched
      ≡ ok (record { record_id = 7; user_id = 2; added_by = some 1 }, watched))
    × (remove_watcher 7 2 watched ≡ (true, start))
add_watcher_lem_example = add_watcher_lem 7 2 (some 1) none start adds
