-- ===== src/Requests/Submitting.antt =====
-- submit_change_request of api/services/change_request_service.py. `ops_email` is the setting
-- sales_ops_email.
use templehe_consign.Store.{
  User, EquipmentRecord, Db, HttpError, http, find_user, or_text, given, Texts, by_email, send,
}
use templehe_consign.Table.{find}
use templehe_consign.Base.Result.{Result, ok, ◌>>=◌, ◌>>◌, require}
use templehe_consign.Base.{
  ℕ, String, Bool, false, not, ◌&&◌, Option, none, some, List, [], ◌∷◌, if◌then◌else◌, ◌==◌, nat_eq,
  string_eq, pair_eq, is_some, any_item, ids_eq, strip, int_eq,
}
use templehe_consign.Requests.{
  ChangeRequest, Tables, change_id, is_request_type, concat, replace_newlines, clip, sanitize_plain,
  mail, ref_of,
}
use templehe_consign.Requests.Prices.{Percent, evaluate}

-- The partial unique index on the pending requests of a record.
abbrev pub is_pending_for : ℕ → ChangeRequest → Bool
is_pending_for rid c = (c.equipment_record_id == rid) && (c.status == "pending")

-- The INSERT; both constraints answer with an IntegrityError, for which the service raises 409.
unfoldable pub insert_change :
    ChangeRequest → List ChangeRequest → Result HttpError (List ChangeRequest)
insert_change c changes = do
  require (not (is_some (find change_id c.id changes))) (http 409)
  require (not (any_item (is_pending_for c.equipment_record_id) changes)) (http 409)
  ok (c ∷ changes)

abbrev pub new_change : ℕ → ℕ → String → Option String → Option ℕ → ChangeRequest
new_change id rid request_type notes price = record {
  id = id;
  equipment_record_id = rid;
  request_type = request_type;
  customer_notes = notes;
  status = "pending";
  resolution_notes = none;
  requires_manager_reapproval = false;
  proposed_consignment_price = price;
  resolved_at = none;
  resolved_by = none;
}

abbrev pub rep_email : Option ℕ → Db → Option String
rep_email none db = none
rep_email (some rep) db = elim (find_user rep db) [
  | none ↦ none
  | some u ↦ if u.status == "active" then some u.email else none
]

abbrev pub recipient : String → EquipmentRecord → Db → Option String
recipient ops_email r db = elim (rep_email r.assigned_sales_rep_id db) [
  | none ↦ given (some (strip ops_email))
  | some email ↦ some email
]

abbrev pub sales_body : String → User → ChangeRequest → String
sales_body ref customer c = concat (
    "<p>Customer "
    ∷ customer.email
    ∷ " submitted a change request on equipment record <strong>"
    ∷ ref
    ∷ "</strong>.</p><p>Type: <strong>"
    ∷ c.request_type
    ∷ "</strong></p><p>Notes: "
    ∷ or_text (some (clip 200 (replace_newlines " " (or_text c.customer_notes "")))) "(none)"
    ∷ "</p><p>Open the sales console to review and respond.</p>"
    ∷ [])

-- _notify_sales
unfoldable pub notify_sales : Texts → String → User → EquipmentRecord → ChangeRequest → Db → Db
notify_sales x ops_email customer r c db = elim (recipient ops_email r db) [
  | none ↦ db
  | some email ↦
      send by_email ("change_request", (c.id ∷ [], "")) r.assigned_sales_rep_id
        "sales_change_request"
        (mail email (concat ("Change request on " ∷ ref_of x r ∷ ": " ∷ c.request_type ∷ []))
          (sales_body (ref_of x r) customer c))
        db
]

-- The row of the request and the tables after the call; `id` is the UUID that the INSERT draws.
unfoldable pub submit_change_request :
    Texts
    → (String → String)
    → String
    → Percent
    → ℕ
    → User
    → EquipmentRecord
    → String
    → Option String
    → Option ℕ
    → Tables
    → Result HttpError Tables
submit_change_request x clean ops_email p id customer r request_type notes price t = do
  require (is_request_type request_type) (http 422)
  let c = new_change id r.id request_type (sanitize_plain clean notes) price
  changes ← insert_change c t.changes
  t1 ← evaluate p c (record t { changes = changes })
  ok (record t1 { db = notify_sales x ops_email customer r c t1.db })
