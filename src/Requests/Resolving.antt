-- ===== src/Requests/Resolving.antt =====
-- resolve_change_request of api/services/change_request_service.py.
use templehe_consign.Store.{
  User, EquipmentRecord, Db, HttpError, http, find_record, or_text, given, Texts, by_email, send,
}
use templehe_consign.Jobs.{JobKey}
use templehe_consign.Status.{withdrawn}
use templehe_consign.Table.{find, update}
use templehe_consign.Base.Result.{Result, ok, ◌>>=◌, ◌>>◌, require, or_raise}
use templehe_consign.Base.{
  ℕ, String, Bool, ◌&&◌, ◌||◌, Option, none, some, [], ◌∷◌, if◌then◌else◌, ◌==◌, nat_eq, string_eq,
  pair_eq, ids_eq, int_eq,
}
use Prim.Native.String.{◌++◌ as join}
use templehe_consign.Transition.{record_transition}
use templehe_consign.Requests.{
  ChangeRequest, Tables, change_id, concat, replace_newlines, clip, sanitize_plain, mail, ref_of,
}

abbrev pub is_resolution : String → Bool
is_resolution s = (s == "resolved") || (s == "rejected")

abbrev pub settled : String → Option String → ℕ → ℕ → ChangeRequest → ChangeRequest
settled new_status notes clock resolver c = record c {
  status = new_status;
  resolution_notes = notes;
  resolved_at = some clock;
  resolved_by = some resolver;
}

abbrev pub withdraws : String → ChangeRequest → Bool
withdraws new_status c = (new_status == "resolved") && (c.request_type == "withdraw")

abbrev pub withdraw : Texts → Bool → EquipmentRecord → ℕ → Option String → Db → Result HttpError Db
withdraw x leaves r resolver notes db =
    if leaves
    then record_transition x r withdrawn (some resolver)
        (some (clip 500 (or_text notes "Withdrawn via customer change request."))) r.customer_user
        none db
    else ok db

abbrev pub verb : String → String
verb new_status = if new_status == "resolved" then "resolved" else "declined"

abbrev pub notes_html : Option String → String
notes_html notes = elim (given notes) [
  | none ↦ ""
  | some s ↦ concat ("<p><strong>Notes:</strong><br>" ∷ replace_newlines "<br>" s ∷ "</p>" ∷ [])
]

abbrev pub customer_body : String → String → Option String → User → ChangeRequest → String
customer_body ref new_status notes customer c = concat (
    "<p>Hi "
    ∷ customer.first_name
    ∷ ",</p><p>Your <strong>"
    ∷ c.request_type
    ∷ "</strong> request on equipment record <strong>"
    ∷ ref
    ∷ "</strong> has been <strong>"
    ∷ verb new_status
    ∷ "</strong> by our sales team.</p>"
    ∷ notes_html notes
    ∷ "<p>— The Temple Heavy Equipment team</p>"
    ∷ [])

abbrev pub resolution_key : ℕ → String → JobKey
resolution_key change new_status = ("change_request_resolution", (change ∷ [], new_status))

unfoldable pub tell_resolution :
    Texts → User → EquipmentRecord → ChangeRequest → String → Option String → Db → Db
tell_resolution x customer r c new_status notes db =
    send by_email (resolution_key c.id new_status) (some customer.id)
      "customer_change_request_resolution"
      (mail customer.email
        (concat ("Your change request on " ∷ ref_of x r ∷ " was " ∷ verb new_status ∷ []))
        (customer_body (ref_of x r) new_status notes customer c))
      db

-- The entry without its after_state, which is of another form.
abbrev pub audit_resolution : User → String → ChangeRequest → String → Db → Db
audit_resolution resolver role c new_status db = record db {
  audit =
      record {
        event_type = join "change_request." new_status;
        actor_id = resolver.id;
        actor_role = role;
        target_type = "change_request";
        target_id = c.id;
        before_state = none;
        after_state = none;
      }
      ∷ db.audit;
}

-- A customer without an account has no user to write to: the AttributeError is a 500.
unfoldable pub resolve_change_request :
    Texts
    → (String → String)
    → ℕ
    → ℕ
    → User
    → String
    → String
    → Option String
    → Tables
    → Result HttpError Tables
resolve_change_request x clean clock change resolver role new_status notes t = do
  require (is_resolution new_status) (http 422)
  c ← or_raise (find change_id change t.changes) (http 404)
  require (c.status == "pending") (http 409)
  r ← or_raise (find_record c.equipment_record_id t.db) (http 500)
  let remark = sanitize_plain clean notes
  db ← withdraw x (withdraws new_status c) r resolver.id remark t.db
  customer ← or_raise r.customer_user (http 500)
  ok (record t {
    db =
        audit_resolution resolver role c new_status
          (tell_resolution x customer r c new_status remark db);
    changes = update change_id c.id (settled new_status remark clock resolver.id) t.changes;
  })
