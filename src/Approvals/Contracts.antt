-- ===== src/Approvals/Contracts.antt =====
-- dispatch_contract of api/services/esign_service.py. `envelope` is the answer of the signing
-- service to create_envelope, with the document that the code hands to it left out; `none` is an
-- exception. The columns of a contract that nothing here reads are left out.
use templehe_consign.Store.{User, EquipmentRecord, Db, HttpError, http, by_email, send}
use templehe_consign.Jobs.{no_payload}
use templehe_consign.Table.{find, update}
use templehe_consign.Base.Result.{Result, ok, err, ◌>>=◌}
use templehe_consign.Base.{
  ℕ, String, Bool, false, not, Option, none, some, List, [], ◌∷◌, if◌then◌else◌, ◌==◌, nat_eq,
  string_eq, pair_eq, select, ids_eq, int_eq,
}
use templehe_consign.Requests.{AppraisalSubmission}
use templehe_consign.Requests.Prices.{one_or_none, is_approved_for}

pub record ConsignmentContract : Type 0 where
  pub equipment_record_id : ℕ
  pub envelope_id : Option String
  pub status : String
  pub signed_at : Option ℕ

abbrev pub Contracts : Type 0
Contracts = List ConsignmentContract

abbrev pub contract_record : ConsignmentContract → ℕ
contract_record c = c.equipment_record_id

abbrev pub sent : ℕ → String → ConsignmentContract
sent rid envelope = record {
  equipment_record_id = rid;
  envelope_id = some envelope;
  status = "sent";
  signed_at = none;
}

abbrev pub resent : String → ConsignmentContract → ConsignmentContract
resent envelope c = record c { envelope_id = some envelope; status = "sent"; signed_at = none }

-- The row of a new envelope: that of a declined contract is used again.
abbrev pub write_contract : ℕ → String → Option ConsignmentContract → Contracts → Contracts
write_contract rid envelope none cs = sent rid envelope ∷ cs
write_contract rid envelope (some c) cs = update contract_record rid (resent envelope) cs

abbrev pub stands : Option ConsignmentContract → Bool
stands none = false
stands (some c) = not (c.status == "declined")

-- The mail, whose payload has an address, but neither subject nor body.
unfoldable pub send_contract :
    EquipmentRecord
    → Option ConsignmentContract
    → Option String
    → User
    → Contracts
    → Db
    → Result HttpError (Contracts × Db)
send_contract r old none customer cs db = err (http 500)
send_contract r old (some envelope) customer cs db = ok (
  write_contract r.id envelope old cs,
  send by_email ("esign_dispatch", ([], envelope)) (some customer.id) "customer_esign_ready"
      (record no_payload { to_email = some customer.email }) db,
)

abbrev pub send_to :
    EquipmentRecord
    → Option ConsignmentContract
    → Option String
    → Option AppraisalSubmission
    → Contracts
    → Db
    → Result HttpError (Contracts × Db)
send_to r old envelope none cs db = ok (cs, db)
send_to r old envelope (some s) cs db = elim r.customer_user [
  | none ↦ ok (cs, db)
  | some customer ↦ send_contract r old envelope customer cs db
]

unfoldable pub dispatch_contract :
    EquipmentRecord
    → Option String
    → List AppraisalSubmission
    → Contracts
    → Db
    → Result HttpError (Contracts × Db)
dispatch_contract r envelope submissions cs db =
    let old = find contract_record r.id cs in
    if stands old then ok (cs, db) else do
      s ← one_or_none (select (is_approved_for r.id) submissions)
      send_to r old envelope s cs db
