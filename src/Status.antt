-- ===== src/Status.antt =====
-- The status registry of equipment records, api/services/equipment_status_machine.py. A `Status`
-- is a member of the StrEnum; the functions that the source declares on `str` take a text here too,
-- so the unknown slugs that they guard against are inputs of the model.
pub mod Names
pub mod Policy
use templehe_consign.Base.{
  Bool, true, false, Option, none, some, List, [], ◌∷◌, map, String, ◌==◌, ◌&&◌, string_eq,
  if◌then◌else◌,
}

pub data Status : Type 0 where
  new_request appraiser_assigned appraisal_scheduled appraisal_complete offer_ready : Status
  approved_pending_esign esigned_pending_publish listed sold declined withdrawn : Status

-- `Status.X.value`
abbrev pub value : Status → String
value new_request = "new_request"
value appraiser_assigned = "appraiser_assigned"
value appraisal_scheduled = "appraisal_scheduled"
value appraisal_complete = "appraisal_complete"
value offer_ready = "offer_ready"
value approved_pending_esign = "approved_pending_esign"
value esigned_pending_publish = "esigned_pending_publish"
value listed = "listed"
value sold = "sold"
value declined = "declined"
value withdrawn = "withdrawn"

-- The members in the order of their definition, as `for s in Status` runs through them.
abbrev pub members : List Status
members =
    new_request ∷ appraiser_assigned ∷ appraisal_scheduled ∷ appraisal_complete ∷ offer_ready
    ∷ approved_pending_esign ∷ esigned_pending_publish ∷ listed ∷ sold ∷ declined ∷ withdrawn ∷ []

pub record StatusMeta : Type 0 where
  pub display : String
  pub notifies_customer : Bool
  pub notifies_sales_rep : Bool
  pub is_terminal : Bool

abbrev silent : String → StatusMeta
silent d = record {
  display = d;
  notifies_customer = false;
  notifies_sales_rep = false;
  is_terminal = false;
}

abbrev for_customer : String → StatusMeta
for_customer d = record (silent d) { notifies_customer = true }

abbrev for_sales_rep : String → StatusMeta
for_sales_rep d = record (silent d) { notifies_sales_rep = true }

-- `_REGISTRY`
abbrev pub registry : Status → StatusMeta
registry new_request = silent "New request received"
registry appraiser_assigned = silent "An appraiser has been assigned"
registry appraisal_scheduled = for_customer "An appraisal has been scheduled"
registry appraisal_complete = for_customer "Your appraisal is complete"
registry offer_ready = for_customer "Your offer is ready to review"
registry approved_pending_esign = for_sales_rep "Approved — ready for eSign"
registry esigned_pending_publish = for_sales_rep "Signed — ready to publish"
registry listed = for_customer "Your equipment is now listed"
registry sold = record (for_customer "Your equipment has sold") { is_terminal = true }
registry declined = record (for_customer "Your submission has been declined") { is_terminal = true }
registry withdrawn = record (silent "Your submission has been withdrawn") { is_terminal = true }

-- `FORBIDDEN_TRANSITIONS`
abbrev pub forbidden_transitions : List (String × String)
forbidden_transitions =
    (value sold, value new_request)
    ∷ (value declined, value new_request)
    ∷ (value sold, value listed)
    ∷ (value sold, value appraisal_scheduled)
    ∷ []

unfoldable pub all_status_values : List String
all_status_values = map value members

abbrev pub contains : String → List String → Bool
contains s [] = false
contains s (v ∷ vs) = if s == v then true else contains s vs

unfoldable pub is_known : String → Bool
unfolding all_status_values
is_known s = contains s all_status_values

abbrev pub member_with : String → List Status → Option Status
member_with s [] = none
member_with s (m ∷ ms) = if s == value m then some m else member_with s ms

-- `Status(status)`; `none` is the ValueError.
unfoldable pub of_value : String → Option Status
of_value s = member_with s members

-- Every member has a row in the registry, so the KeyError never comes up.
abbrev pub meta : String → Option StatusMeta
meta s = elim (of_value s) [ none ↦ none | some m ↦ some (registry m) ]

unfoldable pub display_name : String → String
display_name s = elim (meta s) [ none ↦ s | some m ↦ m.display ]

unfoldable pub notifies_customer : String → Bool
notifies_customer s = elim (meta s) [ none ↦ false | some m ↦ m.notifies_customer ]

unfoldable pub notifies_sales_rep : String → Bool
notifies_sales_rep s = elim (meta s) [ none ↦ false | some m ↦ m.notifies_sales_rep ]

unfoldable pub is_terminal : String → Bool
is_terminal s = elim (meta s) [ none ↦ false | some m ↦ m.is_terminal ]

abbrev pub contains_pair : String → String → List (String × String) → Bool
contains_pair a b [] = false
contains_pair a b ((x, y) ∷ es) = if (a == x) && (b == y) then true else contains_pair a b es

unfoldable pub is_forbidden_transition : String → String → Bool
is_forbidden_transition from to = contains_pair from to forbidden_transitions
