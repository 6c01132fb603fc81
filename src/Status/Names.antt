-- ===== src/Status/Names.antt =====
-- The texts of api/services/equipment_status_machine.py that stand for statuses, and its queries
-- on texts that stand for none.
use templehe_consign.Base.{
  ◌≡◌, refl, map, is_some, Option-cases, ap, false, none, some, List, [], ◌∷◌, String, arith,
  string_eq, inl, inr, eq→≡,
}
use templehe_consign.Status.{
  Status, new_request, value, members, member_with, of_value, is_known, display_name, contains,
  notifies_customer, notifies_sales_rep, is_terminal,
}

-- Reading the text of a status gives that status back.
pub of_value-value : (s : Status) → of_value (value s) ≡ some s
unfolding of_value
of_value-value new_request = refl
of_value-value _ = refl

value-member_with :
    (t : String) (s : Status) (ms : List Status) → member_with t ms ≡ some s → value s ≡ t
value-member_with t s [] h = cc
value-member_with t s (m ∷ ms) h = ground (arith, value-member_with t s ms, eq→≡ t (value m))

-- A text that is read as a status is the text of that status.
pub value-of_value : (t : String) (s : Status) → of_value t ≡ some s → value s ≡ t
unfolding of_value
value-of_value t s h = value-member_with t s members h

contains-member_with :
    (t : String) (ms : List Status) → contains t (map value ms) ≡ is_some (member_with t ms)
contains-member_with t [] = refl
contains-member_with t (m ∷ ms) = ground (arith, contains-member_with t ms)

-- A text is known exactly if it can be read as a status.
pub is_known_lem : (t : String) → is_known t ≡ is_some (of_value t)
unfolding is_known of_value
is_known_lem t = contains-member_with t members

unread : (t : String) → is_known t ≡ false → of_value t ≡ none
unread t h = elim (Option-cases (of_value t)) [
  | inl e ↦ e
  | inr (s, e) ↦ cc (is_known_lem t, ap is_some e)
]

queries_unread :
    (t : String)
    → of_value t ≡ none
    → (display_name t ≡ t)
      × (notifies_customer t ≡ false)
      × (notifies_sales_rep t ≡ false)
      × (is_terminal t ≡ false)
unfolding display_name notifies_customer notifies_sales_rep is_terminal
queries_unread t e = ground arith

-- A text that is no status is displayed as it is, notifies nobody and ends nothing.
pub unknown_status :
    (t : String)
    → is_known t ≡ false
    → (display_name t ≡ t)
      × (notifies_customer t ≡ false)
      × (notifies_sales_rep t ≡ false)
      × (is_terminal t ≡ false)
unknown_status t h = queries_unread t (unread t h)
