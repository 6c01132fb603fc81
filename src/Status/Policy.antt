-- ===== src/Status/Policy.antt =====
-- What the registry of api/services/equipment_status_machine.py promises to the code that notifies
-- people and moves records.
use templehe_consign.Base.{◌≡◌, ◌⊎◌, true, false, String, arith, inl, inr, eq→≡, string_eq}
use templehe_consign.Status.{
  value, notifies_customer, notifies_sales_rep, is_terminal, of_value, is_forbidden_transition,
  new_request, sold, declined, listed, appraisal_scheduled,
}

-- No status notifies both the customer and the sales rep.
pub one_audience : (t : String) → (notifies_customer t ≡ false) ⊎ (notifies_sales_rep t ≡ false)
unfolding notifies_customer notifies_sales_rep
one_audience t = ground arith

forbidden_edges :
    (a b : String)
    → is_forbidden_transition a b ≡ true
    → ((a ≡ value sold) ⊎ (a ≡ value declined))
      × ((b ≡ value new_request) ⊎ (b ≡ value listed) ⊎ (b ≡ value appraisal_scheduled))
unfolding is_forbidden_transition
forbidden_edges a b h = ground (
  arith,
  eq→≡ a (value sold),
  eq→≡ a (value declined),
  eq→≡ b (value new_request),
  eq→≡ b (value listed),
  eq→≡ b (value appraisal_scheduled),
)

-- Every forbidden move leaves a terminal status, and leads to one that is not terminal.
pub is_forbidden_transition-is_terminal :
    (a b : String)
    → is_forbidden_transition a b ≡ true
    → (is_terminal a ≡ true) × (is_terminal b ≡ false)
unfolding is_terminal of_value
is_forbidden_transition-is_terminal a b h = let (p, q) = forbidden_edges a b h in (from p, to q)
  where
    from : (a ≡ value sold) ⊎ (a ≡ value declined) → is_terminal a ≡ true
    from (inl e) = rw e
    from (inr e) = rw e

    to :
        (b ≡ value new_request) ⊎ (b ≡ value listed) ⊎ (b ≡ value appraisal_scheduled)
        → is_terminal b ≡ false
    to (inl e) = rw e
    to (inr (inl e)) = rw e
    to (inr (inr e)) = rw e
