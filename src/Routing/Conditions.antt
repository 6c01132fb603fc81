-- ===== src/Routing/Conditions.antt =====
-- The matchers of api/services/lead_routing_service.py: one rule's conditions against a customer.
use templehe_consign.Base.{
  ℕ, zero, suc, ◌+◌, ◌*◌, String, Bool, true, false, not, ◌&&◌, ◌||◌, Option, none, some, List, [],
  ◌∷◌, ◌++◌, leb, if◌then◌else◌, ◌==◌, nat_eq, string_eq, pair_eq, any_item, ids_eq, strip, int_eq,
}
use Prim.Native.Char.{Char, code}
use Prim.Native.String.{◌++◌ as join}
use templehe_consign.Json.{is_truthy, shown_scalar, shown, is_text}
use templehe_consign.Routing.{
  Scalar, text, other, Json, null, value, array, object, LeadRoutingRule, Customer, Outside, get,
  get_json,
}

abbrev starts_with_at : String → Bool
starts_with_at String.[] = false
starts_with_at (String.◌∷◌ c s) = code c == b'@'

-- `str.endswith`
pub ends_with : String → String → Bool
ends_with suffix String.[] = suffix == ""
ends_with suffix (String.◌∷◌ c s) =
    let rest = ends_with suffix s in if String.◌∷◌ c s == suffix then true else rest

-- The part before the first dash, and the part behind it if there is a dash.
abbrev put_before : Char → String × Option String → String × Option String
put_before c (s, rest) = (String.◌∷◌ c s, rest)

pub split_dash : String → String × Option String
split_dash String.[] = ("", none)
split_dash (String.◌∷◌ c s) =
    let rest = split_dash s in if code c == b'-' then ("", some s) else put_before c rest

-- The first `n` characters, if there are as many.
pub first_chars : ℕ → String → Option String
first_chars zero s = some ""
first_chars (suc n) String.[] = none
first_chars (suc n) (String.◌∷◌ c s) = elim (first_chars n s) [
  | none ↦ none
  | some t ↦ some (String.◌∷◌ c t)
]

-- ", ".join
abbrev join_parts : List String → String
join_parts [] = ""
join_parts (p ∷ []) = p
join_parts (p ∷ q ∷ ps) = join p (join ", " (join_parts (q ∷ ps)))

-- A part of the address, if it is not blank.
abbrev address_part : Option String → List String
address_part none = []
address_part (some p) = if strip p == "" then [] else strip p ∷ []

-- _format_customer_address
unfoldable pub format_customer_address : Customer → Option String
format_customer_address c =
    let parts =
      address_part c.address_street
      ++ (address_part c.address_city
          ++ (address_part c.address_state ++ address_part c.address_zip)) in
    elim parts [ [] ↦ none | p ∷ ps ↦ some (join_parts (p ∷ ps)) ]

-- Centre and radius of a rule's metro area.
pub record Circle : Type 0 where
  pub center_lat : ℕ
  pub center_lon : ℕ
  pub radius_miles : ℕ

abbrev circle : Option ℕ → Option ℕ → Option ℕ → Option Circle
circle (some lat) (some lon) (some radius) =
    some (record { center_lat = lat; center_lon = lon; radius_miles = radius })
circle _ _ _ = none

-- A parsed UUID against the customer's.
abbrev same_id : Option ℕ → Option ℕ → Bool
same_id (some i) (some j) = i == j
same_id _ _ = false

module _ (x : Outside) where
  -- `str.isdigit`
  pub all_digits : String → Bool
  all_digits String.[] = true
  all_digits (String.◌∷◌ c s) = let rest = all_digits s in x.is_digit (code c) && rest

  abbrev pub is_digits : String → Bool
  is_digits s = not (s == "") && all_digits s

  -- `int` of a text of digits
  pub int_from : ℕ → String → ℕ
  int_from n String.[] = n
  int_from n (String.◌∷◌ c s) = int_from (n * 10 + x.digit_value (code c)) s

  abbrev pub int_of : String → ℕ
  int_of = int_from 0

  abbrev ends_in : String → Option String → Bool
  ends_in domain none = false
  ends_in domain (some email) = if email == "" then false else ends_with domain (x.lower email)

  -- _ad_hoc_matches
  unfoldable pub ad_hoc_matches : LeadRoutingRule → Option ℕ → Option String → Bool
  ad_hoc_matches rule customer_id customer_email =
      let ctype = get_json "condition_type" rule.conditions in
      let v = get_json "value" rule.conditions in
      let domain = x.lower (strip (shown v)) in
      let full = if starts_with_at domain then domain else join "@" domain in
      if not (is_truthy ctype) || not (is_truthy v)
      then false
      else if is_text ctype "customer_id"
      then same_id (x.parse_uuid (shown v)) customer_id
      else if is_text ctype "email_domain"
      then ends_in full customer_email
      else false

  -- _normalize_zip
  unfoldable pub normalize_zip : String → Option ℕ
  normalize_zip raw = elim (first_chars 5 (strip (split_dash raw).0)) [
    | none ↦ none
    | some head ↦ if is_digits head then some (int_of head) else none
  ]

  -- _zip_entry_matches
  abbrev in_range : String → String → ℕ → Bool
  in_range lo hi customer_zip =
      if is_digits lo && is_digits hi
      then leb (int_of lo) customer_zip && leb customer_zip (int_of hi)
      else false

  unfoldable pub zip_entry_matches : String → ℕ → Bool
  zip_entry_matches entry customer_zip =
      let (head, rest) = split_dash (strip entry) in
      elim rest [
        | some tail ↦ in_range (strip head) (strip tail) customer_zip
        | none ↦ if is_digits head then int_of head == customer_zip else false
      ]

  abbrev state_matches : String → Scalar → Bool
  state_matches state (text s) = x.upper (strip s) == x.upper (strip state)
  state_matches state (other truth s) = false

  abbrev zip_matches : ℕ → Scalar → Bool
  zip_matches zip (text s) = zip_entry_matches s zip
  zip_matches zip (other truth s) = false

  -- The two loops of _geo_matches.
  abbrev in_states : Option String → Json → Bool
  in_states (some state) (array s items) =
      if state == "" then false else any_item (state_matches state) items
  in_states _ _ = false

  abbrev in_zips : Option String → Json → Bool
  in_zips (some raw) (array s items) =
      if raw == ""
      then false
      else elim (normalize_zip raw) [ none ↦ false | some zip ↦ any_item (zip_matches zip) items ]
  in_zips _ _ = false

  unfoldable pub geo_matches : LeadRoutingRule → Option String → Option String → Bool
  geo_matches rule state zip_code =
      in_states state (get_json "state_list" rule.conditions)
      || in_zips zip_code (get_json "zip_list" rule.conditions)

  -- `float(metro[key])`; `none` is one of the three exceptions.
  abbrev float_at : String → List (String × Scalar) → Option ℕ
  float_at k fields = elim (get k fields) [ none ↦ none | some v ↦ x.to_float v ]

  unfoldable pub metro_of : LeadRoutingRule → Option Circle
  metro_of rule = elim (get_json "metro_area" rule.conditions) [
    | null ↦ none
    | value v ↦ none
    | array s items ↦ none
    | object s fields ↦
        circle (float_at "center_lat" fields) (float_at "center_lon" fields)
          (float_at "radius_miles" fields)
  ]

  abbrev near : Circle → ℕ × ℕ → Bool
  near c (lat, lon) =
      x.float_le (x.haversine_miles c.center_lat c.center_lon lat lon) c.radius_miles

  unfoldable pub metro_matches : LeadRoutingRule → Customer → Bool
  metro_matches rule customer = elim (metro_of rule) [
    | none ↦ false
    | some c ↦
        if x.float_le c.radius_miles x.float_zero
        then false
        else elim (format_customer_address customer) [
          | none ↦ false
          | some address ↦ elim (x.geocode address) [ none ↦ false | some place ↦ near c place ]
        ]
  ]

  -- _round_robin_rep_ids
  abbrev parsed : List Scalar → List ℕ
  parsed [] = []
  parsed (v ∷ vs) =
      let rest = parsed vs in
      elim (x.parse_uuid (shown_scalar v)) [ none ↦ rest | some i ↦ i ∷ rest ]

  unfoldable pub round_robin_rep_ids : LeadRoutingRule → List ℕ
  round_robin_rep_ids rule = elim (get_json "rep_ids" rule.conditions) [
    | null ↦ []
    | value v ↦ []
    | array s items ↦ parsed items
    | object s fields ↦ []
  ]
