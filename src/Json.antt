-- ===== src/Json.antt =====
-- JSON columns of database/models.py as the services read them: the objects of conditions and of
-- actions.
use templehe_consign.Base.{
  String, Bool, true, false, not, Option, none, some, List, [], ◌∷◌, if◌then◌else◌, ◌==◌, nat_eq,
  string_eq, pair_eq, ids_eq, int_eq,
}

-- A JSON value inside an array or an object: a text, or another value with its truth value and the
-- text that `str` gives.
pub data Scalar : Type 0 where
  text : String → Scalar
  other : (truth : Bool) (shown : String) → Scalar

-- A value of the conditions; `shown` is its `str`.
pub data Json : Type 0 where
  null : Json
  value : Scalar → Json
  array : (shown : String) → List Scalar → Json
  object : (shown : String) → List (String × Scalar) → Json

-- `dict.get`; a missing key and a null are both None.
abbrev pub get {ℓ} : {A : Type ℓ} → String → List (String × A) → Option A
get k [] = none
get k ((j, v) ∷ fields) = if k == j then some v else get k fields

abbrev pub is_truthy : Json → Bool
is_truthy null = false
is_truthy (value (text s)) = not (s == "")
is_truthy (value (other truth shown)) = truth
is_truthy (array shown []) = false
is_truthy (array shown (x ∷ xs)) = true
is_truthy (object shown []) = false
is_truthy (object shown (x ∷ xs)) = true

-- `str` of a value
abbrev pub shown_scalar : Scalar → String
shown_scalar (text s) = s
shown_scalar (other truth s) = s

abbrev pub shown : Json → String
shown null = "None"
shown (value v) = shown_scalar v
shown (array s xs) = s
shown (object s fields) = s

-- `value == "…"` for a text on the right
abbrev pub is_text : Json → String → Bool
is_text (value (text s)) t = s == t
is_text _ t = false
