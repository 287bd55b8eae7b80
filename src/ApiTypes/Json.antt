-- ===== src/ApiTypes/Json.antt =====
-- boost::json::value, as far as api_types.cpp tells values apart.
use servertech_chat.Prelude.{
  ℕ, Bool, false, Bytes, str_eq, List, [], ◌∷◌, Option, none, some, if◌then◌else◌,
}
use servertech_chat.Prelude.Decimal.{ℤ}

-- The numbers that are not an int64_t, and null, which the program neither writes nor reads by
-- itself, are `other`.
mutual
  pub data Value : Type 0 where
    other : ℕ → Value
    bool : Bool → Value
    int64 : ℤ → Value
    string : Bytes → Value
    array : Elements → Value
    object : Members → Value

  pub data Elements : Type 0 where
    nil : Elements
    cons : Value → Elements → Elements

  pub data Members : Type 0 where
    end : Members
    member : Bytes → Value → Members → Members

-- boost::json::array, filled by push_back.
abbrev pub elements : List Value → Elements
elements [] = nil
elements (v ∷ vs) = cons v (elements vs)

-- boost::json::object, filled with members of different names.
abbrev pub members : List (Bytes × Value) → Members
members [] = end
members ((key, v) ∷ ms) = member key v (members ms)

-- obj.find(key): `none` is obj.end().
unfoldable pub find : Bytes → Members → Option Value
find key end = none
find key (member k v ms) = let later = find key ms in if str_eq key k then some v else later

-- value.if_object()
abbrev pub if_object : Value → Option Members
if_object (object ms) = some ms
if_object _ = none

-- value == "text"
unfoldable pub equals_text : Value → Bytes → Bool
unfolding str_eq
equals_text (string s) text = str_eq s text
equals_text _ text = false
