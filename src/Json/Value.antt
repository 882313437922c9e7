-- ===== src/Json/Value.antt =====
-- internal/idl/commonidl/json_value.go: JsonValue, the union in which a stored document holds a JSON
-- value, and its conversions. A message with none or several of its members set, which MarshalJSON
-- refuses, is not a value of the type. A Go map is the list of its entries in the order of its keys,
-- the order in which `json.Marshal` writes them.
pub mod Canonical
use fanloop.Base.{
  Bool, true, false, ◌||◌, Option, none, some, String, ◌==◌, leb, if◌then◌else◌, text_le,
}
use fanloop.Json.{
  ℤ, pos, negsuc, Json, null, boolean, integer, decimal, text, array, object, Elements, nil, cons,
  Members, end, member, RawMessage, document, malformed, int64_max,
}

mutual
  pub data JsonValue : Type 0 where
    null_value : Bool → JsonValue
    string_value : String → JsonValue
    bool_value : Bool → JsonValue
    integer_value : ℤ → JsonValue
    -- a float64, by the literal that `json.Marshal` writes for it
    number_value : Json → JsonValue
    list_value : JsonValues → JsonValue
    object_value : JsonFields → JsonValue

  pub data JsonValues : Type 0 where
    no_values : JsonValues
    next_value : JsonValue → JsonValues → JsonValues

  pub data JsonFields : Type 0 where
    no_fields : JsonFields
    next_field : String → JsonValue → JsonFields → JsonFields

-- `strconv.ParseFloat` of a literal: the literal that `json.Marshal` writes for the float64.
abbrev pub ParseFloat : Type 0
ParseFloat = Json → Option Json

has_field : String → JsonFields → Bool
has_field k no_fields = false
has_field k (next_field j v fields) = j == k || has_field k fields

add_field : String → JsonValue → JsonFields → JsonFields
add_field k v no_fields = next_field k v no_fields
add_field k v (next_field j w fields) =
    if text_le k j
    then next_field k v (next_field j w fields)
    else next_field j w (add_field k v fields)

fits_int64 : ℤ → Bool
fits_int64 (pos n) = leb n int64_max
fits_int64 (negsuc n) = leb n int64_max

-- `json.Number`: an int64 where `strconv.ParseInt` reads one, else a float64.
abbrev from_number : ParseFloat → Json → Option JsonValue
from_number parse_float literal = elim (parse_float literal) [
  | none ↦ none
  | some number ↦ some (number_value number)
]

mutual
  unfolding fits_int64 has_field add_field

  -- `FromAny`
  pub from_any : ParseFloat → Json → Option JsonValue
  from_any f null = some (null_value true)
  from_any f (text s) = some (string_value s)
  from_any f (boolean b) = some (bool_value b)
  from_any f (integer z) =
      if fits_int64 z then some (integer_value z) else from_number f (integer z)
  from_any f (decimal s) = from_number f (decimal s)
  from_any f (array xs) = elim (from_elements f xs) [
    | none ↦ none
    | some values ↦ some (list_value values)
  ]
  from_any f (object ms) = elim (from_members f ms) [
    | none ↦ none
    | some fields ↦ some (object_value fields)
  ]

  pub from_elements : ParseFloat → Elements → Option JsonValues
  from_elements f nil = some no_values
  from_elements f (cons x xs) = elim (from_any f x) [
    | none ↦ none
    | some value ↦ elim (from_elements f xs) [
      | none ↦ none
      | some values ↦ some (next_value value values)
    ]
  ]

  -- Of two members with one key the decoder keeps the later one.
  pub from_members : ParseFloat → Members → Option JsonFields
  from_members f end = some no_fields
  from_members f (member k x ms) = elim (from_members f ms) [
    | none ↦ none
    | some fields ↦
        if has_field k fields
        then some fields
        else elim (from_any f x) [ none ↦ none | some value ↦ some (add_field k value fields) ]
  ]

mutual
  -- `JsonValue.MarshalJSON`
  pub marshal_json : JsonValue → Option Json
  marshal_json (null_value true) = some null
  marshal_json (null_value false) = none
  marshal_json (string_value s) = some (text s)
  marshal_json (bool_value b) = some (boolean b)
  marshal_json (integer_value z) = some (integer z)
  marshal_json (number_value number) = some number
  marshal_json (list_value values) = elim (marshal_values values) [
    | none ↦ none
    | some xs ↦ some (array xs)
  ]
  marshal_json (object_value fields) = elim (marshal_fields fields) [
    | none ↦ none
    | some ms ↦ some (object ms)
  ]

  pub marshal_values : JsonValues → Option Elements
  marshal_values no_values = some nil
  marshal_values (next_value value values) = elim (marshal_json value) [
    | none ↦ none
    | some x ↦ elim (marshal_values values) [ none ↦ none | some xs ↦ some (cons x xs) ]
  ]

  pub marshal_fields : JsonFields → Option Members
  marshal_fields no_fields = some end
  marshal_fields (next_field k value fields) = elim (marshal_json value) [
    | none ↦ none
    | some x ↦ elim (marshal_fields fields) [ none ↦ none | some ms ↦ some (member k x ms) ]
  ]

-- `FromJSON`
unfoldable pub from_json : ParseFloat → RawMessage → Option JsonValue
unfolding from_any
from_json f (document j) = from_any f j
from_json f malformed = none

-- `json.Marshal` of a JsonValue.
unfoldable pub marshal : JsonValue → Option RawMessage
unfolding marshal_json
marshal value = elim (marshal_json value) [ none ↦ none | some j ↦ some (document j) ]
